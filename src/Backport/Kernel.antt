-- ===== src/Backport/Kernel.antt =====
-- The registration of the two DMA devices of the core for Linux 5.4.
use akida_dw_edma.Base.{Bool, true, false, if◌then◌else◌, ◌≡◌}
use akida_dw_edma.Edma.{Dir, write, read, Errno, is_success}
use akida_dw_edma.Edma.Probe.{DmaCaps, KernelOps}
use akida_dw_edma.Edma.Probe.Keeps.{KeepsRequests}

-- The registered devices, by direction.
pub record Devices : Type 0 where
  pub wr : Bool
  pub rd : Bool

abbrev pub add : Dir → Devices → Devices
add write d = record d { wr = true }
add read d = record d { rd = true }

abbrev pub drop : Dir → Devices → Devices
drop write d = record d { wr = false }
drop read d = record d { rd = false }

abbrev pub no_devices : Devices
no_devices = record { wr = false; rd = false }

-- `dma_async_device_register` registers a device exactly if it succeeds,
-- `dma_async_device_unregister` unregisters it, and no other call of the core does either. Neither
-- of the two changes the requests of interrupts.
pub record RegisterOps {K : Type 0} (ops : KernelOps K) : Type 0 where
  pub register : Dir → DmaCaps → K → Errno × K
  pub unregister : Dir → K → K
  pub devices : K → Devices
  pub devices-register :
      (dir : Dir) (c : DmaCaps) (k : K)
      → devices (register dir c k).1
        ≡ (if is_success (register dir c k).0 then add dir (devices k) else devices k)
  pub devices-unregister : (dir : Dir) (k : K) → devices (unregister dir k) ≡ drop dir (devices k)
  pub devices-keep : KeepsRequests ops devices
  pub table-register :
      (dir : Dir) (c : DmaCaps) (k : K) → ops.table (register dir c k).1 ≡ ops.table k
  pub table-unregister : (dir : Dir) (k : K) → ops.table (unregister dir k) ≡ ops.table k
