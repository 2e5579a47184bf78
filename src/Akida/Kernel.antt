-- ===== src/Akida/Kernel.antt =====
-- The calls of the kernel that akida-pcie-core.c makes to bind a device, with their documented
-- behaviour. What the kernel frees by itself when the driver lets the device go (memory, mappings,
-- the enabled device) is not held.
use Prim.Native.String.{String}
use akida_dw_edma.Base.{
  ℕ, ◌+◌, ◌-◌, ◌==◌, ◌≤◌, Bool, true, false, if◌then◌else◌, [], Option, none, some, ◌≡◌,
}
use akida_dw_edma.Edma.{Errno, is_success}
use akida_dw_edma.Edma.Probe.{KernelOps, Table}
use akida_dw_edma.Edma.Probe.Keeps.{Keeps}

-- `enum { AKIDA_1000, AKIDA_1500 }`
pub data Board : Type 0 where
  akida_1000 akida_1500 : Board

-- `struct miscdevice`: `name` is `miscdev_name` and the device number, and `fops` those of the
-- board.
pub record MiscDevice : Type 0 where
  pub name : String × ℕ
  pub fops : Board

-- A channel that `dma_request_channel` shows to the filter: whether it is of the device of the
-- driver, and what `dma_get_slave_caps` answers, with the directions.
pub record Candidate : Type 0 where
  pub same_dev : Bool
  pub caps : Errno × ℕ

-- What the kernel holds for the driver besides what the core asks for: the interrupt vectors and
-- whether MSI or MSI-X is enabled, the DMA channels, the references to the driver's module, the
-- device numbers and the misc device. `channels` and `devnos` tell how often each is taken.
pub record Pci : Type 0 where
  pub vectors : Bool
  pub msi : Bool
  pub channels : ℕ → ℕ
  pub module_refs : ℕ
  pub devnos : ℕ → ℕ
  pub misc : Option MiscDevice

-- All that the kernel holds for the driver.
pub record Held : Type 0 where
  pub core : Table
  pub pci : Pci

-- Once more, and once less.
abbrev pub more : ℕ → (ℕ → ℕ) → ℕ → ℕ
more a f b = if a == b then f b + 1 else f b

abbrev pub less : ℕ → (ℕ → ℕ) → ℕ → ℕ
less a f b = if a == b then f b - 1 else f b

abbrev pub held_by : {K : Type 0} → KernelOps K → (K → Pci) → K → Held
held_by ops pci k = record { core = ops.table k; pci = pci k }

-- The changes of what is held.
abbrev pub taking : ℕ → Held → Held
taking c t = record t {
  pci = record t.pci { channels = more c t.pci.channels; module_refs = t.pci.module_refs + 1 };
}

abbrev pub releasing : ℕ → Held → Held
releasing c t = record t {
  pci = record t.pci { channels = less c t.pci.channels; module_refs = t.pci.module_refs - 1 };
}

abbrev pub with_refs : ℕ → Held → Held
with_refs n t = record t { pci = record t.pci { module_refs = n } }

abbrev pub with_vectors : Bool → Bool → Held → Held
with_vectors vectors msi t = record t { pci = record t.pci { vectors = vectors; msi = msi } }

abbrev pub with_devnos : (ℕ → ℕ) → Held → Held
with_devnos ns t = record t { pci = record t.pci { devnos = ns } }

abbrev pub with_misc : Option MiscDevice → Held → Held
with_misc m t = record t { pci = record t.pci { misc = m } }

pub record PciOps {K : Type 0} (ops : KernelOps K) : Type 0 where
  pub pci : K → Pci
  pub candidate : ℕ → Candidate
  pub kzalloc : K → Bool × K
  pub disable_link_state : K → K
  pub enable_device : K → Errno × K
  pub set_master : K → K
  pub set_dma_mask : ℕ → K → Errno × K
  pub set_coherent_mask : ℕ → K → Errno × K
  pub dmam_alloc : ℕ → K → Option (ℕ × ℕ) × K
  pub write_config : ℕ → ℕ → K → Errno × K
  pub msleep : ℕ → K → K
  pub iomap_regions : ℕ → K → Errno × K
  pub iounmap_regions : ℕ → K → K
  pub iomap_table : K → ℕ → ℕ
  pub irq_vector : K → ℕ → ℕ
  pub alloc_irq_vectors : ℕ → ℕ → K → Errno × (ℕ × K)
  pub free_irq_vectors : K → K
  pub request_channel : (Candidate → Bool) → K → Option ℕ × K
  pub release_channel : ℕ → K → K
  pub terminate_sync : ℕ → K → K
  pub module_put : K → K
  pub module_get : K → K
  pub ida_alloc : K → Errno × (ℕ × K)
  pub ida_free : ℕ → K → K
  pub misc_register : MiscDevice → K → Errno × K
  pub misc_deregister : K → K
  -- The calls that leave what is held alone.
  pub core-keeps : Keeps ops pci
  pub held-kzalloc : (k : K) → held_by ops pci (kzalloc k).1 ≡ held_by ops pci k
  pub held-disable_link_state : (k : K) → held_by ops pci (disable_link_state k) ≡ held_by ops pci k
  pub held-enable_device : (k : K) → held_by ops pci (enable_device k).1 ≡ held_by ops pci k
  pub held-set_master : (k : K) → held_by ops pci (set_master k) ≡ held_by ops pci k
  pub held-set_dma_mask : (n : ℕ) (k : K) → held_by ops pci (set_dma_mask n k).1 ≡ held_by ops pci k
  pub held-set_coherent_mask :
      (n : ℕ) (k : K) → held_by ops pci (set_coherent_mask n k).1 ≡ held_by ops pci k
  pub held-dmam_alloc : (n : ℕ) (k : K) → held_by ops pci (dmam_alloc n k).1 ≡ held_by ops pci k
  pub held-write_config :
      (a x : ℕ) (k : K) → held_by ops pci (write_config a x k).1 ≡ held_by ops pci k
  pub held-msleep : (n : ℕ) (k : K) → held_by ops pci (msleep n k) ≡ held_by ops pci k
  pub held-iomap_regions :
      (bars : ℕ) (k : K) → held_by ops pci (iomap_regions bars k).1 ≡ held_by ops pci k
  pub held-iounmap_regions :
      (bars : ℕ) (k : K) → held_by ops pci (iounmap_regions bars k) ≡ held_by ops pci k
  pub held-terminate_sync :
      (c : ℕ) (k : K) → held_by ops pci (terminate_sync c k) ≡ held_by ops pci k
  -- At least the number of vectors that is asked for, or an error. They may be freed once no
  -- interrupt of theirs is requested.
  pub alloc_irq_vectors-least :
      (lo hi : ℕ) (k : K)
      → is_success (alloc_irq_vectors lo hi k).0 ≡ true
      → lo ≤ (alloc_irq_vectors lo hi k).1.0
  pub held-alloc_irq_vectors :
      (lo hi : ℕ) (k : K)
      → let (err, (_, k')) = alloc_irq_vectors lo hi k in
        held_by ops pci k' ≡ (
          if is_success err
          then with_vectors true (pci k').msi (held_by ops pci k)
          else held_by ops pci k)
  pub held-free_irq_vectors :
      (k : K)
      → (ops.table k).lines ≡ []
      → held_by ops pci (free_irq_vectors k) ≡ with_vectors false false (held_by ops pci k)
  -- A channel that passes the filter, and with it a reference to its module, or none.
  pub request_channel-passes :
      (f : Candidate → Bool) (k : K) (c : ℕ)
      → (request_channel f k).0 ≡ some c
      → f (candidate c) ≡ true
  pub held-request_channel :
      (f : Candidate → Bool) (k : K)
      → held_by ops pci (request_channel f k).1 ≡ (elim (request_channel f k).0 [
        | none ↦ held_by ops pci k
        | some c ↦ taking c (held_by ops pci k)
      ])
  pub held-release_channel :
      (c : ℕ) (k : K) → held_by ops pci (release_channel c k) ≡ releasing c (held_by ops pci k)
  pub held-module_put :
      (k : K)
      → held_by ops pci (module_put k) ≡ with_refs ((pci k).module_refs - 1) (held_by ops pci k)
  pub held-module_get :
      (k : K)
      → held_by ops pci (module_get k) ≡ with_refs ((pci k).module_refs + 1) (held_by ops pci k)
  pub held-ida_alloc :
      (k : K)
      → let (err, (n, k')) = ida_alloc k in
        held_by ops pci k' ≡ (
          if is_success err
          then with_devnos (more n (pci k).devnos) (held_by ops pci k)
          else held_by ops pci k)
  pub held-ida_free :
      (n : ℕ) (k : K)
      → held_by ops pci (ida_free n k) ≡ with_devnos (less n (pci k).devnos) (held_by ops pci k)
  pub held-misc_register :
      (m : MiscDevice) (k : K)
      → held_by ops pci (misc_register m k).1 ≡ (
          if is_success (misc_register m k).0
          then with_misc (some m) (held_by ops pci k)
          else held_by ops pci k)
  pub held-misc_deregister :
      (k : K) → held_by ops pci (misc_deregister k) ≡ with_misc none (held_by ops pci k)
