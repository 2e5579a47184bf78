-- ===== src/Tests/Backport.antt =====
-- The set-up for Linux 5.4, with three interrupt vectors, in a kernel that refuses the read device.
use akida_dw_edma.Base.{
  Option, some, none, Bool, sym, ap, ◌∙◌, ◌&&◌, true, false, [], ◌≡◌, refl, if◌then◌else◌,
}
use akida_dw_edma.Edma.{Dir, Desc, write, read, Errno, success, ebusy, is_success}
use akida_dw_edma.Edma.Setup.{ch_cnt_of, irq_alloc, dec_rd_alloc, dec_wr_alloc}
use akida_dw_edma.V0.Control.{v0_core, ch_count}
use akida_dw_edma.Edma.Probe.{KernelOps, Table, Dw, Probed, probe, probe_channels}
use akida_dw_edma.Backport.Setup.{register_both}
use akida_dw_edma.Backport.Kernel.{Devices, add, drop, RegisterOps}
use akida_dw_edma.Backport.Setup.Unwind.{register_both-devices}
use akida_dw_edma.Backport.Probe.{probe_both, probe_both_channels}
use akida_dw_edma.Backport.Probe.Alike.{probe_both-IsAlike}
use akida_dw_edma.Vchan.Lists.{Lists}
use akida_dw_edma.Tests.Data.{config, empty_vc}
use akida_dw_edma.Tests.Probes.{kernel, nothing, three_vectors, two_channels}

-- A kernel that also keeps the devices of the two directions.
abbrev with_devices : {K : Type 0} → KernelOps K → KernelOps (K × Devices)
with_devices ops = record {
  table = λ k. ops.table k.0;
  kcalloc = λ k. let (ok, k') = ops.kcalloc k.0 in (ok, (k', k.1));
  request_irq = λ irq isr i k. let (e, k') = ops.request_irq irq isr i k.0 in (e, (k', k.1));
  free_irq = λ irq i k. (ops.free_irq irq i k.0, k.1);
  msi_msg = λ irq k. ops.msi_msg irq k.0;
  register = λ c k. let (e, k') = ops.register c k.0 in (e, (k', k.1));
  unregister = λ k. (ops.unregister k.0, k.1);
  table-kcalloc = λ k. ops.table-kcalloc k.0;
  table-request_irq = λ irq isr i k. ops.table-request_irq irq isr i k.0;
  table-free_irq = λ l ls k e. ops.table-free_irq l ls k.0 e;
  table-register = λ c k. ops.table-register c k.0;
  table-unregister = λ k. ops.table-unregister k.0;
}

abbrev kernel_54 : KernelOps (Table × Devices)
kernel_54 = with_devices (kernel (λ i. false))

abbrev no_read : Dir → Table × Devices → Errno × (Table × Devices)
no_read write k = (success, (k.0, add write k.1))
no_read read k = (ebusy, k)

no_read_lem :
    (dir : Dir) (k : Table × Devices)
    → (no_read dir k).1.1 ≡ (if is_success (no_read dir k).0 then add dir k.1 else k.1)
no_read_lem write k = refl
no_read_lem read k = refl

no_read_table : (dir : Dir) (k : Table × Devices) → (no_read dir k).1.0 ≡ k.0
no_read_table write k = refl
no_read_table read k = refl

abbrev no_read_device : RegisterOps kernel_54
no_read_device = record {
  register = λ dir c k. no_read dir k;
  unregister = λ dir k. (k.0, drop dir k.1);
  devices = λ k. k.1;
  devices-register = λ dir c k. no_read_lem dir k;
  devices-unregister = λ dir k. refl;
  devices-keep = record {
    keeps-kcalloc = λ k. refl;
    keeps-request_irq = λ irq isr i k. refl;
    keeps-free_irq = λ irq i k. refl;
  };
  table-register = λ dir c k. no_read_table dir k;
  table-unregister = λ dir k. refl;
}

abbrev none_yet : Table × Devices
none_yet = (nothing, record { wr = false; rd = false })

-- The write device is still registered.
register_both-devices_example :
    let (result, k) = register_both kernel_54 (λ dir c k. no_read dir k) three_vectors 3 none_yet in
    (is_success result ≡ (true && false)) × (k.1 ≡ record { wr = true; rd = true && false })
register_both-devices_example =
    register_both-devices kernel_54 no_read_device three_vectors 3 none_yet refl

-- Both devices can be registered.
abbrev both_devices : RegisterOps kernel_54
both_devices = record no_read_device {
  register = λ dir c k. (success, (k.0, add dir k.1));
  devices-register = λ dir c k. refl;
  table-register = λ dir c k. refl;
}

abbrev probed_both : Probed kernel_54 two_channels two_channels empty_vc config
probed_both =
    probe_both kernel_54 both_devices two_channels two_channels empty_vc config true true
      (some three_vectors) [] none_yet

abbrev probed_once : Probed kernel_54 two_channels two_channels empty_vc config
probed_once =
    probe kernel_54 two_channels two_channels empty_vc config true true (some three_vectors) []
      none_yet

abbrev is_stored : Option (Dw (Lists Desc)) → Bool
is_stored none = false
is_stored (some d) = true

both_stored : is_stored probed_both.dw ≡ true
unfolding probe_both probe_both_channels ch_cnt_of v0_core ch_count irq_alloc dec_rd_alloc
    dec_wr_alloc
both_stored = refl

once_stored : is_stored probed_once.dw ≡ true
unfolding probe probe_channels ch_cnt_of v0_core ch_count irq_alloc dec_rd_alloc dec_wr_alloc
once_stored = refl

probe_both-IsAlike_example : (probed_both.dw ≡ probed_once.dw) × (probed_both.hw ≡ probed_once.hw)
probe_both-IsAlike_example =
    probe_both-IsAlike kernel_54 both_devices two_channels two_channels empty_vc config true true
      three_vectors [] none_yet (λ e. cc (sym both_stored ∙ ap is_stored e))
      (λ e. cc (sym once_stored ∙ ap is_stored e))
