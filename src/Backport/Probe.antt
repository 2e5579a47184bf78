-- ===== src/Backport/Probe.antt =====
-- kernel/5.4/akida-dw-edma/dw-edma-core.c: `akida_dw_edma_probe` and `akida_dw_edma_remove`.
pub mod Undone
pub mod Alike
use akida_dw_edma.Base.{
  ℕ, Bool, true, false, not, ◌&&◌, ◌==◌, if◌then◌else◌, List, [], ◌∷◌, ◌++◌, Option, none, some,
}
use akida_dw_edma.Edma.{
  Dir, write, read, Chip, CoreOps, SlaveConfig, Errno, success, einval, enomem, enodev, is_success,
}
use akida_dw_edma.Edma.Setup.{Irq, irq_alloc, nr_irqs_of, ch_cnt_of}
use akida_dw_edma.Edma.Probe.{KernelOps, Dw, Probed, failed, core_of, irq_free, irq_request}
use akida_dw_edma.Backport.Kernel.{RegisterOps}
use akida_dw_edma.Backport.Setup.{dir_caps, setup_dir_from}

module _ {K V H : Type 0} (ops : KernelOps K) (reg : RegisterOps ops) (v0 hdma : CoreOps H) (vc : V)
    (config : SlaveConfig) where
  open ops use {kcalloc}
  open reg use {register, unregister}

  -- The two calls of `dw_edma_channel_setup`, each of which ends with the registration of its
  -- device, and the end of the probe.
  unfoldable pub setup_and_register_both :
      Chip → ℕ → ℕ → List Irq → H → K → Probed ops v0 hdma vc config
  unfolding irq_free core_of setup_dir_from
  setup_and_register_both chip wr_cnt rd_cnt irqs h k =
      let core = core_of ops v0 hdma vc config chip.mf in
      let a = irq_alloc chip.nr_irqs wr_cnt rd_cnt in
      let nr = nr_irqs_of chip.nr_irqs a in
      let (wr, (irqs₁, h₁)) = setup_dir_from core chip nr a vc config write wr_cnt 0 irqs h in
      let (err, k₁) = register write (dir_caps write) k in
      let (rd, (irqs₂, h₂)) = setup_dir_from core chip nr a vc config read rd_cnt 0 irqs₁ h₁ in
      let (err', k₂) = register read (dir_caps read) k₁ in
      if not (is_success err)
      then failed ops v0 hdma vc config err h₁ (irq_free ops chip nr k₁)
      else (if not (is_success err')
          then failed ops v0 hdma vc config err' h₂ (irq_free ops chip nr k₂)
          else record {
            err = success;
            dw = some (record {
              wr_ch_cnt = wr_cnt;
              rd_ch_cnt = rd_cnt;
              nr_irqs = nr;
              irqs = irqs₂;
              chans = wr ++ rd;
            });
            hw = h₂;
            kernel = k₂;
          })

  -- The probe from the allocation of the channels on.
  unfoldable pub probe_both_channels : Chip → ℕ → ℕ → H → K → Probed ops v0 hdma vc config
  unfolding core_of irq_request setup_and_register_both
  probe_both_channels chip wr_cnt rd_cnt h k =
      let (ok, k₁) = kcalloc k in
      let h₁ = (core_of ops v0 hdma vc config chip.mf).off h in
      let (err, (irqs, k₂)) = irq_request ops chip wr_cnt rd_cnt k₁ in
      if not ok
      then failed ops v0 hdma vc config enomem h k₁
      else (if is_success err
          then setup_and_register_both chip wr_cnt rd_cnt irqs h₁ k₂
          else failed ops v0 hdma vc config err h₁ k₂)

  -- `akida_dw_edma_probe`; `none` is a NULL chip, and the flags tell whether `dev` and `ops` are
  -- set.
  unfoldable pub probe_both : Bool → Bool → Option Chip → H → K → Probed ops v0 hdma vc config
  unfolding core_of probe_both_channels
  probe_both has_dev has_ops none h k = failed ops v0 hdma vc config einval h k
  probe_both has_dev has_ops (some chip) h k =
      let core = core_of ops v0 hdma vc config chip.mf in
      let (ok, k₁) = kcalloc k in
      let (wr_hw, h₁) = core.ch_count write h in
      let (rd_hw, h₂) = core.ch_count read h₁ in
      let wr_cnt = ch_cnt_of chip.ll_wr_cnt wr_hw in
      let rd_cnt = ch_cnt_of chip.ll_rd_cnt rd_hw in
      if not (has_dev && has_ops)
      then failed ops v0 hdma vc config einval h k
      else (if not ok
          then failed ops v0 hdma vc config enomem h k₁
          else (if wr_cnt == 0 && rd_cnt == 0
              then failed ops v0 hdma vc config einval h₂ k₁
              else probe_both_channels chip wr_cnt rd_cnt h₂ k₁))

  -- `akida_dw_edma_remove` on `chip->dw`
  unfoldable pub remove_both : Chip → Option (Dw V) → H → K → Errno × (H × K)
  unfolding irq_free core_of
  remove_both chip none h k = (enodev, (h, k))
  remove_both chip (some dw) h k = (
    success,
    (
      (core_of ops v0 hdma vc config chip.mf).off h,
      unregister read (unregister write (irq_free ops chip dw.nr_irqs k)),
    ),
  )
