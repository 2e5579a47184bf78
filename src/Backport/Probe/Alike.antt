-- ===== src/Backport/Probe/Alike.antt =====
-- kernel/5.4/akida-dw-edma/dw-edma-core.c: a probe leaves what the probe of the current core leaves.
use akida_dw_edma.Base.{
  ℕ, ◌+◌, ◌<◌, Bool, not, ◌&&◌, ◌==◌, List, Option, none, some, ◌≡◌, ◌≢◌, refl, sym, ap, ◌∙◌,
  if-elim, if-elim₂,
}
use akida_dw_edma.Edma.{write, read, Chip, Chan, CoreOps, SlaveConfig, is_success}
use akida_dw_edma.Edma.Setup.{Irq, irq_alloc, nr_irqs_of, ch_cnt_of, setup_from}
use akida_dw_edma.Edma.Probe.{
  KernelOps, Dw, Probed, dma_caps, core_of, irq_request, setup_and_register, probe_channels, probe,
}
use akida_dw_edma.Edma.Probe.Served.{irq_request-IsFresh}
use akida_dw_edma.Backport.Kernel.{RegisterOps}
use akida_dw_edma.Backport.Setup.{dir_caps, setup_both}
use akida_dw_edma.Backport.Setup.Same.{setup_both-setup_from}
use akida_dw_edma.Backport.Probe.{setup_and_register_both, probe_both_channels, probe_both}

module _ {K V H : Type 0} (ops : KernelOps K) (reg : RegisterOps ops) (v0 hdma : CoreOps H) (vc : V)
    (config : SlaveConfig) where
  open ops use {kcalloc}
  open reg use {register}

  -- `chip->dw` with what a set-up of the channels leaves.
  abbrev stored_as : Chip → ℕ → ℕ → List (Chan V) × (List Irq × H) → Option (Dw V)
  stored_as chip wr_cnt rd_cnt (chans, (irqs, h)) = some (record {
    wr_ch_cnt = wr_cnt;
    rd_ch_cnt = rd_cnt;
    nr_irqs = nr_irqs_of chip.nr_irqs (irq_alloc chip.nr_irqs wr_cnt rd_cnt);
    irqs = irqs;
    chans = chans;
  })

  -- What is stored, if it is, and the hardware are those of the set-up.
  abbrev Stores :
      Chip → ℕ → ℕ → List (Chan V) × (List Irq × H) → Probed ops v0 hdma vc config → Type 0
  Stores chip wr_cnt rd_cnt x r =
      r.dw ≢ none → (r.dw ≡ stored_as chip wr_cnt rd_cnt x) × (r.hw ≡ x.1.1)

  -- If both stored a `chip->dw`, it is the same, and so is the hardware.
  abbrev pub IsAlike : Probed ops v0 hdma vc config → Probed ops v0 hdma vc config → Type 0
  IsAlike r s = r.dw ≢ none → s.dw ≢ none → (r.dw ≡ s.dw) × (r.hw ≡ s.hw)

  both-Stores :
      (chip : Chip) (wr_cnt rd_cnt : ℕ) (irqs : List Irq) (h : H) (k : K)
      → let core = core_of ops v0 hdma vc config chip.mf in
        let a = irq_alloc chip.nr_irqs wr_cnt rd_cnt in
        Stores chip wr_cnt rd_cnt
          (setup_both core chip (nr_irqs_of chip.nr_irqs a) a vc config wr_cnt rd_cnt irqs h)
          (setup_and_register_both ops reg v0 hdma vc config chip wr_cnt rd_cnt irqs h k)
  unfolding setup_and_register_both setup_both
  both-Stores chip wr_cnt rd_cnt irqs h k =
      let core = core_of ops v0 hdma vc config chip.mf in
      let a = irq_alloc chip.nr_irqs wr_cnt rd_cnt in
      let x = setup_both core chip (nr_irqs_of chip.nr_irqs a) a vc config wr_cnt rd_cnt irqs h in
      let first = register write (dir_caps write) k in
      let second = register read (dir_caps read) first.1 in
      if-elim (Stores chip wr_cnt rd_cnt x) (not (is_success first.0)) (λ _ n. absurd (n refl))
        (λ _.
          if-elim (Stores chip wr_cnt rd_cnt x) (not (is_success second.0)) (λ _ n. absurd (n refl))
            (λ _ _. (refl, refl)))

  one-Stores :
      (chip : Chip) (wr_cnt rd_cnt : ℕ) (irqs : List Irq) (h : H) (k : K)
      → let core = core_of ops v0 hdma vc config chip.mf in
        let a = irq_alloc chip.nr_irqs wr_cnt rd_cnt in
        Stores chip wr_cnt rd_cnt
          (setup_from core chip wr_cnt
            (nr_irqs_of chip.nr_irqs a)
            a
            vc
            config
            (wr_cnt + rd_cnt)
            0
            irqs
            h)
          (setup_and_register ops v0 hdma vc config chip wr_cnt rd_cnt irqs h k)
  unfolding setup_and_register
  one-Stores chip wr_cnt rd_cnt irqs h k =
      let core = core_of ops v0 hdma vc config chip.mf in
      let a = irq_alloc chip.nr_irqs wr_cnt rd_cnt in
      let n = nr_irqs_of chip.nr_irqs a in
      let x = setup_from core chip wr_cnt n a vc config (wr_cnt + rd_cnt) 0 irqs h in
      if-elim (Stores chip wr_cnt rd_cnt x) (is_success (ops.register dma_caps k).0)
        (λ _ _. (refl, refl)) (λ _ n. absurd (n refl))

  setup_and_register-IsAlike :
      (chip : Chip) (wr_cnt rd_cnt : ℕ) (irqs : List Irq) (h : H) (k : K)
      → 0 < chip.nr_irqs
      → IsAlike
          (setup_and_register_both ops reg v0 hdma vc config chip wr_cnt rd_cnt irqs h k)
          (setup_and_register ops v0 hdma vc config chip wr_cnt rd_cnt irqs h k)
  setup_and_register-IsAlike chip wr_cnt rd_cnt irqs h k some_irq n m =
      let core = core_of ops v0 hdma vc config chip.mf in
      let same =
        setup_both-setup_from core chip wr_cnt rd_cnt chip.nr_irqs vc config irqs h some_irq in
      let (dw, hw) = both-Stores chip wr_cnt rd_cnt irqs h k n in
      let (dw', hw') = one-Stores chip wr_cnt rd_cnt irqs h k m in
      (
        dw ∙ ap (stored_as chip wr_cnt rd_cnt) same ∙ sym dw',
        hw ∙ ap (λ (x : List (Chan V) × (List Irq × H)). x.1.1) same ∙ sym hw',
      )

  probe_channels-IsAlike :
      (chip : Chip) (wr_cnt rd_cnt : ℕ) (h : H) (k : K)
      → IsAlike
          (probe_both_channels ops reg v0 hdma vc config chip wr_cnt rd_cnt h k)
          (probe_channels ops v0 hdma vc config chip wr_cnt rd_cnt h k)
  unfolding probe_both_channels probe_channels
  probe_channels-IsAlike chip wr_cnt rd_cnt h k =
      let (ok, k₁) = kcalloc k in
      let h₁ = (core_of ops v0 hdma vc config chip.mf).off h in
      let r = irq_request ops chip wr_cnt rd_cnt k₁ in
      if-elim₂ IsAlike (not ok) (λ _ n. absurd (n refl))
        (λ _.
          if-elim₂ IsAlike (is_success r.0)
            (λ e.
              setup_and_register-IsAlike chip wr_cnt rd_cnt r.1.0 h₁ r.1.1
                (irq_request-IsFresh ops chip wr_cnt rd_cnt k₁ e).0)
            (λ _ n. absurd (n refl)))

  -- Whatever kernel either runs in, and on any chip: if the probe for Linux 5.4 and the current one
  -- both store a `chip->dw`, they store the same, the channels and the masks of the vectors included,
  -- and leave the hardware in the same state.
  pub probe_both-IsAlike :
      (has_dev has_ops : Bool) (chip : Chip) (h : H) (k : K)
      → IsAlike
          (probe_both ops reg v0 hdma vc config has_dev has_ops (some chip) h k)
          (probe ops v0 hdma vc config has_dev has_ops (some chip) h k)
  unfolding probe_both probe
  probe_both-IsAlike has_dev has_ops chip h k =
      let core = core_of ops v0 hdma vc config chip.mf in
      let (ok, k₁) = kcalloc k in
      let (wr_hw, h₁) = core.ch_count write h in
      let (rd_hw, h₂) = core.ch_count read h₁ in
      let wr_cnt = ch_cnt_of chip.ll_wr_cnt wr_hw in
      let rd_cnt = ch_cnt_of chip.ll_rd_cnt rd_hw in
      if-elim₂ IsAlike (not (has_dev && has_ops)) (λ _ n. absurd (n refl))
        (λ _.
          if-elim₂ IsAlike (not ok) (λ _ n. absurd (n refl))
            (λ _.
              if-elim₂ IsAlike (wr_cnt == 0 && rd_cnt == 0) (λ _ n. absurd (n refl))
                (λ _. probe_channels-IsAlike chip wr_cnt rd_cnt h₂ k₁)))
