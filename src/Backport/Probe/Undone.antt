-- ===== src/Backport/Probe/Undone.antt =====
-- kernel/5.4/akida-dw-edma/dw-edma-core.c: what a probe holds of the kernel, and its removal.
use akida_dw_edma.Base.{
  ℕ, Bool, true, false, not, ◌&&◌, ◌==◌, List, Option, none, some, ◌≡◌, ◌≢◌, refl, ap, ◌∙◌, arith,
  if-elim,
}
use akida_dw_edma.Edma.{write, read, Chip, CoreOps, SlaveConfig, success, is_success}
use akida_dw_edma.Edma.Setup.{Irq, irq_alloc, nr_irqs_of, ch_cnt_of}
use akida_dw_edma.Edma.Probe.{KernelOps, Table, Dw, Probed, core_of, irq_free, irq_request}
use akida_dw_edma.Edma.Probe.Keeps.{irq_free-keeps, irq_request-keeps}
use akida_dw_edma.Edma.Probe.Reverts.{requested, routine, irq_free-table, irq_request-table}
use akida_dw_edma.Backport.Kernel.{Devices, add, no_devices, RegisterOps}
use akida_dw_edma.Backport.Setup.{dir_caps}
use akida_dw_edma.Backport.Probe.{
  setup_and_register_both, probe_both_channels, probe_both, remove_both,
}

module _ {K V H : Type 0} (ops : KernelOps K) (reg : RegisterOps ops) (v0 hdma : CoreOps H) (vc : V)
    (config : SlaveConfig) where
  open ops use {table, kcalloc, table-kcalloc}
  open reg use {
    register, unregister, devices, devices-register, devices-unregister, devices-keep,
    table-register, table-unregister,
  }
  open devices-keep use {keeps-kcalloc}

  -- A line for each vector, and both devices; or an error and no more lines than in the table,
  -- where at most the write device is registered.
  abbrev pub IsUndone : Chip → Table → Probed ops v0 hdma vc config → Type 0
  IsUndone chip t r = elim r.dw [
    | none ↦ (r.err ≢ success) × ((table r.kernel ≡ t) × ((devices r.kernel).rd ≡ false))
    | some dw ↦
        ((r.err ≡ success)
          × (dw.nr_irqs
              ≡ nr_irqs_of chip.nr_irqs (irq_alloc chip.nr_irqs dw.wr_ch_cnt dw.rd_ch_cnt)))
        × ((table r.kernel ≡ requested ops chip t dw.wr_ch_cnt dw.rd_ch_cnt)
            × (devices r.kernel ≡ record { wr = true; rd = true }))
  ]

  setup_and_register_both-IsUndone :
      (chip : Chip) (t : Table) (wr_cnt rd_cnt : ℕ) (irqs : List Irq) (h : H) (k : K)
      → table k ≡ requested ops chip t wr_cnt rd_cnt
      → devices k ≡ no_devices
      → IsUndone chip t
          (setup_and_register_both ops reg v0 hdma vc config chip wr_cnt rd_cnt irqs h k)
  unfolding setup_and_register_both
  setup_and_register_both-IsUndone chip t wr_cnt rd_cnt irqs h k held free =
      let a = register write (dir_caps write) k in
      let b = register read (dir_caps read) a.1 in
      let nr = nr_irqs_of chip.nr_irqs (irq_alloc chip.nr_irqs wr_cnt rd_cnt) in
      let isr = routine ops chip t wr_cnt rd_cnt in
      let held_a = table-register write (dir_caps write) k ∙ held in
      let held_b = table-register read (dir_caps read) a.1 ∙ held_a in
      let freed : (k : K)
          → table k ≡ requested ops chip t wr_cnt rd_cnt
          → table (irq_free ops chip nr k) ≡ t =
        λ k h. irq_free-table ops chip t isr nr k h in
      let kept : (k : K) → devices (irq_free ops chip nr k) ≡ devices k =
        λ k. irq_free-keeps ops devices devices-keep chip nr k in
      let first = devices-register write (dir_caps write) k in
      let second = devices-register read (dir_caps read) a.1 in
      let none_left : is_success a.0 ≡ false → devices a.1 ≡ no_devices = λ f. first ∙ rw f free in
      let one_left : is_success b.0 ≡ false
          → devices a.1 ≡ record { wr = true; rd = false }
          → devices b.1 ≡ record { wr = true; rd = false } =
        λ g one. second ∙ rw g one in
      if-elim (IsUndone chip t) (not (is_success a.0))
        (λ e.
          let f : is_success a.0 ≡ false = ground (arith, e) in
          ((λ z. cc z), (freed a.1 held_a, ap (λ (d : Devices). d.rd) (kept a.1 ∙ none_left f))))
        (λ e.
          let f : is_success a.0 ≡ true = ground (arith, e) in
          let one : devices a.1 ≡ record { wr = true; rd = false } =
            first ∙ rw f (ap (add write) free) in
          if-elim (IsUndone chip t) (not (is_success b.0))
            (λ e'.
              let g : is_success b.0 ≡ false = ground (arith, e') in
              (
                (λ z. cc z),
                (freed b.1 held_b, ap (λ (d : Devices). d.rd) (kept b.1 ∙ one_left g one)),
              ))
            (λ e'.
              let g : is_success b.0 ≡ true = ground (arith, e') in
              ((refl, refl), (held_b, second ∙ rw g (ap (add read) one)))))

  probe_both_channels-IsUndone :
      (chip : Chip) (t : Table) (wr_cnt rd_cnt : ℕ) (h : H) (k : K)
      → table k ≡ t
      → devices k ≡ no_devices
      → IsUndone chip t (probe_both_channels ops reg v0 hdma vc config chip wr_cnt rd_cnt h k)
  unfolding probe_both_channels
  probe_both_channels-IsUndone chip t wr_cnt rd_cnt h k held free =
      let (ok, k₁) = kcalloc k in
      let same : table k₁ ≡ t = table-kcalloc k ∙ held in
      let none_yet : devices k₁ ≡ no_devices = keeps-kcalloc k ∙ free in
      let r = irq_request ops chip wr_cnt rd_cnt k₁ in
      let asked = irq_request-table ops chip t wr_cnt rd_cnt k₁ same in
      let still : devices r.1.1 ≡ no_devices =
        irq_request-keeps ops devices devices-keep chip wr_cnt rd_cnt k₁ ∙ none_yet in
      if-elim (IsUndone chip t) (not ok)
        (λ _. ((λ z. cc z), (same, ap (λ (d : Devices). d.rd) none_yet)))
        (λ _.
          if-elim (IsUndone chip t) (is_success r.0)
            (λ e.
              setup_and_register_both-IsUndone chip t wr_cnt rd_cnt r.1.0 _ r.1.1
                (asked ∙ rw e refl) still)
            (λ e. ((λ z. cc (e, z)), (asked ∙ rw e refl, ap (λ (d : Devices). d.rd) still))))

  -- Where neither device is registered yet: the probe of the core for Linux 5.4 succeeds with a
  -- request for each vector and both devices registered, or it ends with an error, no `chip->dw`,
  -- no more requests than before and the read device not registered.
  pub probe_both-IsUndone :
      (has_dev has_ops : Bool) (chip : Chip) (h : H) (k : K)
      → devices k ≡ no_devices
      → IsUndone chip
          (table k)
          (probe_both ops reg v0 hdma vc config has_dev has_ops (some chip) h k)
  unfolding probe_both
  probe_both-IsUndone has_dev has_ops chip h k free =
      let Done = IsUndone chip (table k) in
      let core = core_of ops v0 hdma vc config chip.mf in
      let (ok, k₁) = kcalloc k in
      let (wr_hw, h₁) = core.ch_count write h in
      let (rd_hw, h₂) = core.ch_count read h₁ in
      let wr_cnt = ch_cnt_of chip.ll_wr_cnt wr_hw in
      let rd_cnt = ch_cnt_of chip.ll_rd_cnt rd_hw in
      let still : devices k₁ ≡ no_devices = keeps-kcalloc k ∙ free in
      let no_read = ap (λ (d : Devices). d.rd) still in
      if-elim Done (not (has_dev && has_ops))
        (λ _. ((λ z. cc z), (refl, ap (λ (d : Devices). d.rd) free)))
        (λ _.
          if-elim Done (not ok) (λ _. ((λ z. cc z), (table-kcalloc k, no_read)))
            (λ _.
              if-elim Done (wr_cnt == 0 && rd_cnt == 0)
                (λ _. ((λ z. cc z), (table-kcalloc k, no_read)))
                (λ _.
                  probe_both_channels-IsUndone chip (table k) wr_cnt rd_cnt h₂ k₁ (table-kcalloc k)
                    still)))

  removed-stored :
      (chip : Chip) (t : Table) (r : Probed ops v0 hdma vc config) (o : Option (Dw V))
      → o ≢ none
      → IsUndone chip t (record r { dw = o })
      → let (e, (_, k)) = remove_both ops reg v0 hdma vc config chip o r.hw r.kernel in
        (e ≡ success) × ((table k ≡ t) × (devices k ≡ no_devices))
  unfolding remove_both
  removed-stored chip t r none n done = absurd (n refl)
  removed-stored chip t r (some dw) n ((_, counted), (held, both)) =
      let k₁ = irq_free ops chip dw.nr_irqs r.kernel in
      let k₂ = unregister write k₁ in
      let isr = routine ops chip t dw.wr_ch_cnt dw.rd_ch_cnt in
      let freed : table k₁ ≡ t = rw counted (irq_free-table ops chip t isr _ r.kernel held) in
      let dropped : devices k₂ ≡ record { wr = false; rd = true } =
        devices-unregister write k₁
        ∙ ap (λ (d : Devices). record d { wr = false })
            (irq_free-keeps ops devices devices-keep chip dw.nr_irqs r.kernel ∙ both) in
      (
        refl,
        (
          table-unregister read k₂ ∙ table-unregister write k₁ ∙ freed,
          devices-unregister read k₂ ∙ ap (λ (d : Devices). record d { rd = false }) dropped,
        ),
      )

  -- Where neither device is registered yet: removing the core for Linux 5.4 after a probe that
  -- stored `chip->dw` succeeds and leaves the requests as they were before the probe, and neither
  -- device registered.
  pub remove_both-probe_both :
      (has_dev has_ops : Bool) (chip : Chip) (h : H) (k : K)
      → devices k ≡ no_devices
      → (probe_both ops reg v0 hdma vc config has_dev has_ops (some chip) h k).dw ≢ none
      → let r = probe_both ops reg v0 hdma vc config has_dev has_ops (some chip) h k in
        let (e, (_, k')) = remove_both ops reg v0 hdma vc config chip r.dw r.hw r.kernel in
        (e ≡ success) × ((table k' ≡ table k) × (devices k' ≡ no_devices))
  remove_both-probe_both has_dev has_ops chip h k free stored =
      let r = probe_both ops reg v0 hdma vc config has_dev has_ops (some chip) h k in
      removed-stored chip (table k) r r.dw stored
        (probe_both-IsUndone has_dev has_ops chip h k free)
