-- ===== src/Edma/Probe/Reverts.antt =====
-- akida-dw-edma/dw-edma-core.c: what a probe of the core holds of the kernel, and that it is given
-- back.
use akida_dw_edma.Base.{
  ℕ, zero, suc, ◌+◌, Bool, true, false, not, ◌&&◌, ◌||◌, ◌==◌, ltb, if◌then◌else◌, List, [], ◌∷◌,
  ◌++◌, Option, none, some, replicate, ◌≡◌, ◌≢◌, refl, sym, ap, subst, ◌∙◌, arith, if-elim,
  Bool-cases, inl, inr,
}
use akida_dw_edma.Edma.{write, read, Chip, CoreOps, SlaveConfig, Errno, success, is_success}
use akida_dw_edma.Edma.Setup.{Irq, zero_irq, irq_alloc, nr_irqs_of, ch_cnt_of}
use akida_dw_edma.Edma.Probe.{
  Isr, isr_common, isr_write, isr_read, Line, Table, KernelOps, dma_caps, Dw, vector_of, has_vector,
  cache_msi, irq_free, request_from, request_common, irq_request, Probed, core_of,
  setup_and_register, probe_channels, probe, remove,
}

-- The lines below `n`, with their routines, latest first.
abbrev pub lines_upto : Chip → (ℕ → Isr) → ℕ → List Line
lines_upto chip isr zero = []
lines_upto chip isr (suc n) =
    record { irq = vector_of chip n; isr = isr n; place = n } ∷ lines_upto chip isr n

-- The kernel's table with these lines on top.
abbrev pub holding : Chip → (ℕ → Isr) → ℕ → Table → Table
holding chip isr n t = record t { lines = lines_upto chip isr n ++ t.lines }

module _ {K : Type 0} (ops : KernelOps K) (chip : Chip) (t : Table) where
  open ops use {
    table, request_irq, free_irq, kcalloc, table-kcalloc, table-request_irq, table-free_irq,
  }

  pub irq_free-table :
      (isr : ℕ → Isr) (n : ℕ) (k : K)
      → table k ≡ holding chip isr n t
      → table (irq_free ops chip n k) ≡ t
  unfolding irq_free
  irq_free-table isr zero k h = h
  irq_free-table isr (suc n) k h = irq_free-table isr n (free_irq (vector_of chip n) n k) (
      table-free_irq (record { irq = vector_of chip n; isr = isr n; place = n })
        (lines_upto chip isr n ++ t.lines) k (ap (λ (x : Table). x.lines) h)
      ∙ ap (λ (x : Table). record x { lines = lines_upto chip isr n ++ t.lines }) h)

  abbrev pub isr_of : ℕ → ℕ → Isr
  isr_of wr_alloc i = if ltb i wr_alloc then isr_write else isr_read

  request_from-table :
      (wr n i m : ℕ) (irqs : List Irq) (k : K)
      → i + n ≡ m
      → table k ≡ holding chip (isr_of wr) i t
      → let (e, (_, k')) = request_from ops chip wr n i irqs k in
        table k' ≡ (if is_success e then holding chip (isr_of wr) m t else t)
  unfolding request_from
  request_from-table wr zero i m irqs k s h =
      let end : i ≡ m = omega arith in h ∙ ap (λ j. holding chip (isr_of wr) j t) end
  request_from-table wr (suc n) i m irqs k s h =
      let r = request_irq (vector_of chip i) (isr_of wr i) i k in
      let got = table-request_irq (vector_of chip i) (isr_of wr i) i k in
      elim (Bool-cases (is_success r.0)) [
        | inl e ↦ rw e (
            request_from-table wr n (suc i) m (cache_msi ops chip i r.1 irqs) r.1 (omega arith)
              (got ∙ rw (e, h) refl))
        | inr e ↦ rw (e, e) (irq_free-table (isr_of wr) i r.1 (got ∙ rw (e, h) refl))
      ]

  request_common-table :
      (irqs : List Irq) (k : K)
      → table k ≡ t
      → let (e, (_, k')) = request_common ops chip irqs k in
        table k' ≡ (if is_success e then holding chip (λ _. isr_common) 1 t else t)
  unfolding request_common
  request_common-table irqs k h =
      let r = request_irq (vector_of chip 0) isr_common 0 k in
      let got = table-request_irq (vector_of chip 0) isr_common 0 k in
      elim (Bool-cases (is_success r.0)) [
        | inl e ↦ rw e (got ∙ rw (e, h) refl)
        | inr e ↦ rw (e, e) (got ∙ rw (e, h) refl)
      ]

  -- The routine of each vector.
  abbrev pub routine : ℕ → ℕ → (ℕ → Isr)
  routine wr_cnt rd_cnt =
      if chip.nr_irqs == 1
      then (λ _. isr_common)
      else isr_of (irq_alloc chip.nr_irqs wr_cnt rd_cnt).wr

  -- The table with a line for each vector.
  abbrev pub requested : ℕ → ℕ → Table
  requested wr_cnt rd_cnt =
      holding chip (routine wr_cnt rd_cnt)
        (nr_irqs_of chip.nr_irqs (irq_alloc chip.nr_irqs wr_cnt rd_cnt)) t

  pub irq_request-table :
      (wr_cnt rd_cnt : ℕ) (k : K)
      → table k ≡ t
      → let (e, (_, k')) = irq_request ops chip wr_cnt rd_cnt k in
        table k' ≡ (if is_success e then requested wr_cnt rd_cnt else t)
  unfolding irq_request nr_irqs_of
  irq_request-table wr_cnt rd_cnt k h =
      let Done : Errno × (List Irq × K) → Type 0 =
        λ r. table r.1.1 ≡ (if is_success r.0 then requested wr_cnt rd_cnt else t) in
      let a = irq_alloc chip.nr_irqs wr_cnt rd_cnt in
      let (ok, k₁) = kcalloc k in
      let same : table k₁ ≡ t = table-kcalloc k ∙ h in
      let irqs = replicate chip.nr_irqs zero_irq in
      if-elim Done (ltb chip.nr_irqs 1 || not (has_vector chip)) (λ _. h)
        (λ _.
          if-elim Done (not ok) (λ _. same)
            (λ _.
              if-elim Done (chip.nr_irqs == 1) (λ e. rw e (request_common-table irqs k₁ same))
                (λ e. rw e (
                  request_from-table a.wr (a.wr + a.rd) 0 (a.wr + a.rd) irqs k₁ (omega arith)
                    same))))

-- What the probe leaves of a table: the lines and the device where it succeeds, nothing where it
-- fails.
module _ {K V H : Type 0} (ops : KernelOps K) (v0 hdma : CoreOps H) (vc : V)
    (config : SlaveConfig) where
  open ops use {table, kcalloc, register, table-kcalloc, table-register, table-unregister}

  -- With its lines, the device registered, and `chip->dw` as it says; or as before, and no `dw`.
  abbrev pub IsReverted : Chip → Table → Probed ops v0 hdma vc config → Type 0
  IsReverted chip t r = elim r.dw [
    | none ↦ (r.err ≢ success) × (table r.kernel ≡ t)
    | some dw ↦
        (r.err ≡ success)
        × ((dw.nr_irqs ≡ nr_irqs_of chip.nr_irqs (irq_alloc chip.nr_irqs dw.wr_ch_cnt dw.rd_ch_cnt))
            × (table r.kernel
                ≡ record (requested ops chip t dw.wr_ch_cnt dw.rd_ch_cnt) { registered = true }))
  ]

  setup_and_register-IsReverted :
      (chip : Chip) (t : Table) (wr_cnt rd_cnt : ℕ) (irqs : List Irq) (h : H) (k : K)
      → table k ≡ requested ops chip t wr_cnt rd_cnt
      → IsReverted chip t (setup_and_register ops v0 hdma vc config chip wr_cnt rd_cnt irqs h k)
  unfolding setup_and_register
  setup_and_register-IsReverted chip t wr_cnt rd_cnt irqs h k held =
      let got = table-register dma_caps k in
      let n = nr_irqs_of chip.nr_irqs (irq_alloc chip.nr_irqs wr_cnt rd_cnt) in
      if-elim (IsReverted chip t) (is_success (register dma_caps k).0)
        (λ e. (refl, (refl, got ∙ rw (e, held) refl)))
        (λ e. (
          (λ z. cc (e, z)),
          irq_free-table ops chip t (routine ops chip t wr_cnt rd_cnt) n (register dma_caps k).1
              (got ∙ rw (e, held) refl),
        ))

  probe_channels-IsReverted :
      (chip : Chip) (t : Table) (wr_cnt rd_cnt : ℕ) (h : H) (k : K)
      → table k ≡ t
      → IsReverted chip t (probe_channels ops v0 hdma vc config chip wr_cnt rd_cnt h k)
  unfolding probe_channels
  probe_channels-IsReverted chip t wr_cnt rd_cnt h k held =
      let (ok, k₁) = kcalloc k in
      let same : table k₁ ≡ t = table-kcalloc k ∙ held in
      let r = irq_request ops chip wr_cnt rd_cnt k₁ in
      let asked = irq_request-table ops chip t wr_cnt rd_cnt k₁ same in
      if-elim (IsReverted chip t) (not ok) (λ _. ((λ z. cc z), same))
        (λ _.
          if-elim (IsReverted chip t) (is_success r.0)
            (λ e.
              setup_and_register-IsReverted chip t wr_cnt rd_cnt r.1.0 _ r.1.1 (asked ∙ rw e refl))
            (λ e. ((λ z. cc (e, z)), asked ∙ rw e refl)))

  -- A probe of the core that succeeds holds a line for each vector of its channels, and its device
  -- is registered. One that fails, at whatever step, holds no more of the kernel than before, and
  -- stores no `chip->dw`.
  pub probe-IsReverted :
      (has_dev has_ops : Bool) (chip : Chip) (h : H) (k : K)
      → IsReverted chip (table k) (probe ops v0 hdma vc config has_dev has_ops (some chip) h k)
  unfolding probe
  probe-IsReverted has_dev has_ops chip h k =
      let Done = IsReverted chip (table k) in
      let core = core_of ops v0 hdma vc config chip.mf in
      let (ok, k₁) = kcalloc k in
      let (wr_hw, h₁) = core.ch_count write h in
      let (rd_hw, h₂) = core.ch_count read h₁ in
      let wr_cnt = ch_cnt_of chip.ll_wr_cnt wr_hw in
      let rd_cnt = ch_cnt_of chip.ll_rd_cnt rd_hw in
      if-elim Done (not (has_dev && has_ops)) (λ _. ((λ z. cc z), refl))
        (λ _.
          if-elim Done (not ok) (λ _. ((λ z. cc z), table-kcalloc k))
            (λ _.
              if-elim Done (wr_cnt == 0 && rd_cnt == 0) (λ _. ((λ z. cc z), table-kcalloc k))
                (λ _.
                  probe_channels-IsReverted chip (table k) wr_cnt rd_cnt h₂ k₁ (table-kcalloc k))))

  pub remove_stored :
      (chip : Chip) (t : Table) (r : Probed ops v0 hdma vc config) (o : Option (Dw V))
      → t.registered ≡ false
      → r.dw ≡ o
      → o ≢ none
      → IsReverted chip t r
      → let (e, (_, k)) = remove ops v0 hdma vc config chip o r.hw r.kernel in
        (e ≡ success) × (table k ≡ t)
  unfolding remove
  remove_stored chip t r none off s n h = absurd (n refl)
  remove_stored chip t r (some dw) off s n h =
      let done = subst (λ (o : Option (Dw V)). IsReverted chip t (record r { dw = o })) s h in
      let isr = routine ops chip t dw.wr_ch_cnt dw.rd_ch_cnt in
      let t' : Table = record t { registered = true } in
      let freed : table (irq_free ops chip dw.nr_irqs r.kernel) ≡ t' =
        irq_free-table ops chip t' isr dw.nr_irqs r.kernel
          (done.1.1 ∙ ap (λ n. holding chip isr n t') (sym done.1.0)) in
      (refl, table-unregister _ ∙ rw freed (ap (λ b. record t { registered = b }) (sym off)))

  -- Where the driver's device is not registered yet: removing the core after a probe of it that
  -- stored `chip->dw` succeeds and leaves the kernel's table of requests and devices as it was
  -- before the probe.
  pub remove-probe :
      (has_dev has_ops : Bool) (chip : Chip) (h : H) (k : K)
      → (table k).registered ≡ false
      → (probe ops v0 hdma vc config has_dev has_ops (some chip) h k).dw ≢ none
      → let r = probe ops v0 hdma vc config has_dev has_ops (some chip) h k in
        let (e, (_, k')) = remove ops v0 hdma vc config chip r.dw r.hw r.kernel in
        (e ≡ success) × (table k' ≡ table k)
  remove-probe has_dev has_ops chip h k off stored =
      let r = probe ops v0 hdma vc config has_dev has_ops (some chip) h k in
      remove_stored chip (table k) r r.dw off refl stored
        (probe-IsReverted has_dev has_ops chip h k)
