-- ===== src/Edma/Probe/Served.antt =====
-- akida-dw-edma/dw-edma-core.c: after a probe of the core, every channel has an interrupt vector
-- whose routine and whose mask serve it.
use native.Mathlib.Nat.{mod-lt}
use akida_dw_edma.Base.{
  ℕ, zero, suc, ◌+◌, ◌<◌, ◌≤◌, ◌%◌, Bool, true, not, ◌&&◌, ◌||◌, ◌==◌, ltb, if◌then◌else◌, List, [],
  ◌∷◌, ◌++◌, Option, none, some, get_or, get_elem?, set, replicate, ◌≡◌, ◌⊎◌, refl, sym, ap, subst,
  ◌∙◌, arith, if-elim, Bool-cases, inl, inr, length, length-set, All, All-set,
}
use akida_dw_edma.Edma.{Dir, write, read, Chip, CoreOps, SlaveConfig, MsiMsg, Errno, is_success}
use akida_dw_edma.Edma.Setup.{Irq, zero_irq, irq_alloc, irq_pos, nr_irqs_of, ch_cnt_of}
use akida_dw_edma.Edma.Setup.Masks.{
  IsUnmarked, All-IsUnmarked, has, cnt_of, irqs_after, setup_from-masks,
}
use akida_dw_edma.Edma.Setup.Vectors.{irq_pos-lt, irq_alloc-positive}
use akida_dw_edma.Edma.Probe.{
  Isr, isr_common, isr_write, isr_read, Line, Table, KernelOps, dma_caps, Dw, vector_of, has_vector,
  cache_msi, request_from, request_common, irq_request, Probed, core_of, setup_and_register,
  probe_channels, probe,
}
use akida_dw_edma.Edma.Probe.Reverts.{lines_upto, routine, IsReverted, probe-IsReverted}

-- One vector for each of the chip's, none of which serves a channel yet.
abbrev pub IsFresh : Chip → List Irq → Type 0
IsFresh chip irqs = (0 < chip.nr_irqs) × ((length irqs ≡ chip.nr_irqs) × All IsUnmarked irqs)

All-get_or {ℓ κ} :
    {A : Type ℓ} (P : A → Type κ) (xs : List A) (i : ℕ) (d : A) → All P xs → P d → P (get_or xs i d)
All-get_or P [] i d h p = p
All-get_or P (x ∷ xs) zero d h p = h.0
All-get_or P (x ∷ xs) (suc i) d h p = All-get_or P xs i d h.1 p

All-replicate {ℓ κ} : {A : Type ℓ} (P : A → Type κ) (n : ℕ) (a : A) → P a → All P (replicate n a)
All-replicate P zero a p = tt
All-replicate P (suc n) a p = (p, All-replicate P n a p)

length-replicate {ℓ} : {A : Type ℓ} (n : ℕ) (a : A) → length (replicate n a) ≡ n
length-replicate zero a = refl
length-replicate (suc n) a = ap suc (length-replicate n a)

module _ {K : Type 0} (ops : KernelOps K) (chip : Chip) where
  open ops use {kcalloc, request_irq, msi_msg}

  cache_msi-IsFresh :
      (i : ℕ) (k : K) (irqs : List Irq)
      → IsFresh chip irqs
      → IsFresh chip (cache_msi ops chip i k irqs)
  unfolding cache_msi
  cache_msi-IsFresh i k irqs h = by_msg (msi_msg (vector_of chip i) k)
    where
      by_msg :
          (o : Option MsiMsg)
          → IsFresh chip (elim o [
            | none ↦ irqs
            | some m ↦ set irqs i (record (get_or irqs i zero_irq) { msi = m })
          ])
      by_msg none = h
      by_msg (some m) = (
        h.0,
        (
          length-set irqs i _ ∙ h.1.0,
          All-set IsUnmarked irqs i _ h.1.1
              (All-get_or IsUnmarked irqs i zero_irq h.1.1 (refl, refl)),
        ),
      )

  request_from-IsFresh :
      (wr n i : ℕ) (irqs : List Irq) (k : K)
      → IsFresh chip irqs
      → IsFresh chip (request_from ops chip wr n i irqs k).1.0
  unfolding request_from
  request_from-IsFresh wr zero i irqs k h = h
  request_from-IsFresh wr (suc n) i irqs k h =
      let r = request_irq (vector_of chip i) (if ltb i wr then isr_write else isr_read) i k in
      if-elim (λ (x : Errno × (List Irq × K)). IsFresh chip x.1.0) (is_success r.0)
        (λ _.
          request_from-IsFresh wr n (suc i) (cache_msi ops chip i r.1 irqs) r.1
            (cache_msi-IsFresh i r.1 irqs h))
        (λ _. h)

  pub irq_request-IsFresh :
      (wr_cnt rd_cnt : ℕ) (k : K)
      → is_success (irq_request ops chip wr_cnt rd_cnt k).0 ≡ true
      → IsFresh chip (irq_request ops chip wr_cnt rd_cnt k).1.0
  unfolding irq_request request_common
  irq_request-IsFresh wr_cnt rd_cnt k =
      let Done : Errno × (List Irq × K) → Type 0 =
        λ r. is_success r.0 ≡ true → IsFresh chip r.1.0 in
      let (ok, k₁) = kcalloc k in
      let a = irq_alloc chip.nr_irqs wr_cnt rd_cnt in
      let irqs = replicate chip.nr_irqs zero_irq in
      let r = request_irq (vector_of chip 0) isr_common 0 k₁ in
      if-elim Done (ltb chip.nr_irqs 1 || not (has_vector chip)) (λ _ e. cc e)
        (λ some_irq.
          let fresh : IsFresh chip irqs = (
            ground (arith, some_irq),
            (
              length-replicate chip.nr_irqs zero_irq,
              All-replicate IsUnmarked chip.nr_irqs zero_irq (refl, refl),
            ),
          ) in
          if-elim Done (not ok) (λ _ e. cc e)
            (λ _.
              if-elim Done (chip.nr_irqs == 1)
                (λ _.
                  if-elim Done (is_success r.0) (λ _ _. cache_msi-IsFresh 0 r.1 irqs fresh)
                    (λ _ _. fresh))
                (λ _ _. request_from-IsFresh a.wr (a.wr + a.rd) 0 irqs k₁ fresh)))

-- Whether a request is among those that are held.
abbrev pub IsHeld : Line → List Line → Type 0
IsHeld l ls = (i : ℕ) × (get_elem? ls i ≡ some l)

-- Whether the routine serves channels of the direction.
abbrev pub Handles : Dir → Isr → Type 0
Handles write isr = (isr ≡ isr_common) ⊎ (isr ≡ isr_write)
Handles read isr = (isr ≡ isr_common) ⊎ (isr ≡ isr_read)

lines_upto-IsHeld :
    (chip : Chip) (isr : ℕ → Isr) (n j : ℕ) (ls : List Line)
    → j < n
    → IsHeld
        (record { irq = vector_of chip j; isr = isr j; place = j })
        (lines_upto chip isr n ++ ls)
lines_upto-IsHeld chip isr zero j ls h = absurd (omega arith)
lines_upto-IsHeld chip isr (suc n) j ls h = elim (Bool-cases (j == n)) [
  | inl e ↦ let same : j ≡ n = ground (arith, e) in (0, rw same refl)
  | inr e ↦
      let (i, found) = lines_upto-IsHeld chip isr n j ls (ground (arith, e, h)) in (suc i, found)
]

ltb-true : (a b : ℕ) → a < b → ltb a b ≡ true
ltb-true a b h = ground (arith, h)

true_and : (x y : Bool) → x ≡ true → (x && y) ≡ y
true_and x y e = rw e refl

write_routine :
    (wr_alloc i : ℕ) → i < wr_alloc → (if ltb i wr_alloc then isr_write else isr_read) ≡ isr_write
write_routine wr_alloc i h = ground (arith, h)

read_routine :
    (wr_alloc i : ℕ) → wr_alloc ≤ i → (if ltb i wr_alloc then isr_write else isr_read) ≡ isr_read
read_routine wr_alloc i h = ground (arith, h)

module _ {K : Type 0} (ops : KernelOps K) (chip : Chip) (t : Table) where
  routine-Handles :
      (wr_cnt rd_cnt : ℕ) (dir : Dir) (id : ℕ)
      → 0 < chip.nr_irqs
      → id < cnt_of wr_cnt rd_cnt dir
      → let a = irq_alloc chip.nr_irqs wr_cnt rd_cnt in
        Handles dir
          (routine ops chip t wr_cnt rd_cnt (irq_pos (nr_irqs_of chip.nr_irqs a) a dir id))
  unfolding irq_pos nr_irqs_of
  routine-Handles wr_cnt rd_cnt write id h k = elim (Bool-cases (chip.nr_irqs == 1)) [
    | inl e ↦ rw e (inl refl)
    | inr e ↦
        let a = irq_alloc chip.nr_irqs wr_cnt rd_cnt in
        let some_vector =
          (irq_alloc-positive chip.nr_irqs wr_cnt rd_cnt (ground (arith, e, h))).0
            (omega (arith, k)) in
        let pos : (if a.wr + a.rd == 1 then 0 else id % a.wr) < a.wr =
          ground (arith, some_vector, mod-lt id some_vector) in
        rw e (inr (write_routine _ _ pos))
  ]
  routine-Handles wr_cnt rd_cnt read id h k = elim (Bool-cases (chip.nr_irqs == 1)) [
    | inl e ↦ rw e (inl refl)
    | inr e ↦
        let a = irq_alloc chip.nr_irqs wr_cnt rd_cnt in
        let some_vector =
          (irq_alloc-positive chip.nr_irqs wr_cnt rd_cnt (ground (arith, e, h))).1
            (omega (arith, k)) in
        let pos : a.wr ≤ (if a.wr + a.rd == 1 then 0 else a.wr + id % a.rd) =
          ground (arith, some_vector) in
        rw e (inr (read_routine _ _ pos))
  ]

module _ {K V H : Type 0} (ops : KernelOps K) (v0 hdma : CoreOps H) (vc : V)
    (config : SlaveConfig) where
  open ops use {table, kcalloc, register}

  -- The vectors of `chip->dw` are fresh ones after the set-up of its channels.
  abbrev IsSetUp : Chip → Probed ops v0 hdma vc config → Type 0
  IsSetUp chip r = elim r.dw [
    | none ↦ Unit
    | some dw ↦
        (irqs : List Irq) × (h : H) × IsFresh chip irqs
        × (dw.irqs
            ≡ irqs_after (core_of ops v0 hdma vc config chip.mf) chip dw.wr_ch_cnt dw.rd_ch_cnt
                chip.nr_irqs vc config irqs h)
  ]

  probe_channels-IsSetUp :
      (chip : Chip) (wr_cnt rd_cnt : ℕ) (h : H) (k : K)
      → IsSetUp chip (probe_channels ops v0 hdma vc config chip wr_cnt rd_cnt h k)
  unfolding probe_channels setup_and_register
  probe_channels-IsSetUp chip wr_cnt rd_cnt h k =
      let (ok, k₁) = kcalloc k in
      let r = irq_request ops chip wr_cnt rd_cnt k₁ in
      if-elim (IsSetUp chip) (not ok) (λ _. tt)
        (λ _.
          if-elim (IsSetUp chip) (is_success r.0)
            (λ e.
              if-elim (IsSetUp chip) (is_success (register dma_caps r.1.1).0)
                (λ _. (r.1.0, _, irq_request-IsFresh ops chip wr_cnt rd_cnt k₁ e, refl)) (λ _. tt))
            (λ e. tt))

  probe-IsSetUp :
      (has_dev has_ops : Bool) (chip : Chip) (h : H) (k : K)
      → IsSetUp chip (probe ops v0 hdma vc config has_dev has_ops (some chip) h k)
  unfolding probe
  probe-IsSetUp has_dev has_ops chip h k =
      let core = core_of ops v0 hdma vc config chip.mf in
      let (ok, k₁) = kcalloc k in
      let (wr_hw, h₁) = core.ch_count write h in
      let (rd_hw, h₂) = core.ch_count read h₁ in
      let wr_cnt = ch_cnt_of chip.ll_wr_cnt wr_hw in
      let rd_cnt = ch_cnt_of chip.ll_rd_cnt rd_hw in
      if-elim (IsSetUp chip) (not (has_dev && has_ops)) (λ _. tt)
        (λ _.
          if-elim (IsSetUp chip) (not ok) (λ _. tt)
            (λ _.
              if-elim (IsSetUp chip) (wr_cnt == 0 && rd_cnt == 0) (λ _. tt)
                (λ _. probe_channels-IsSetUp chip wr_cnt rd_cnt h₂ k₁)))

  -- Exactly the vector at the place `pos` has the bit of the channel in its mask, and the driver
  -- holds a request of that interrupt with a routine for the channel's direction.
  abbrev pub IsServed : Chip → Dw V → K → Dir → ℕ → Type 0
  IsServed chip dw k dir id =
      (pos : ℕ) × ((p : ℕ) → has dir (get_or dw.irqs p zero_irq) id ≡ (p == pos))
      × (isr : Isr) × Handles dir isr
      × IsHeld (record { irq = vector_of chip pos; isr = isr; place = pos }) (table k).lines

  stored-IsServed :
      (chip : Chip) (t : Table) (r : Probed ops v0 hdma vc config) (o : Option (Dw V)) (dw : Dw V)
      (dir : Dir) (id : ℕ)
      → o ≡ some dw
      → IsReverted ops v0 hdma vc config chip t (record r { dw = o })
      → IsSetUp chip (record r { dw = o })
      → id < cnt_of dw.wr_ch_cnt dw.rd_ch_cnt dir
      → IsServed chip dw r.kernel dir id
  stored-IsServed chip t r o dw dir id e done set lt =
      let (_, (_, held)) =
        subst (λ (o : Option (Dw V)). IsReverted ops v0 hdma vc config chip t (record r { dw = o }))
          e done in
      let (irqs, h, fresh, masks) =
        subst (λ (o : Option (Dw V)). IsSetUp chip (record r { dw = o })) e set in
      let wr_cnt = dw.wr_ch_cnt in
      let rd_cnt = dw.rd_ch_cnt in
      let core = core_of ops v0 hdma vc config chip.mf in
      let a = irq_alloc chip.nr_irqs wr_cnt rd_cnt in
      let n = nr_irqs_of chip.nr_irqs a in
      let pos = irq_pos n a dir id in
      let isr = routine ops chip t wr_cnt rd_cnt in
      (
        pos,
        (λ p.
            ap (λ (x : List Irq). has dir (get_or x p zero_irq) id) masks
            ∙ setup_from-masks core chip wr_cnt rd_cnt chip.nr_irqs vc config irqs h fresh.0
                fresh.1.0 (All-IsUnmarked irqs fresh.1.1) dir p id
            ∙ true_and _ _ (ltb-true _ _ lt)),
        isr pos,
        routine-Handles ops chip t wr_cnt rd_cnt dir id fresh.0 lt,
        subst
            (λ (x : Table).
              IsHeld (record { irq = vector_of chip pos; isr = isr pos; place = pos }) x.lines)
            (sym held)
            (lines_upto-IsHeld chip isr n pos t.lines
              (irq_pos-lt chip.nr_irqs wr_cnt rd_cnt dir id fresh.0 lt).0),
      )

  -- After a probe of the core that stored `chip->dw`, every channel of either direction has an
  -- interrupt vector of its own or shared: exactly one of `dw->irq` has the channel's bit in the
  -- mask of its direction, and the driver holds a request of that interrupt whose routine handles
  -- that direction.
  pub probe-IsServed :
      (has_dev has_ops : Bool) (chip : Chip) (h : H) (k : K) (dw : Dw V) (dir : Dir) (id : ℕ)
      → (probe ops v0 hdma vc config has_dev has_ops (some chip) h k).dw ≡ some dw
      → id < cnt_of dw.wr_ch_cnt dw.rd_ch_cnt dir
      → IsServed chip dw (probe ops v0 hdma vc config has_dev has_ops (some chip) h k).kernel dir id
  probe-IsServed has_dev has_ops chip h k dw dir id stored lt =
      let r = probe ops v0 hdma vc config has_dev has_ops (some chip) h k in
      stored-IsServed chip (table k) r r.dw dw dir id stored
        (probe-IsReverted ops v0 hdma vc config has_dev has_ops chip h k)
        (probe-IsSetUp has_dev has_ops chip h k) lt
