-- ===== src/Edma/Setup/Vectors.antt =====
-- akida-dw-edma/dw-edma-core.c: how the interrupt vectors are shared out among the channels.
use native.Mathlib.Nat.{mod-lt}
use akida_dw_edma.Base.{
  ℕ, zero, suc, ◌+◌, ◌<◌, ◌≤◌, not, ◌&&◌, ◌==◌, ltb, if◌then◌else◌, ◌≡◌, ◌≢◌, refl, ◌⊎◌, inl, inr,
  arith, if-elim, Bool-cases,
}
use akida_dw_edma.Edma.{Dir, write, read, is_write}
use akida_dw_edma.Edma.Setup.{
  IrqAlloc, dec_wr_alloc, dec_rd_alloc, distribute, irq_alloc, nr_irqs_of, irq_pos,
}

-- The vectors are neither lost nor given twice, and no direction gets more of them than it has
-- channels.
abbrev pub IsShared : ℕ → ℕ → ℕ → IrqAlloc → Type 0
IsShared nr_irqs wr_cnt rd_cnt a =
    (a.wr + a.rd + a.left ≡ nr_irqs) × ((a.wr ≤ wr_cnt) × (a.rd ≤ rd_cnt))

-- There is no vector left, or every channel has its own.
abbrev pub IsSpent : ℕ → ℕ → IrqAlloc → Type 0
IsSpent wr_cnt rd_cnt a = (a.left ≡ 0) ⊎ (a.wr + a.rd ≡ wr_cnt + rd_cnt)

-- At least as many for either direction.
abbrev AtLeast : IrqAlloc → IrqAlloc → Type 0
AtLeast a b = (a.wr ≤ b.wr) × (a.rd ≤ b.rd)

module _ (nr_irqs wr_cnt rd_cnt : ℕ) where
  dec_wr_alloc-IsShared :
      (a : IrqAlloc)
      → IsShared nr_irqs wr_cnt rd_cnt a
      → IsShared nr_irqs wr_cnt rd_cnt (dec_wr_alloc wr_cnt a)
  unfolding dec_wr_alloc
  dec_wr_alloc-IsShared a (t, (w, r)) =
      if-elim (IsShared nr_irqs wr_cnt rd_cnt) (not (a.left == 0) && ltb a.wr wr_cnt)
        (λ e. (ground arith, (ground arith, r))) (λ e. (t, (w, r)))

  dec_rd_alloc-IsShared :
      (a : IrqAlloc)
      → IsShared nr_irqs wr_cnt rd_cnt a
      → IsShared nr_irqs wr_cnt rd_cnt (dec_rd_alloc rd_cnt a)
  unfolding dec_rd_alloc
  dec_rd_alloc-IsShared a (t, (w, r)) =
      if-elim (IsShared nr_irqs wr_cnt rd_cnt) (not (a.left == 0) && ltb a.rd rd_cnt)
        (λ e. (ground arith, (w, ground arith))) (λ e. (t, (w, r)))

  abbrev round : IrqAlloc → IrqAlloc
  round a = dec_rd_alloc rd_cnt (dec_wr_alloc wr_cnt a)

  -- A round gives a vector away, if there is one and a channel without one.
  round-left : (a : IrqAlloc) → 0 < a.left → a.wr + a.rd < wr_cnt + rd_cnt → (round a).left < a.left
  unfolding dec_wr_alloc dec_rd_alloc
  round-left a l h = ground arith

  round-AtLeast : (a : IrqAlloc) → AtLeast a (round a)
  unfolding dec_wr_alloc dec_rd_alloc
  round-AtLeast a = (ground arith, ground arith)

  round-positive :
      (a : IrqAlloc)
      → 2 ≤ a.left
      → (0 < wr_cnt → 0 < (round a).wr) × (0 < rd_cnt → 0 < (round a).rd)
  unfolding dec_wr_alloc dec_rd_alloc
  round-positive a h = ((λ p. ground arith), (λ p. ground arith))

  distribute-AtLeast : (fuel : ℕ) (a : IrqAlloc) → AtLeast a (distribute fuel wr_cnt rd_cnt a)
  unfolding distribute
  distribute-AtLeast zero a = (omega arith, omega arith)
  distribute-AtLeast (suc fuel) a =
      if-elim (AtLeast a) (not (a.left == 0) && ltb (a.wr + a.rd) (wr_cnt + rd_cnt))
        (λ e.
          let (w, r) = round-AtLeast a in
          let (w', r') = distribute-AtLeast fuel (round a) in (omega arith, omega arith))
        (λ e. (omega arith, omega arith))

  distribute-IsShared :
      (fuel : ℕ) (a : IrqAlloc)
      → a.left ≤ fuel
      → IsShared nr_irqs wr_cnt rd_cnt a
      → IsShared nr_irqs wr_cnt rd_cnt (distribute fuel wr_cnt rd_cnt a)
        × IsSpent wr_cnt rd_cnt (distribute fuel wr_cnt rd_cnt a)
  unfolding distribute
  distribute-IsShared zero a l h = (h, inl (omega arith))
  distribute-IsShared (suc fuel) a l h =
      if-elim (λ (b : IrqAlloc). IsShared nr_irqs wr_cnt rd_cnt b × IsSpent wr_cnt rd_cnt b)
        (not (a.left == 0) && ltb (a.wr + a.rd) (wr_cnt + rd_cnt))
        (λ e.
          let less : (round a).left < a.left = round-left a (ground arith) (ground arith) in
          distribute-IsShared fuel (round a) (omega (arith, less, l))
            (dec_rd_alloc-IsShared (dec_wr_alloc wr_cnt a) (dec_wr_alloc-IsShared a h)))
        (λ e. (
          h,
          (elim (Bool-cases (a.left == 0)) [
            | inl z ↦ inl (ground arith)
            | inr z ↦ inr (ground (arith, e, z, h.1.0, h.1.1))
          ]),
        ))

  abbrev start : IrqAlloc
  start = record { left = nr_irqs; wr = 0; rd = 0 }

  -- Where the chip has not just one vector, none is lost or given twice, no direction gets more of
  -- them than it has channels, and the loop ends, with fuel for each vector, because there is none
  -- left or because every channel has its own.
  pub irq_alloc-IsShared :
      nr_irqs ≢ 1
      → IsShared nr_irqs wr_cnt rd_cnt (irq_alloc nr_irqs wr_cnt rd_cnt)
        × IsSpent wr_cnt rd_cnt (irq_alloc nr_irqs wr_cnt rd_cnt)
  unfolding irq_alloc
  irq_alloc-IsShared h =
      if-elim (λ (b : IrqAlloc). IsShared nr_irqs wr_cnt rd_cnt b × IsSpent wr_cnt rd_cnt b)
        (nr_irqs == 1) (λ e. absurd (h (ground arith)))
        (λ e.
          distribute-IsShared nr_irqs start (omega arith) (omega arith, (omega arith, omega arith)))

  distribute-positive :
      (fuel : ℕ) (a : IrqAlloc)
      → 0 < fuel
      → 2 ≤ a.left
      → a.wr ≡ 0
      → a.rd ≡ 0
      → (0 < wr_cnt → 0 < (distribute fuel wr_cnt rd_cnt a).wr)
        × (0 < rd_cnt → 0 < (distribute fuel wr_cnt rd_cnt a).rd)
  unfolding distribute
  distribute-positive zero a f l w r = absurd (omega arith)
  distribute-positive (suc fuel) a f l w r =
      if-elim (λ (b : IrqAlloc). (0 < wr_cnt → 0 < b.wr) × (0 < rd_cnt → 0 < b.rd))
        (not (a.left == 0) && ltb (a.wr + a.rd) (wr_cnt + rd_cnt))
        (λ e.
          let (p, q) = round-positive a l in
          let (w', r') = distribute-AtLeast fuel (round a) in
          ((λ h. omega (arith, p h, w')), (λ h. omega (arith, q h, r'))))
        (λ e. ((λ h. ground arith), (λ h. ground arith)))

  pub irq_alloc-positive :
      2 ≤ nr_irqs
      → (0 < wr_cnt → 0 < (irq_alloc nr_irqs wr_cnt rd_cnt).wr)
        × (0 < rd_cnt → 0 < (irq_alloc nr_irqs wr_cnt rd_cnt).rd)
  unfolding irq_alloc
  irq_alloc-positive h =
      if-elim (λ (b : IrqAlloc). (0 < wr_cnt → 0 < b.wr) × (0 < rd_cnt → 0 < b.rd)) (nr_irqs == 1)
        (λ e. ((λ k. ground arith), (λ k. ground arith)))
        (λ e. distribute-positive nr_irqs start (omega arith) (omega arith) refl refl)

  abbrev alloc : IrqAlloc
  alloc = irq_alloc nr_irqs wr_cnt rd_cnt

  -- Where the chip has a vector, the vector of every channel is one of those that are requested,
  -- which `dw->nr_irqs` counts, and the chip has that many.
  pub irq_pos-lt :
      (dir : Dir) (id : ℕ)
      → 0 < nr_irqs
      → id < (if is_write dir then wr_cnt else rd_cnt)
      → (irq_pos (nr_irqs_of nr_irqs alloc) alloc dir id < nr_irqs_of nr_irqs alloc)
        × (nr_irqs_of nr_irqs alloc ≤ nr_irqs)
  unfolding irq_pos nr_irqs_of
  irq_pos-lt write id h k = elim (Bool-cases (nr_irqs == 1)) [
    | inl e ↦ rw e (omega arith, omega arith)
    | inr e ↦
        let many : nr_irqs ≢ 1 = λ x. ground arith in
        let two : 2 ≤ nr_irqs = omega (arith, h, many) in
        let total = (irq_alloc-IsShared many).0.0 in
        let some_vector = (irq_alloc-positive two).0 (omega (arith, k)) in
        (rw e (ground (arith, mod-lt id some_vector)), ground (arith, e, total))
  ]
  irq_pos-lt read id h k = elim (Bool-cases (nr_irqs == 1)) [
    | inl e ↦ rw e (omega arith, omega arith)
    | inr e ↦
        let many : nr_irqs ≢ 1 = λ x. ground arith in
        let two : 2 ≤ nr_irqs = omega (arith, h, many) in
        let total = (irq_alloc-IsShared many).0.0 in
        let some_vector = (irq_alloc-positive two).1 (omega (arith, k)) in
        (rw e (ground (arith, mod-lt id some_vector)), ground (arith, e, total))
  ]
