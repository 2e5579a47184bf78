-- ===== src/Edma/Setup/Masks.antt =====
-- akida-dw-edma/dw-edma-core.c: the channel masks of the interrupt vectors after
-- `dw_edma_channel_setup`.
use akida_dw_edma.Base.{
  ℕ, zero, suc, ◌+◌, ◌<◌, List, [], ◌∷◌, Bool, true, false, ◌&&◌, ◌||◌, ◌==◌, ltb, leb,
  if◌then◌else◌, ◌≡◌, refl, ◌∙◌, arith, get_or, set, length, length-set, All, ap, inl, inr,
  Bool-cases,
}
use akida_dw_edma.Base.Bits.{bit, test_bit, test_bit-bit, test_bit-bit_or, test_bit-zero}
use akida_dw_edma.Edma.{Dir, write, read, Chip, CoreOps, SlaveConfig, is_write}
use akida_dw_edma.Edma.Setup.Vectors.{irq_pos-lt}
use akida_dw_edma.Edma.Setup.{
  irq_alloc, nr_irqs_of, IrqAlloc, Irq, zero_irq, irq_pos, dir_of, id_of, add_channel, setup_from,
}

-- Whether the vector serves channel `b` of the direction.
abbrev pub has : Dir → Irq → ℕ → Bool
has write q b = test_bit b q.wr_mask
has read q b = test_bit b q.rd_mask

abbrev pub same_dir : Dir → Dir → Bool
same_dir write write = true
same_dir write read = false
same_dir read write = false
same_dir read read = true

has-add_channel :
    (d dir : Dir) (id b : ℕ) (q : Irq)
    → has d (add_channel dir id q) b ≡ (has d q b || (same_dir d dir && b == id))
unfolding add_channel
has-add_channel write write id b q =
    ground (arith, test_bit-bit_or b q.wr_mask (bit id), test_bit-bit b id)
has-add_channel write read id b q = ground arith
has-add_channel read write id b q = ground arith
has-add_channel read read id b q =
    ground (arith, test_bit-bit_or b q.rd_mask (bit id), test_bit-bit b id)

get_or-set {ℓ} :
    {A : Type ℓ} (xs : List A) (i k : ℕ) (v d : A)
    → i < length xs
    → get_or (set xs i v) k d ≡ (if k == i then v else get_or xs k d)
get_or-set [] i k v d h = absurd (omega arith)
get_or-set (x ∷ xs) zero zero v d h = refl
get_or-set (x ∷ xs) zero (suc k) v d h = ground arith
get_or-set (x ∷ xs) (suc i) zero v d h = ground arith
get_or-set (x ∷ xs) (suc i) (suc k) v d h = get_or-set xs i k v d (omega arith) ∙ ground arith

same_dir_eq : (d e : Dir) → same_dir d e ≡ true → d ≡ e
same_dir_eq write write h = refl
same_dir_eq write read h = cc h
same_dir_eq read write h = cc h
same_dir_eq read read h = refl

-- Whether channel `b` of the direction stands among the `n` channels from place `i` on.
abbrev pub within : ℕ → Dir → ℕ → ℕ → ℕ → Bool
within wr_cnt write i n b = ltb b wr_cnt && (leb i b && ltb b (i + n))
within wr_cnt read i n b = leb i (wr_cnt + b) && ltb (wr_cnt + b) (i + n)

module _ (wr_cnt nr_irqs : ℕ) (a : IrqAlloc) where
  -- The vectors after channel `id` of a direction is marked in its own.
  abbrev pub mark_at : Dir → ℕ → List Irq → List Irq
  mark_at dir id irqs =
      let pos = irq_pos nr_irqs a dir id in
      set irqs pos (add_channel dir id (get_or irqs pos zero_irq))

  abbrev pub mark : ℕ → List Irq → List Irq
  mark i irqs = mark_at (dir_of wr_cnt i) (id_of wr_cnt i) irqs

  abbrev pub mark_from : ℕ → ℕ → List Irq → List Irq
  mark_from zero i irqs = irqs
  mark_from (suc n) i irqs = mark_from n (suc i) (mark i irqs)

  has-mark_at :
      (d dir : Dir) (id k b : ℕ) (irqs : List Irq)
      → irq_pos nr_irqs a dir id < length irqs
      → has d (get_or (mark_at dir id irqs) k zero_irq) b ≡ (
          has d (get_or irqs k zero_irq) b
          || ((same_dir d dir && b == id) && k == irq_pos nr_irqs a dir id))
  has-mark_at d dir id k b irqs h =
      let pos = irq_pos nr_irqs a dir id in
      let v = add_channel dir id (get_or irqs pos zero_irq) in
      ap (λ (q : Irq). has d q b) (get_or-set irqs pos k v zero_irq h)
      ∙ elim (Bool-cases (k == pos)) [
        | inl e ↦
            let at : k ≡ pos = ground arith in
            rw (e, at) (has-add_channel d dir id b (get_or irqs pos zero_irq) ∙ ground arith)
        | inr e ↦ rw e (ground arith)
      ]

  same-within :
      (d : Dir) (i b : ℕ)
      → (same_dir d (dir_of wr_cnt i) && b == id_of wr_cnt i) ≡ within wr_cnt d i 1 b
  same-within write i b = elim (Bool-cases (ltb i wr_cnt)) [
    | inl e ↦ rw e (ground arith)
    | inr e ↦ rw e (ground arith)
  ]
  same-within read i b = elim (Bool-cases (ltb i wr_cnt)) [
    | inl e ↦ rw e (ground arith)
    | inr e ↦ rw e (ground arith)
  ]

  own_pos :
      (d dir : Dir) (id k b : ℕ)
      → ((same_dir d dir && b == id) && k == irq_pos nr_irqs a dir id)
        ≡ ((same_dir d dir && b == id) && k == irq_pos nr_irqs a d b)
  own_pos d dir id k b = elim (Bool-cases (same_dir d dir && b == id)) [
    | inl e ↦
        let same : d ≡ dir = same_dir_eq d dir (ground (arith, e)) in
        let place : b ≡ id = ground (arith, e) in rw (e, same, place) refl
    | inr e ↦ rw e refl
  ]

  within-suc :
      (d : Dir) (i n b : ℕ)
      → within wr_cnt d i (suc n) b ≡ (within wr_cnt d i 1 b || within wr_cnt d (suc i) n b)
  within-suc write i n b = ground arith
  within-suc read i n b = ground arith

  has-mark :
      (d : Dir) (i k b : ℕ) (irqs : List Irq)
      → irq_pos nr_irqs a (dir_of wr_cnt i) (id_of wr_cnt i) < length irqs
      → has d (get_or (mark i irqs) k zero_irq) b ≡ (
          has d (get_or irqs k zero_irq) b || (within wr_cnt d i 1 b && k == irq_pos nr_irqs a d b))
  has-mark d i k b irqs h =
      has-mark_at d (dir_of wr_cnt i) (id_of wr_cnt i) k b irqs h
      ∙ ap (λ x. has d (get_or irqs k zero_irq) b || x)
          (own_pos d (dir_of wr_cnt i) (id_of wr_cnt i) k b
            ∙ ap (λ x. x && k == irq_pos nr_irqs a d b) (same-within d i b))

  has-mark_from :
      (d : Dir) (n i k b : ℕ) (irqs : List Irq)
      → ((j : ℕ) → j < i + n → irq_pos nr_irqs a (dir_of wr_cnt j) (id_of wr_cnt j) < length irqs)
      → has d (get_or (mark_from n i irqs) k zero_irq) b ≡ (
          has d (get_or irqs k zero_irq) b || (within wr_cnt d i n b && k == irq_pos nr_irqs a d b))
  has-mark_from write zero i k b irqs fits = ground arith
  has-mark_from read zero i k b irqs fits = ground arith
  has-mark_from d (suc n) i k b irqs fits =
      has-mark_from d n (suc i) k b (mark i irqs) (λ j h.
        rw
          (length-set irqs (irq_pos nr_irqs a (dir_of wr_cnt i) (id_of wr_cnt i)) (
            add_channel (dir_of wr_cnt i) (id_of wr_cnt i)
              (get_or irqs (irq_pos nr_irqs a (dir_of wr_cnt i) (id_of wr_cnt i)) zero_irq)))
          (fits j (omega arith)))
      ∙ ground (arith, has-mark d i k b irqs (fits i (omega arith)), within-suc d i n b)

module _ {V H : Type 0} (core : CoreOps H) (chip : Chip) (wr_cnt nr_irqs : ℕ) (a : IrqAlloc) where
  setup_from-mark_from :
      (vc : V) (config : SlaveConfig) (n i : ℕ) (irqs : List Irq) (h : H)
      → (setup_from core chip wr_cnt nr_irqs a vc config n i irqs h).1.0
        ≡ mark_from wr_cnt nr_irqs a n i irqs
  unfolding setup_from
  setup_from-mark_from vc config zero i irqs h = refl
  setup_from-mark_from vc config (suc n) i irqs h =
      setup_from-mark_from vc config n (suc i) (mark wr_cnt nr_irqs a i irqs) (
        core.ch_config (dir_of wr_cnt i) (id_of wr_cnt i)
          (get_or irqs (irq_pos nr_irqs a (dir_of wr_cnt i) (id_of wr_cnt i)) zero_irq).msi h)

-- The number of channels of a direction.
abbrev pub cnt_of : ℕ → ℕ → Dir → ℕ
cnt_of wr_cnt rd_cnt dir = if is_write dir then wr_cnt else rd_cnt

module _ (wr_cnt rd_cnt : ℕ) where
  place_in_range :
      (j : ℕ) → j < wr_cnt + rd_cnt → id_of wr_cnt j < cnt_of wr_cnt rd_cnt (dir_of wr_cnt j)
  place_in_range j h = elim (Bool-cases (ltb j wr_cnt)) [
    | inl e ↦ rw e (ground (arith, e))
    | inr e ↦ rw e (ground (arith, e, h))
  ]

  all_within :
      (d : Dir) (b : ℕ) → within wr_cnt d 0 (wr_cnt + rd_cnt) b ≡ ltb b (cnt_of wr_cnt rd_cnt d)
  all_within write b = ground arith
  all_within read b = ground arith

module _ {V H : Type 0} (core : CoreOps H) (chip : Chip) (wr_cnt rd_cnt chip_irqs : ℕ) where
  -- `dw->irq` after the loop over all channels.
  abbrev pub irqs_after : V → SlaveConfig → List Irq → H → List Irq
  irqs_after vc config irqs h =
      let a = irq_alloc chip_irqs wr_cnt rd_cnt in
      (setup_from core chip wr_cnt (nr_irqs_of chip_irqs a) a vc config (wr_cnt + rd_cnt) 0 irqs
        h).1.0

  -- On a chip that has vectors, one entry for each and no mask set: after the set-up of the
  -- channels, the vector `k` serves the channel `b` of a direction exactly if there is such a
  -- channel and `k` is its vector.
  pub setup_from-masks :
      (vc : V) (config : SlaveConfig) (irqs : List Irq) (h : H)
      → 0 < chip_irqs
      → length irqs ≡ chip_irqs
      → ((d : Dir) (k b : ℕ) → has d (get_or irqs k zero_irq) b ≡ false)
      → (d : Dir) (k b : ℕ)
      → let a = irq_alloc chip_irqs wr_cnt rd_cnt in
        has d (get_or (irqs_after vc config irqs h) k zero_irq) b
        ≡ (ltb b (cnt_of wr_cnt rd_cnt d) && k == irq_pos (nr_irqs_of chip_irqs a) a d b)
  setup_from-masks vc config irqs h some_irq size clear d k b =
      let a = irq_alloc chip_irqs wr_cnt rd_cnt in
      let nr = nr_irqs_of chip_irqs a in
      let fits : (j : ℕ)
          → j < 0 + (wr_cnt + rd_cnt)
          → irq_pos nr a (dir_of wr_cnt j) (id_of wr_cnt j) < length irqs =
        λ j p.
          let (lo, hi) =
            irq_pos-lt chip_irqs wr_cnt rd_cnt (dir_of wr_cnt j) (id_of wr_cnt j) some_irq
              (place_in_range wr_cnt rd_cnt j (omega arith)) in
          omega (arith, lo, hi, size) in
      ap (λ (qs : List Irq). has d (get_or qs k zero_irq) b)
        (setup_from-mark_from core chip wr_cnt nr a vc config (wr_cnt + rd_cnt) 0 irqs h)
      ∙ has-mark_from wr_cnt nr a d (wr_cnt + rd_cnt) 0 k b irqs fits
      ∙ rw (clear d k b, all_within wr_cnt rd_cnt d b) refl

-- A vector that serves no channel, as `devm_kcalloc` leaves it.
abbrev pub IsUnmarked : Irq → Type 0
IsUnmarked q = (q.wr_mask ≡ 0) × (q.rd_mask ≡ 0)

has-IsUnmarked : (d : Dir) (q : Irq) (b : ℕ) → IsUnmarked q → has d q b ≡ false
has-IsUnmarked write q b h = ground (arith, h.0, test_bit-zero b)
has-IsUnmarked read q b h = ground (arith, h.1, test_bit-zero b)

pub All-IsUnmarked :
    (irqs : List Irq)
    → All IsUnmarked irqs
    → (d : Dir) (k b : ℕ) → has d (get_or irqs k zero_irq) b ≡ false
All-IsUnmarked [] h d k b = has-IsUnmarked d zero_irq b (refl, refl)
All-IsUnmarked (q ∷ qs) h d zero b = has-IsUnmarked d q b h.0
All-IsUnmarked (q ∷ qs) h d (suc k) b = All-IsUnmarked qs h.1 d k b
