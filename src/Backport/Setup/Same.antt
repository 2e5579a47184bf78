-- ===== src/Backport/Setup/Same.antt =====
-- kernel/5.4/akida-dw-edma/dw-edma-core.c: the two set-ups direction by direction, and the one over
-- all channels of akida-dw-edma/dw-edma-core.c, are the same.
use akida_dw_edma.Base.{
  ℕ, zero, suc, ◌+◌, ◌%◌, ◌<◌, ◌≤◌, Bool, true, not, ◌||◌, ◌==◌, if◌then◌else◌, List, ◌∷◌, ◌++◌,
  get_or, set, ◌≡◌, refl, sym, ap, ◌∙◌, arith, Bool-cases, inl, inr,
}
use akida_dw_edma.Edma.{Dir, write, read, Chip, Chan, CoreOps, SlaveConfig}
use akida_dw_edma.Edma.Setup.{
  IrqAlloc, Irq, zero_irq, irq_alloc, nr_irqs_of, irq_pos, dir_of, id_of, add_channel, setup_chan,
  setup_from,
}
use akida_dw_edma.Edma.Setup.Masks.{cnt_of}
use akida_dw_edma.Edma.Setup.Vectors.{irq_alloc-positive}
use akida_dw_edma.Backport.Setup.{
  alloc_of, off_alloc_of, setup_dir_chan, setup_dir_from, setup_both,
}

-- The loop over the direction's channels starts.
abbrev HasVector : ℕ → IrqAlloc → Dir → Type 0
HasVector nr_irqs a dir = (not (alloc_of a dir == 0) || nr_irqs == 1) ≡ true

irq_alloc-HasVector :
    (wr_cnt rd_cnt chip_irqs : ℕ) (dir : Dir)
    → 0 < chip_irqs
    → 0 < cnt_of wr_cnt rd_cnt dir
    → let a = irq_alloc chip_irqs wr_cnt rd_cnt in HasVector (nr_irqs_of chip_irqs a) a dir
unfolding nr_irqs_of
irq_alloc-HasVector wr_cnt rd_cnt chip_irqs dir h k = elim (Bool-cases (chip_irqs == 1)) [
  | inl e ↦ rw e (or_true _)
  | inr e ↦ let two : 2 ≤ chip_irqs = ground (arith, e, h) in by_dir dir two k
]
  where
    or_true : (x : Bool) → (x || true) ≡ true
    or_true x = ground arith

    by_dir :
        (dir : Dir)
        → 2 ≤ chip_irqs
        → 0 < cnt_of wr_cnt rd_cnt dir
        → let a = irq_alloc chip_irqs wr_cnt rd_cnt in
          (not (alloc_of a dir == 0) || nr_irqs_of chip_irqs a == 1) ≡ true
    by_dir write two k = ground (arith, (irq_alloc-positive chip_irqs wr_cnt rd_cnt two).0 k)
    by_dir read two k = ground (arith, (irq_alloc-positive chip_irqs wr_cnt rd_cnt two).1 k)

module _ {V H : Type 0} (core : CoreOps H) (chip : Chip) (wr_cnt nr_irqs : ℕ) (a : IrqAlloc)
    (vc : V) (config : SlaveConfig) where
  irq_pos-dir :
      (dir : Dir) (j : ℕ)
      → irq_pos nr_irqs a dir j
        ≡ (if nr_irqs == 1 then 0 else off_alloc_of a dir + j % alloc_of a dir)
  unfolding irq_pos
  irq_pos-dir write j = ap (λ (x : ℕ). if nr_irqs == 1 then 0 else x) (omega arith)
  irq_pos-dir read j = refl

  abbrev from : ℕ → ℕ → List Irq → H → List (Chan V) × (List Irq × H)
  from n i irqs h = setup_from core chip wr_cnt nr_irqs a vc config n i irqs h

  -- The loop over the first `m` of `s` channels, and then over the other `n`.
  setup_from-append :
      (m n s i e : ℕ) (irqs : List Irq) (h : H)
      → m + n ≡ s
      → i + m ≡ e
      → from s i irqs h ≡ (
          let (chs, (irqs₁, h₁)) = from m i irqs h in
          let (chs', later) = from n e irqs₁ h₁ in (chs ++ chs', later))
  unfolding setup_from
  setup_from-append zero n s i e irqs h p q =
      let all : s ≡ n = omega arith in let start : e ≡ i = omega arith in rw (all, start) refl
  setup_from-append (suc m) n zero i e irqs h p q = absurd (omega arith)
  setup_from-append (suc m) n (suc s) i e irqs h p q =
      let dir = dir_of wr_cnt i in
      let id = id_of wr_cnt i in
      let pos = irq_pos nr_irqs a dir id in
      let irq = get_or irqs pos zero_irq in
      ap
        (λ (r : List (Chan V) × (List Irq × H)).
          (setup_chan core chip wr_cnt nr_irqs a vc config irq i ∷ r.0, r.1))
        (setup_from-append m n s (suc i) e (set irqs pos (add_channel dir id irq))
          (core.ch_config dir id irq.msi h) (omega arith) (omega arith))

  -- A direction's own loop, from its channel `j` on, which stands at the place `i`.
  setup_dir_from-eq :
      (dir : Dir) (n j i : ℕ) (irqs : List Irq) (h : H)
      → (0 < n → HasVector nr_irqs a dir)
      → ((k : ℕ) → k < n → (dir_of wr_cnt (i + k) ≡ dir) × (id_of wr_cnt (i + k) ≡ j + k))
      → setup_dir_from core chip nr_irqs a vc config dir n j irqs h ≡ from n i irqs h
  unfolding setup_from setup_dir_from setup_chan setup_dir_chan
  setup_dir_from-eq dir zero j i irqs h v at = refl
  setup_dir_from-eq dir (suc n) j i irqs h v at =
      let d : dir_of wr_cnt i ≡ dir = ap (dir_of wr_cnt) (omega arith) ∙ (at 0 (omega arith)).0 in
      let p : id_of wr_cnt i ≡ j =
        ap (id_of wr_cnt) (omega arith) ∙ (at 0 (omega arith)).1 ∙ omega arith in
      let place : irq_pos nr_irqs a dir j
          ≡ (if nr_irqs == 1 then 0 else off_alloc_of a dir + j % alloc_of a dir) =
        irq_pos-dir dir j in
      let pos = if nr_irqs == 1 then 0 else off_alloc_of a dir + j % alloc_of a dir in
      let irq = get_or irqs pos zero_irq in
      rw (v (omega arith), d, p, place)
        (ap
          (λ (r : List (Chan V) × (List Irq × H)).
            (setup_dir_chan core chip nr_irqs a vc config irq dir j ∷ r.0, r.1))
          (setup_dir_from-eq dir n (suc j) (suc i) (set irqs pos (add_channel dir j irq))
            (core.ch_config dir j irq.msi h) (λ _. v (omega arith))
            (λ k lt.
              let (d', p') = at (suc k) (omega arith) in
              (
                ap (dir_of wr_cnt) (omega arith) ∙ d',
                ap (id_of wr_cnt) (omega arith) ∙ p' ∙ omega arith,
              ))))

  setup_write-eq :
      (irqs : List Irq) (h : H)
      → (0 < wr_cnt → HasVector nr_irqs a write)
      → setup_dir_from core chip nr_irqs a vc config write wr_cnt 0 irqs h ≡ from wr_cnt 0 irqs h
  setup_write-eq irqs h v =
      setup_dir_from-eq write wr_cnt 0 0 irqs h v (λ k lt. (ground (arith, lt), ground (arith, lt)))

  setup_read-eq :
      (rd_cnt : ℕ) (irqs : List Irq) (h : H)
      → (0 < rd_cnt → HasVector nr_irqs a read)
      → setup_dir_from core chip nr_irqs a vc config read rd_cnt 0 irqs h
        ≡ from rd_cnt wr_cnt irqs h
  setup_read-eq rd_cnt irqs h v =
      setup_dir_from-eq read rd_cnt 0 wr_cnt irqs h v (λ k lt. (ground arith, ground arith))

  setup_both-eq :
      (rd_cnt : ℕ) (irqs : List Irq) (h : H)
      → (0 < wr_cnt → HasVector nr_irqs a write)
      → (0 < rd_cnt → HasVector nr_irqs a read)
      → setup_both core chip nr_irqs a vc config wr_cnt rd_cnt irqs h
        ≡ from (wr_cnt + rd_cnt) 0 irqs h
  unfolding setup_both
  setup_both-eq rd_cnt irqs h v w = rw (setup_write-eq irqs h v) (
      rw (setup_read-eq rd_cnt (from wr_cnt 0 irqs h).1.0 (from wr_cnt 0 irqs h).1.1 w) (
        sym (setup_from-append wr_cnt rd_cnt (wr_cnt + rd_cnt) 0 wr_cnt irqs h refl (omega arith))))

module _ {V H : Type 0} (core : CoreOps H) (chip : Chip) (wr_cnt rd_cnt chip_irqs : ℕ) where
  -- On a chip that has interrupt vectors, the two calls of `dw_edma_channel_setup` for Linux 5.4,
  -- for the write and for the read channels, leave the channels, the vectors and the hardware as
  -- the one call of the current core does.
  pub setup_both-setup_from :
      (vc : V) (config : SlaveConfig) (irqs : List Irq) (h : H)
      → 0 < chip_irqs
      → let a = irq_alloc chip_irqs wr_cnt rd_cnt in
        let nr = nr_irqs_of chip_irqs a in
        setup_both core chip nr a vc config wr_cnt rd_cnt irqs h
        ≡ setup_from core chip wr_cnt nr a vc config (wr_cnt + rd_cnt) 0 irqs h
  setup_both-setup_from vc config irqs h some_irq =
      let a = irq_alloc chip_irqs wr_cnt rd_cnt in
      setup_both-eq core chip wr_cnt (nr_irqs_of chip_irqs a) a vc config rd_cnt irqs h
        (irq_alloc-HasVector wr_cnt rd_cnt chip_irqs write some_irq)
        (irq_alloc-HasVector wr_cnt rd_cnt chip_irqs read some_irq)
