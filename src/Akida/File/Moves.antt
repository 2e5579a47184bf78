-- ===== src/Akida/File/Moves.antt =====
-- akida-pcie-core.c: how far the loops of `akida_read` and `akida_write` come, and which device
-- addresses they touch.
use akida_dw_edma.Base.{
  ℕ, zero, suc, ◌+◌, ◌-◌, ◌<◌, ◌≤◌, true, false, not, ◌==◌, u64, ◌≡◌, refl, ◌⊎◌, inl, inr, ap, ◌∙◌,
  sym, arith, if-elim, subst, ltb, Bool-cases,
}
use akida_dw_edma.Edma.{Errno, is_success}
use akida_dw_edma.Akida.File.Pieces.{
  piece_at, answer_at, Ends, MovedAll, state_at-suc, answer_at-suc, first_answer, first_state,
}
use akida_dw_edma.Akida.File.{Moved, move, is_allowed, FileOps, guarded, ram_addr, ram_size, piece}

piece-bounds :
    (left : ℕ) → 0 < left → ((0 < piece left) × (piece left ≤ left)) × (piece left ≤ 1024)
unfolding piece
piece-bounds left h = ((ground arith, ground arith), ground arith)

piece_at-piece : (left : ℕ) → piece_at left 0 ≡ piece left
unfolding piece
piece_at-piece left = ground arith

module _ {S : Type 0} (round : ℕ → ℕ → S → Errno × S) where
  -- A whole piece before the rest.
  Ends-whole :
      (left ppos k : ℕ) (s : S) (m : Moved S)
      → 1024 ≤ left
      → Ends round (left - 1024) (ppos + 1024) (round ppos 1024 s).1 k m
      → Ends round left ppos s (suc k) m
  Ends-whole left ppos k s m h (inl (ok, lo, hi, pos, st)) =
      inl
        (ok, omega arith, omega arith, omega (arith, pos), st ∙ state_at-suc round left ppos s k h)
  Ends-whole left ppos k s m h (inr (bad, lo, ans, pos, st)) = inr (
    bad,
    omega (arith, lo),
    ans ∙ answer_at-suc round left ppos s k h,
    omega (arith, pos),
    st ∙ state_at-suc round left ppos s (suc k) h,
  )

  MovedAll-whole :
      (left ppos : ℕ) (s : S) (m : Moved S)
      → is_success (round ppos 1024 s).0 ≡ true
      → 1024 ≤ left
      → MovedAll round (left - 1024) (ppos + 1024) (round ppos 1024 s).1 m
      → MovedAll round left ppos s m
  MovedAll-whole left ppos s m ok h (k, before, e) = (suc k, all, Ends-whole left ppos k s m h e)
    where
      all : (i : ℕ) → i < suc k → is_success (answer_at round left ppos s i) ≡ true
      all zero l = ap is_success (sym (first_answer round left ppos 1024 s (omega arith))) ∙ ok
      all (suc i) l =
          ap is_success (sym (answer_at-suc round left ppos s i h)) ∙ before i (omega arith)

  -- The last piece, which may be a whole one.
  MovedAll-last :
      (left ppos : ℕ) (s : S) (m : Moved S)
      → is_success (round ppos left s).0 ≡ true
      → 0 < left
      → left ≤ 1024
      → MovedAll round 0 (ppos + left) (round ppos left s).1 m
      → MovedAll round left ppos s m
  MovedAll-last left ppos s m ok p h (suc k, before, inl (e, lo, hi, pos, st)) =
      absurd (omega (arith, hi))
  MovedAll-last left ppos s m ok p h (k, before, inr (bad, lo, ans, pos, st)) =
      absurd (omega (arith, lo))
  MovedAll-last left ppos s m ok p h (zero, before, inl (e, lo, hi, pos, st)) = (
    1,
    all,
    inl (
      e,
      omega arith,
      omega arith,
      omega (arith, pos),
      st ∙ first_state round left ppos left s (omega arith),
    ),
  )
    where
      all : (i : ℕ) → i < 1 → is_success (answer_at round left ppos s i) ≡ true
      all zero l = ap is_success (sym (first_answer round left ppos left s (omega arith))) ∙ ok
      all (suc i) l = absurd (omega (arith, l))

  -- One more piece before the rest.
  MovedAll-step :
      (left ppos : ℕ) (s : S) (m : Moved S)
      → is_success (round ppos (piece left) s).0 ≡ true
      → 0 < left
      → MovedAll round (left - piece left) (ppos + piece left) (round ppos (piece left) s).1 m
      → MovedAll round left ppos s m
  unfolding piece
  MovedAll-step left ppos s m ok p h = elim (Bool-cases (ltb 1024 left)) [
    | inl big ↦ MovedAll-whole left ppos s m (rw big at ok) (ground (arith, big)) (rw big at h)
    | inr small ↦ MovedAll-last left ppos s m (rw small at ok) p (ground (arith, small)) (
        subst (λ n. MovedAll round n (ppos + left) (round ppos left s).1 m) (omega arith)
          (rw small at h))
  ]

  -- The first round fails.
  stopped :
      (left ppos : ℕ) (s : S)
      → 0 < left
      → is_success (round ppos (piece left) s).0 ≡ false
      → let (err, s₁) = round ppos (piece left) s in
        MovedAll round left ppos s (record { err = err; ppos = ppos; state = s₁ })
  stopped left ppos s p bad =
      let e : piece_at left 0 ≡ piece left = piece_at-piece left in
      (
        0,
        λ i l. absurd (omega (arith, l)),
        inr (
          bad,
          omega arith,
          first_answer round left ppos (piece left) s e,
          omega arith,
          first_state round left ppos (piece left) s e,
        ),
      )

  -- With fuel for each byte, and where the position does not wrap: the loop moves all bytes, in
  -- pieces of 1024 bytes and a shorter last one, each at its place and in order, and leaves the
  -- state of the last round with the position behind the bytes; or it stops at the first round that
  -- fails, with its error, its state, and the position before its piece.
  pub move-MovedAll :
      (fuel left ppos : ℕ) (s : S)
      → left ≤ fuel
      → ppos + left < 18446744073709551616
      → MovedAll round left ppos s (move round fuel left ppos s)
  unfolding move
  move-MovedAll zero left ppos s h b =
      (0, λ i l. absurd (omega (arith, l)), inl (refl, omega arith, omega arith, omega arith, refl))
  move-MovedAll (suc fuel) left ppos s h b =
      if-elim (MovedAll round left ppos s) (left == 0)
        (λ e. (
          0,
          λ i l. absurd (omega (arith, l)),
          inl (refl, ground arith, ground arith, ground arith, refl),
        ))
        (λ e.
          if-elim (MovedAll round left ppos s) (is_success (round ppos (piece left) s).0)
            (λ ok.
              let p : 0 < left = ground arith in
              let (lo, hi) = (piece-bounds left p).0 in
              let s₁ = (round ppos (piece left) s).1 in
              let m : Moved S = move round fuel (left - piece left) (u64 (ppos + piece left)) s₁ in
              MovedAll-step left ppos s m ok p (
                subst (λ (q : ℕ). MovedAll round (left - piece left) q s₁ m) (omega (arith, lo))
                  (move-MovedAll fuel (left - piece left) (u64 (ppos + piece left)) s₁
                    (omega (arith, lo)) (omega (arith, lo, hi)))))
            (λ bad. stopped left ppos s (ground arith) bad))

  -- What every round within the bytes keeps, the loop keeps.
  pub move-keeps :
      (P : S → Type 0) (low high : ℕ)
      → ((p n : ℕ) (s : S) → low ≤ p → p + n ≤ high → 0 < n → n ≤ 1024 → P s → P (round p n s).1)
      → (fuel left ppos : ℕ) (s : S) → low ≤ ppos
      → ppos + left ≤ high
      → high < 18446744073709551616
      → P s
      → P (move round fuel left ppos s).state
  unfolding move
  move-keeps P low high keep zero left ppos s l h b x = x
  move-keeps P low high keep (suc fuel) left ppos s l h b x =
      if-elim (λ (m : Moved S). P m.state) (left == 0) (λ e. x)
        (λ e.
          let p : 0 < left = ground arith in
          let (bounds, small) = piece-bounds left p in
          let y : P (round ppos (piece left) s).1 =
            keep ppos (piece left) s l (omega (arith, bounds.1)) bounds.0 small x in
          if-elim (λ (m : Moved S). P m.state) (is_success (round ppos (piece left) s).0)
            (λ ok.
              move-keeps P low high keep fuel (left - piece left) (u64 (ppos + piece left))
                (round ppos (piece left) s).1 (omega (arith, bounds.1)) (omega (arith, bounds.1)) b
                y)
            (λ bad. y))

-- `akida_is_allowed` lets through only ranges beside the reserved area, where the sum of the
-- address and the size does not wrap.
pub is_allowed-beside :
    (addr size : ℕ)
    → is_allowed addr size ≡ true
    → addr + size < 18446744073709551616
    → (addr + size < ram_addr) ⊎ (ram_addr + ram_size ≤ addr)
unfolding is_allowed
is_allowed-beside addr size h b = ground arith

-- A transfer within a range that is let through lies beside the reserved area.
abbrev pub Beside : ℕ → ℕ → Type 0
Beside p n = (p + n ≤ ram_addr) ⊎ (ram_addr + ram_size ≤ p)

Beside-within :
    (low high p n : ℕ)
    → (high < ram_addr) ⊎ (ram_addr + ram_size ≤ low)
    → low ≤ p
    → p + n ≤ high
    → Beside p n
Beside-within low high p n (inl a) l h = inl (omega arith)
Beside-within low high p n (inr a) l h = inr (omega arith)

module _ {S : Type 0} (f : FileOps S) where
  open f use {kmalloc, kfree, acquire, release}

  -- Whatever the kernel's calls keep, and the rounds of at most 1024 bytes beside the reserved area
  -- keep, a whole call keeps: no round reaches into that area. The end of the range is below 2 ^
  -- 64.
  pub guarded-keeps :
      (P : S → Type 0) (round : ℕ → ℕ → S → Errno × S)
      → ((s : S) → P s → P (kmalloc s).1)
      → ((s : S) → P s → P (kfree s))
      → ((s : S) → P s → P (acquire s).1)
      → ((s : S) → P s → P (release s))
      → ((p n : ℕ) (s : S) → Beside p n → 0 < n → n ≤ 1024 → P s → P (round p n s).1)
      → (sz ppos : ℕ) (s : S) → ppos + sz < 18446744073709551616
      → P s
      → P (guarded f round sz ppos s).state
  unfolding guarded
  guarded-keeps P round k₁ k₂ k₃ k₄ keep sz ppos s b x =
      if-elim (λ (m : Moved S). P m.state) (not (is_allowed ppos sz)) (λ no. x)
        (λ yes.
          if-elim (λ (m : Moved S). P m.state) (not (kmalloc s).0) (λ no. k₁ s x)
            (λ ok.
              if-elim (λ (m : Moved S). P m.state) (is_success (acquire (kmalloc s).1).0)
                (λ got. k₂ _ (
                  k₄ _ (
                    move-keeps round P ppos (ppos + sz)
                      (λ p n t l h. keep p n t (
                        Beside-within ppos (ppos + sz) p n
                          (is_allowed-beside ppos sz (ground (arith, yes)) b) l h))
                      sz sz ppos (acquire (kmalloc s).1).1 (omega arith) (omega arith) b
                      (k₃ _ (k₁ s x)))))
                (λ no. k₂ _ (k₃ _ (k₁ s x)))))
