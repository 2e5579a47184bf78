-- ===== src/Akida/File/Pieces.antt =====
-- akida-pcie-core.c: what it is that the loops of `akida_read` and `akida_write` move: the pieces, by
-- their places.
use akida_dw_edma.Base.{
  ℕ, zero, suc, ◌+◌, ◌-◌, ◌*◌, ◌<◌, ◌≤◌, true, false, ◌≡◌, ◌⊎◌, min, ap, ap₂, ◌∙◌, sym, arith,
}
use akida_dw_edma.Edma.{Errno, success, is_success}
use akida_dw_edma.Akida.File.{Moved}

-- The size of the `i`-th piece of `left` bytes.
abbrev pub piece_at : ℕ → ℕ → ℕ
piece_at left i = min 1024 (left - i * 1024)

module _ {S : Type 0} (round : ℕ → ℕ → S → Errno × S) where
  -- The state before the `i`-th piece, when those before it are moved in order, each at its place
  -- in the `left` bytes from `ppos` on; and what the round for it answers.
  abbrev pub state_at : ℕ → ℕ → S → ℕ → S
  state_at left ppos s zero = s
  state_at left ppos s (suc i) =
      (round (ppos + i * 1024) (piece_at left i) (state_at left ppos s i)).1

  abbrev pub answer_at : ℕ → ℕ → S → ℕ → Errno
  answer_at left ppos s i = (round (ppos + i * 1024) (piece_at left i) (state_at left ppos s i)).0

  -- The pieces that hold all bytes are moved, no more, and the position is behind them; or the round
  -- of one of these pieces failed, whose error and state are left, with the position before it.
  abbrev pub Ends : ℕ → ℕ → S → ℕ → Moved S → Type 0
  Ends left ppos s k m =
      ((m.err ≡ success)
        × (left ≤ k * 1024)
        × (k * 1024 < left + 1024)
        × (m.ppos ≡ ppos + left)
        × (m.state ≡ state_at left ppos s k))
      ⊎ ((is_success m.err ≡ false)
          × (k * 1024 < left)
          × (m.err ≡ answer_at left ppos s k)
          × (m.ppos ≡ ppos + k * 1024)
          × (m.state ≡ state_at left ppos s (suc k)))

  -- So many pieces are moved, all with success.
  abbrev pub MovedAll : ℕ → ℕ → S → Moved S → Type 0
  MovedAll left ppos s m =
      (k : ℕ) × ((i : ℕ) → i < k → is_success (answer_at left ppos s i) ≡ true)
      × Ends left ppos s k m

  -- Behind the first piece, the pieces are those of what is left.
  pub state_at-suc :
      (left ppos : ℕ) (s : S) (i : ℕ)
      → 1024 ≤ left
      → state_at (left - 1024) (ppos + 1024) (round ppos 1024 s).1 i ≡ state_at left ppos s (suc i)
  state_at-suc left ppos s zero h =
      let at_ppos : ppos ≡ ppos + 0 * 1024 = omega arith in
      let whole : 1024 ≡ piece_at left 0 = omega arith in ap₂ (λ p n. (round p n s).1) at_ppos whole
  state_at-suc left ppos s (suc i) h =
      let at_ppos : ppos + 1024 + i * 1024 ≡ ppos + suc i * 1024 = omega arith in
      let same : piece_at (left - 1024) i ≡ piece_at left (suc i) = omega arith in
      ap₂ (λ p n. (round p n (state_at (left - 1024) (ppos + 1024) (round ppos 1024 s).1 i)).1)
        at_ppos same
      ∙ ap (λ x. (round (ppos + suc i * 1024) (piece_at left (suc i)) x).1)
          (state_at-suc left ppos s i h)

  pub answer_at-suc :
      (left ppos : ℕ) (s : S) (i : ℕ)
      → 1024 ≤ left
      → answer_at (left - 1024) (ppos + 1024) (round ppos 1024 s).1 i
        ≡ answer_at left ppos s (suc i)
  answer_at-suc left ppos s i h =
      let at_ppos : ppos + 1024 + i * 1024 ≡ ppos + suc i * 1024 = omega arith in
      let same : piece_at (left - 1024) i ≡ piece_at left (suc i) = omega arith in
      ap₂ (λ p n. (round p n (state_at (left - 1024) (ppos + 1024) (round ppos 1024 s).1 i)).0)
        at_ppos same
      ∙ ap (λ x. (round (ppos + suc i * 1024) (piece_at left (suc i)) x).0)
          (state_at-suc left ppos s i h)

  pub first_answer :
      (left ppos n : ℕ) (s : S) → piece_at left 0 ≡ n → (round ppos n s).0 ≡ answer_at left ppos s 0
  first_answer left ppos n s e =
      let at_ppos : ppos ≡ ppos + 0 * 1024 = omega arith in
      ap₂ (λ p q. (round p q s).0) at_ppos (sym e)

  pub first_state :
      (left ppos n : ℕ) (s : S) → piece_at left 0 ≡ n → (round ppos n s).1 ≡ state_at left ppos s 1
  first_state left ppos n s e =
      let at_ppos : ppos ≡ ppos + 0 * 1024 = omega arith in
      ap₂ (λ p q. (round p q s).1) at_ppos (sym e)
