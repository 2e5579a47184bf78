-- ===== src/V0/Interrupt/Handled.antt =====
-- akida-dw-edma/dw-edma-v0-core.c: which channels `dw_edma_v0_core_handle_int` serves.
use Prim.Native.Nat.{bit_and}
use akida_dw_edma.Base.{
  true, ◌<◌, All, All-imp, if-elim, ℕ, zero, suc, ◌+◌, ◌/◌, ◌%◌, Bool, not, ◌&&◌, ◌||◌,
  if◌then◌else◌, List, [], ◌∷◌, arith, is_empty, ◌≡◌, refl, inl, inr, Bool-cases,
}
use akida_dw_edma.Base.Bits.{test_bit, test_bit-bit_and}
use akida_dw_edma.Mmio.{Bus}
use akida_dw_edma.Edma.{Dir, MapFormat}
use akida_dw_edma.V0.Interrupt.{
  Holds, IrqLine, total_of, off_of, mask_of, for_set_bits, clear_done_int, clear_abort_int,
  read_status, handle_int,
}

-- The channels among `n` from `pos` on whose interrupt is raised and belongs to the line.
abbrev pub raised : ℕ → ℕ → ℕ → ℕ → List ℕ
raised zero pos status mask = []
raised (suc n) pos status mask =
    let later = raised n (suc pos) status mask in
    if test_bit pos status && test_bit pos mask then pos ∷ later else later

-- A body run for each element, in the order of the list.
abbrev pub run_each : {W : Type 0} → (ℕ → W → W) → List ℕ → W → W
run_each body [] w = w
run_each body (p ∷ ps) w = run_each body ps (body p w)

-- A channel that the line may serve.
abbrev pub Serves : ℕ → ℕ → ℕ → Type 0
Serves total mask p = (p < total) × (test_bit p mask ≡ true)

raised-Serves : (n pos status mask : ℕ) → All (Serves (pos + n) mask) (raised n pos status mask)
raised-Serves zero pos status mask = tt
raised-Serves (suc n) pos status mask =
    let later : All (Serves (pos + suc n) mask) (raised n (suc pos) status mask) =
      All-imp (Serves (suc pos + n) mask) (Serves (pos + suc n) mask) _
        (λ p h. (omega (arith, h.0), h.1)) (raised-Serves n (suc pos) status mask) in
    if-elim (All (Serves (pos + suc n) mask)) (test_bit pos status && test_bit pos mask)
      (λ e. ((omega arith, ground arith), later)) (λ _. later)

run_each-keeps :
    {W : Type 0} (P : W → Type 0) (body : ℕ → W → W) (ps : List ℕ) (w : W)
    → All (λ p. (u : W) → P u → P (body p u)) ps
    → P w
    → P (run_each body ps w)
run_each-keeps P body [] w h x = x
run_each-keeps P body (p ∷ ps) w h x = run_each-keeps P body ps (body p w) h.1 (h.0 w x)

run_raised-keeps :
    {W : Type 0} (P : W → Type 0) (body : ℕ → W → W) (n status mask : ℕ) (w : W)
    → ((p : ℕ) (u : W) → Serves n mask p → P u → P (body p u))
    → P w
    → P (run_each body (raised n 0 status mask) w)
run_raised-keeps {W} P body n status mask w h x =
    run_each-keeps P body (raised n 0 status mask) w
      (All-imp (Serves (0 + n) mask) (λ p. (u : W) → P u → P (body p u)) (raised n 0 status mask)
        (λ p s u y. h p u (omega arith, s.1) y) (raised-Serves n 0 status mask))
      x

for_set_bits_lem :
    {W : Type 0} (n pos status mask : ℕ) (body : ℕ → W → W) (w : W)
    → for_set_bits n pos (bit_and status mask) body w
      ≡ (not (is_empty (raised n pos status mask)), run_each body (raised n pos status mask) w)
unfolding for_set_bits
for_set_bits_lem zero pos status mask body w = refl
for_set_bits_lem (suc n) pos status mask body w =
    elim (Bool-cases (test_bit pos status && test_bit pos mask)) [
      | inl e ↦ grind (
        arith,
        e,
        test_bit-bit_and pos status mask,
        for_set_bits_lem n (suc pos) status mask body (body pos w),
      )
      | inr e ↦ grind (
        arith,
        e,
        test_bit-bit_and pos status mask,
        for_set_bits_lem n (suc pos) status mask body w,
      )
    ]

module _ {H W : Type 0} (bus : Bus H) (base : ℕ) (local : Bool) (mf : MapFormat)
    (in_state : Holds H W) where
  -- The channels with a raised done bit, each after its bit is cleared; then, by a second read of
  -- the status, the aborted ones in the same way; and whether there was any.
  abbrev pub serve_raised : (ℕ → W → W) → (ℕ → W → W) → IrqLine → Dir → W → Bool × W
  serve_raised done abort line dir w =
      let (x, w₁) = read_status bus base local mf in_state dir w in
      let dones = raised (total_of line dir) 0 (x % 256) (mask_of line dir) in
      let w₂ : W =
        run_each
          (λ pos u.
            done (pos + off_of line dir) (clear_done_int bus base local mf in_state dir pos u))
          dones w₁ in
      let (y, w₃) = read_status bus base local mf in_state dir w₂ in
      let aborts = raised (total_of line dir) 0 (y / 65536 % 256) (mask_of line dir) in
      (
        not (is_empty dones) || not (is_empty aborts),
        run_each
            (λ pos u.
              abort (pos + off_of line dir) (clear_abort_int bus base local mf in_state dir pos u))
            aborts w₃,
      )

  -- The handler serves, lowest first, exactly the channels whose done bit is raised and that belong
  -- to the line, each after its bit is cleared; then, from a second read of the status, the aborted
  -- ones in the same way. It returns IRQ_HANDLED if and only if there was any.
  pub handle_int-raised :
      (done abort : ℕ → W → W) (line : IrqLine) (dir : Dir) (w : W)
      → handle_int bus base local mf in_state done abort line dir w
        ≡ serve_raised done abort line dir w
  unfolding handle_int
  handle_int-raised done abort line dir w = simp for_set_bits_lem

  -- What an access to the hardware keeps, and the handlers of all channels of the line, the
  -- interrupt keeps.
  pub handle_int-keeps :
      (P : W → Type 0) (done abort : ℕ → W → W) (line : IrqLine) (dir : Dir) (w : W)
      → ((h : H) (u : W) → P u → P (in_state.put_hw h u))
      → ((p : ℕ) (u : W)
          → Serves (total_of line dir) (mask_of line dir) p
          → P u
          → P (done (p + off_of line dir) u))
      → ((p : ℕ) (u : W)
          → Serves (total_of line dir) (mask_of line dir) p
          → P u
          → P (abort (p + off_of line dir) u))
      → P w
      → P (handle_int bus base local mf in_state done abort line dir w).1
  unfolding read_status clear_done_int clear_abort_int
  handle_int-keeps P done abort line dir w put on_done on_abort x =
      rw (handle_int-raised done abort line dir w) (
        run_raised-keeps P _ (total_of line dir) _ (mask_of line dir) _
          (λ p u s y. on_abort p _ s (put _ u y))
          (put _ _ (
            run_raised-keeps P _ (total_of line dir) _ (mask_of line dir) _
              (λ p u s y. on_done p _ s (put _ u y)) (put _ w x))))
