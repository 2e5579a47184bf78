-- ===== src/Hdma/Interrupt.antt =====
-- akida-dw-edma/dw-hdma-v0-core.c: `dw_hdma_v0_core_handle_int`, over a state `W` that holds the
-- hardware; `done` and `abort` are the handlers of a channel, by its place in `dw->chan`.
pub mod Keeps
pub mod Traced
use akida_dw_edma.Base.{
  ℕ, zero, suc, ◌+◌, Bool, false, ◌||◌, if◌then◌else◌, List, [], ◌∷◌, ◌≡◌, refl, inl, inr,
  Bool-cases, arith,
}
use akida_dw_edma.Base.Bits.{test_bit}
use akida_dw_edma.Mmio.{Bus}
use akida_dw_edma.Edma.{Dir}
use akida_dw_edma.Hdma.Control.{int_stat, int_clear, stop_int, abort_int, set_ch, get_ch}
use akida_dw_edma.V0.Interrupt.{Holds, IrqLine, total_of, off_of, mask_of}

-- `for_each_set_bit` with a body that says whether it did something: `n` positions are left.
unfoldable pub for_each_bit : {W : Type 0} → ℕ → ℕ → ℕ → (ℕ → W → Bool × W) → W → Bool × W
for_each_bit zero pos mask body w = (false, w)
for_each_bit (suc n) pos mask body w =
    let (now, w') = if test_bit pos mask then body pos w else (false, w) in
    let (later, w'') = for_each_bit n (suc pos) mask body w' in (now || later, w'')

-- The positions among `n` from `pos` on that are set in the mask.
abbrev pub members : ℕ → ℕ → ℕ → List ℕ
members zero pos mask = []
members (suc n) pos mask =
    let later = members n (suc pos) mask in if test_bit pos mask then pos ∷ later else later

-- A body run for each element in order, and whether one of the runs did something.
abbrev pub serve_each : {W : Type 0} → (ℕ → W → Bool × W) → List ℕ → W → Bool × W
serve_each body [] w = (false, w)
serve_each body (p ∷ ps) w =
    let (now, w') = body p w in let (later, w'') = serve_each body ps w' in (now || later, w'')

for_each_bit_lem :
    {W : Type 0} (n pos mask : ℕ) (body : ℕ → W → Bool × W) (w : W)
    → for_each_bit n pos mask body w ≡ serve_each body (members n pos mask) w
unfolding for_each_bit
for_each_bit_lem zero pos mask body w = refl
for_each_bit_lem (suc n) pos mask body w = elim (Bool-cases (test_bit pos mask)) [
  | inl e ↦ grind (arith, e, for_each_bit_lem n (suc pos) mask body (body pos w).1)
  | inr e ↦ grind (arith, e, for_each_bit_lem n (suc pos) mask body w)
]

module _ {H W : Type 0} (bus : Bus H) (base : ℕ) (local : Bool) (in_state : Holds H W) where
  open in_state use {hw, put_hw}

  -- `dw_hdma_v0_core_clear_done_int` and `dw_hdma_v0_core_clear_abort_int`
  unfoldable pub clear_done_int : Dir → ℕ → W → W
  clear_done_int dir id w = put_hw (set_ch bus base local dir id int_clear stop_int (hw w)) w

  unfoldable pub clear_abort_int : Dir → ℕ → W → W
  clear_abort_int dir id w = put_hw (set_ch bus base local dir id int_clear abort_int (hw w)) w

  -- `dw_hdma_v0_core_status_int`
  unfoldable pub status_int : Dir → ℕ → W → ℕ × W
  status_int dir id w = let (x, h) = get_ch bus base local dir id int_stat (hw w) in (x, put_hw h w)

  -- The body of the loop: bit 0 of the status is the stop bit and bit 2 the abort bit.
  unfoldable pub serve : (ℕ → W → W) → (ℕ → W → W) → IrqLine → Dir → ℕ → W → Bool × W
  serve done abort line dir pos w =
      let (val, w₁) = status_int dir pos w in
      let w₂ : W =
        if test_bit 0 val then done (pos + off_of line dir) (clear_done_int dir pos w₁) else w₁ in
      let w₃ : W =
        if test_bit 2 val then abort (pos + off_of line dir) (clear_abort_int dir pos w₂) else w₂ in
      (test_bit 0 val || test_bit 2 val, w₃)

  -- `dw_hdma_v0_core_handle_int`: whether it returns IRQ_HANDLED.
  unfoldable pub handle_int : (ℕ → W → W) → (ℕ → W → W) → IrqLine → Dir → W → Bool × W
  handle_int done abort line dir w =
      for_each_bit (total_of line dir) 0 (mask_of line dir) (serve done abort line dir) w

  -- The handler serves exactly the channels of the direction that belong to the line, lowest
  -- first, each once, and returns IRQ_HANDLED if and only if one of them had a stop or an abort.
  pub handle_int-members :
      (done abort : ℕ → W → W) (line : IrqLine) (dir : Dir) (w : W)
      → handle_int done abort line dir w
        ≡ serve_each
            (serve done abort line dir)
            (members (total_of line dir) 0 (mask_of line dir))
            w
  unfolding handle_int
  handle_int-members done abort line dir w =
      for_each_bit_lem (total_of line dir) 0 (mask_of line dir) (serve done abort line dir) w
