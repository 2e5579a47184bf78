-- ===== src/Hdma/Interrupt/Keeps.antt =====
-- What `dw_hdma_v0_core_handle_int` leaves as it is.
use akida_dw_edma.Base.{ℕ, zero, suc, ◌+◌, Bool, List, [], ◌∷◌, All, All-imp, if-elim, arith}
use akida_dw_edma.Base.Bits.{test_bit}
use akida_dw_edma.Mmio.{Bus}
use akida_dw_edma.Edma.{Dir}
use akida_dw_edma.V0.Interrupt.{Holds, IrqLine, total_of, off_of, mask_of}
use akida_dw_edma.V0.Interrupt.Handled.{Serves}
use akida_dw_edma.Hdma.Interrupt.{
  members, serve, serve_each, status_int, clear_done_int, clear_abort_int, handle_int,
  handle_int-members,
}

members-Serves : (n pos mask : ℕ) → All (Serves (pos + n) mask) (members n pos mask)
members-Serves zero pos mask = tt
members-Serves (suc n) pos mask =
    let later : All (Serves (pos + suc n) mask) (members n (suc pos) mask) =
      All-imp (Serves (suc pos + n) mask) (Serves (pos + suc n) mask) (members n (suc pos) mask)
        (λ p h. (omega (arith, h.0), h.1)) (members-Serves n (suc pos) mask) in
    if-elim (All (Serves (pos + suc n) mask)) (test_bit pos mask) (λ e. ((omega arith, e), later))
      (λ _. later)

serve_each-keeps :
    {W : Type 0} (P : W → Type 0) (body : ℕ → W → Bool × W) (ps : List ℕ) (w : W)
    → All (λ p. (u : W) → P u → P (body p u).1) ps
    → P w
    → P (serve_each body ps w).1
serve_each-keeps P body [] w h x = x
serve_each-keeps P body (p ∷ ps) w h x = serve_each-keeps P body ps (body p w).1 h.1 (h.0 w x)

serve_members-keeps :
    {W : Type 0} (P : W → Type 0) (body : ℕ → W → Bool × W) (n mask : ℕ) (w : W)
    → ((p : ℕ) (u : W) → Serves n mask p → P u → P (body p u).1)
    → P w
    → P (serve_each body (members n 0 mask) w).1
serve_members-keeps {W} P body n mask w h x =
    serve_each-keeps P body (members n 0 mask) w
      (All-imp (Serves (0 + n) mask) (λ p. (u : W) → P u → P (body p u).1) (members n 0 mask)
        (λ p s u y. h p u (omega (arith, s.0), s.1) y) (members-Serves n 0 mask))
      x

module _ {H W : Type 0} (bus : Bus H) (base : ℕ) (local : Bool) (in_state : Holds H W) where
  serve-keeps :
      (P : W → Type 0) (done abort : ℕ → W → W) (line : IrqLine) (dir : Dir) (p : ℕ) (u : W)
      → ((h : H) (u : W) → P u → P (in_state.put_hw h u))
      → ((u : W) → P u → P (done (p + off_of line dir) u))
      → ((u : W) → P u → P (abort (p + off_of line dir) u))
      → P u
      → P (serve bus base local in_state done abort line dir p u).1
  unfolding serve status_int clear_done_int clear_abort_int
  serve-keeps P done abort line dir p u put on_done on_abort x =
      let (val, u₁) = status_int bus base local in_state dir p u in
      let after_done =
        if-elim P (test_bit 0 val) (λ _. on_done _ (put _ u₁ (put _ u x))) (λ _. put _ u x) in
      if-elim P (test_bit 2 val) (λ _. on_abort _ (put _ _ after_done)) (λ _. after_done)

  -- What an access to the hardware keeps, and the handlers of all channels of the line, the
  -- interrupt keeps.
  pub handle_int-keeps :
      (P : W → Type 0) (done abort : ℕ → W → W) (line : IrqLine) (dir : Dir) (w : W)
      → ((h : H) (u : W) → P u → P (in_state.put_hw h u))
      → ((p : ℕ) (u : W)
          → Serves (total_of line dir) (mask_of line dir) p
          → P u
          → P (done (p + off_of line dir) u))
      → ((p : ℕ) (u : W)
          → Serves (total_of line dir) (mask_of line dir) p
          → P u
          → P (abort (p + off_of line dir) u))
      → P w
      → P (handle_int bus base local in_state done abort line dir w).1
  handle_int-keeps P done abort line dir w put on_done on_abort x =
      rw (handle_int-members bus base local in_state done abort line dir w) (
        serve_members-keeps P (serve bus base local in_state done abort line dir)
          (total_of line dir) (mask_of line dir) w
          (λ p u s y.
            serve-keeps P done abort line dir p u put (λ u z. on_done p u s z)
              (λ u z. on_abort p u s z) y)
          x)
