-- ===== src/V0/Interrupt/Traced.antt =====
-- akida-dw-edma/dw-edma-v0-core.c: all that `dw_edma_v0_core_handle_int` does, access by access.
use mathlib.Core.List.{append-nil, append_assoc}
use akida_dw_edma.Base.{
  ℕ, ◌+◌, ◌*◌, ◌/◌, ◌%◌, ◌^◌, Bool, not, ◌||◌, List, [], ◌∷◌, ◌++◌, is_empty, ◌≡◌, sym, ap, ◌∙◌,
}
use akida_dw_edma.Mmio.{wrote32, got32}
use akida_dw_edma.Edma.{Dir, write, read, MapFormat}
use akida_dw_edma.V0.Regs.{offset}
use akida_dw_edma.V0.Interrupt.{IrqLine, handle_int, read_status, clear_done_int, clear_abort_int}
use akida_dw_edma.V0.Interrupt.Events.{
  Event, access, served_done, served_abort, event_bus, in_events, on_done, on_abort, count, place,
  mask,
}
use akida_dw_edma.V0.Interrupt.Handled.{raised, run_each, handle_int-raised}

-- The status and the clear register of a direction.
abbrev status_at : Dir → ℕ
status_at write = 0x4c
status_at read = 0xa0

abbrev clear_at : Dir → ℕ
clear_at write = 0x58
clear_at read = 0xac

-- For each channel of the list, its bit is written to the clear register, then its handler runs.
abbrev served : (ℕ → Event) → (ℕ → Event) → List ℕ → List Event
served clear handler [] = []
served clear handler (p ∷ ps) = clear p ∷ handler p ∷ served clear handler ps

run_each-served :
    (clear handler : ℕ → Event) (ps : List ℕ) (h : List Event)
    → run_each (λ p u. (u ++ clear p ∷ []) ++ handler p ∷ []) ps h ≡ h ++ served clear handler ps
run_each-served clear handler [] h = sym (append-nil h)
run_each-served clear handler (p ∷ ps) h =
    run_each-served clear handler ps ((h ++ clear p ∷ []) ++ handler p ∷ [])
    ∙ append_assoc (h ++ clear p ∷ []) (handler p ∷ []) _
    ∙ append_assoc h (clear p ∷ []) _

module _ (answer : List Event → ℕ → ℕ) (base : ℕ) (local : Bool) (mf : MapFormat) where
  -- The second pass, from the events that the first one leaves.
  abbrev second :
      ℕ → ℕ → ℕ → Bool → (List ℕ → List Event → List Event) → List Event → Bool × List Event
  second status n m any pass h =
      let aborts = raised n 0 (answer h status / 65536 % 256) m in
      (any || not (is_empty aborts), pass aborts (h ++ access (got32 status) ∷ []))

  two_passes :
      (status n m : ℕ) (any : Bool) (clear₁ done clear₂ abort : ℕ → Event) (dones : List ℕ)
      (h : List Event)
      → second status n m any
          (run_each (λ p u. (u ++ clear₂ p ∷ []) ++ abort p ∷ []))
          (run_each (λ p u. (u ++ clear₁ p ∷ []) ++ done p ∷ []) dones h)
        ≡ second status n m any
            (λ ps u. u ++ served clear₂ abort ps)
            (h ++ served clear₁ done dones)
  two_passes status n m any clear₁ done clear₂ abort dones h =
      let pass : List ℕ → List Event → List Event =
        run_each (λ p u. (u ++ clear₂ p ∷ []) ++ abort p ∷ []) in
      let h' = h ++ served clear₁ done dones in
      let aborts = raised n 0 (answer h' status / 65536 % 256) m in
      ap (second status n m any pass) (run_each-served clear₁ done dones h)
      ∙ ap (λ x. (any || not (is_empty aborts), x))
          (run_each-served clear₂ abort aborts (h' ++ access (got32 status) ∷ []))

  -- The status register of the direction is read. For each channel of the line whose bit is set in
  -- its lower half, from the lowest on, the bit is cleared and the handler of done interrupts is
  -- run. The status is read again, and the same is done for the upper half and the handler of aborts.
  abbrev pub trace : IrqLine → Dir → List Event → Bool × List Event
  trace line dir h =
      let status = base + status_at dir in
      let dones = raised (count line dir) 0 (answer h status % 256) (mask line dir) in
      let h' =
        (h ++ access (got32 status) ∷ [])
        ++ served (λ p. access (wrote32 (base + clear_at dir) (2 ^ p % 256)))
            (λ p. served_done (place line dir p)) dones in
      let aborts = raised (count line dir) 0 (answer h' status / 65536 % 256) (mask line dir) in
      (
        not (is_empty dones) || not (is_empty aborts),
        (h' ++ access (got32 status) ∷ [])
            ++ served (λ p. access (wrote32 (base + clear_at dir) (2 ^ p % 256 * 65536)))
                (λ p. served_abort (place line dir p)) aborts,
      )

  -- On hardware that records all accesses, with any answers to reads, the handler does exactly what
  -- `trace` says, in that order, and returns IRQ_HANDLED if and only if a handler was run.
  pub handle_int-trace :
      (line : IrqLine) (dir : Dir) (h : List Event)
      → handle_int (event_bus answer) base local mf in_events on_done on_abort line dir h
        ≡ trace line dir h
  unfolding read_status clear_done_int clear_abort_int offset
  handle_int-trace line write h =
      handle_int-raised (event_bus answer) base local mf in_events on_done on_abort line write h
      ∙ two_passes (base + status_at write) (count line write) (mask line write) _
          (λ p. access (wrote32 (base + clear_at write) (2 ^ p % 256)))
          (λ p. served_done (place line write p))
          (λ p. access (wrote32 (base + clear_at write) (2 ^ p % 256 * 65536)))
          (λ p. served_abort (place line write p))
          (raised (count line write) 0 (answer h (base + status_at write) % 256) (mask line write))
          (h ++ access (got32 (base + status_at write)) ∷ [])
  handle_int-trace line read h =
      handle_int-raised (event_bus answer) base local mf in_events on_done on_abort line read h
      ∙ two_passes (base + status_at read) (count line read) (mask line read) _
          (λ p. access (wrote32 (base + clear_at read) (2 ^ p % 256)))
          (λ p. served_done (place line read p))
          (λ p. access (wrote32 (base + clear_at read) (2 ^ p % 256 * 65536)))
          (λ p. served_abort (place line read p))
          (raised (count line read) 0 (answer h (base + status_at read) % 256) (mask line read))
          (h ++ access (got32 (base + status_at read)) ∷ [])
