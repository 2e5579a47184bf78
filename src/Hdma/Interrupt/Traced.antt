-- ===== src/Hdma/Interrupt/Traced.antt =====
-- akida-dw-edma/dw-hdma-v0-core.c: all that `dw_hdma_v0_core_handle_int` does, access by access.
use akida_dw_edma.Base.{ℕ, ◌+◌, ◌*◌, Bool, ◌||◌, if◌then◌else◌, List, [], ◌∷◌, ◌++◌, ◌≡◌}
use akida_dw_edma.Base.Bits.{test_bit}
use akida_dw_edma.Mmio.{wrote32, got32}
use akida_dw_edma.Edma.{Dir, write, read}
use akida_dw_edma.Hdma.Control.{ch_offset, ch_regs}
use akida_dw_edma.V0.Interrupt.{IrqLine}
use akida_dw_edma.V0.Interrupt.Events.{
  Event, access, served_done, served_abort, event_bus, in_events, on_done, on_abort, count, place,
  mask,
}
use akida_dw_edma.Hdma.Interrupt.{
  handle_int, members, serve_each, serve, status_int, clear_done_int, clear_abort_int,
  handle_int-members,
}

-- The registers of a channel: 0x200 bytes for each, with those of the read side in the upper half.
abbrev block : Dir → ℕ → ℕ
block write p = p * 0x200
block read p = p * 0x200 + 0x100

module _ (answer : List Event → ℕ → ℕ) (base : ℕ) (local : Bool) where
  -- The status register of the channel is read. Where its bit 0 is set, a 1 is written to the clear
  -- register of the channel, and then its handler of done interrupts is run; where its bit 2 is
  -- set, a 4, and then its handler of aborts.
  abbrev pub visit : IrqLine → Dir → ℕ → List Event → Bool × List Event
  visit line dir p h =
      let status = answer h (base + (block dir p + 0x84)) in
      let read_it = h ++ access (got32 (base + (block dir p + 0x84))) ∷ [] in
      let h' =
        if test_bit 0 status
        then (read_it ++ access (wrote32 (base + (block dir p + 0x8c)) 0x1) ∷ [])
          ++ served_done (place line dir p) ∷ []
        else read_it in
      (
        test_bit 0 status || test_bit 2 status,
        if test_bit 2 status
            then (h' ++ access (wrote32 (base + (block dir p + 0x8c)) 0x4) ∷ [])
              ++ served_abort (place line dir p) ∷ []
            else h',
      )

  -- The channels of the direction in the mask of the line, from the lowest on.
  abbrev pub trace : IrqLine → Dir → List Event → Bool × List Event
  trace line dir h = serve_each (visit line dir) (members (count line dir) 0 (mask line dir)) h

  -- On hardware that records all accesses, with any answers to reads, the handler visits each
  -- channel of the direction that belongs to the line once, from the lowest on: it does exactly
  -- what `visit` says, in that order, and returns IRQ_HANDLED if and only if a handler was run.
  pub serves_members :
      (line : IrqLine) (dir : Dir) (h : List Event)
      → handle_int (event_bus answer) base local in_events on_done on_abort line dir h
        ≡ trace line dir h
  unfolding serve status_int clear_done_int clear_abort_int ch_offset ch_regs
  serves_members line write h =
      handle_int-members (event_bus answer) base local in_events on_done on_abort line write h
  serves_members line read h =
      handle_int-members (event_bus answer) base local in_events on_done on_abort line read h
