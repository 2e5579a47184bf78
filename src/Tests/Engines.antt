-- ===== src/Tests/Engines.antt =====
-- What the two engines make the hardware do.
use akida_dw_edma.Base.{ℕ, ◌+◌, List, [], ◌∷◌, ◌++◌, ◌<◌, true, false, ◌≡◌, ◌↔◌, refl, arith, All}
use akida_dw_edma.Mmio.{got32, observer, registers}
use akida_dw_edma.Edma.{write, read, edma_legacy}
use akida_dw_edma.Edma.Transfer.Filled.{bursts, IsFilled}
use akida_dw_edma.V0.LinkedList.{write_chunk}
use akida_dw_edma.V0.LinkedList.Elements.{elements, link_element, write_chunk-elements}
use akida_dw_edma.V0.LinkedList.Bounds.{IsWithin, write_chunk-IsWithin}
use akida_dw_edma.V0.Interrupt.{IrqLine, handle_int}
use akida_dw_edma.V0.Interrupt.Events.{Event, event_bus, in_events, on_done, on_abort}
use akida_dw_edma.V0.Interrupt.Traced.{trace, handle_int-trace}
use akida_dw_edma.Base.Bits.{test_bit}
use akida_dw_edma.V0.Regs.{imwr_data}
use akida_dw_edma.V0.Control.{ch_config}
use akida_dw_edma.V0.Control.Bits.{half_bit}
use akida_dw_edma.V0.Control.Config.{reg, HasAddresses, ch_config-registers}
use akida_dw_edma.Hdma.Control.{ch_status, ch_regs, ch_offset, ch_stat, dir_number}
use akida_dw_edma.Hdma.Status.{ch_status-own_register}
use akida_dw_edma.Hdma.LinkedList
use akida_dw_edma.Hdma.LinkedList.Same.{write_chunk-eq}
use akida_dw_edma.Hdma.Interrupt
use akida_dw_edma.Hdma.Interrupt.Traced
use akida_dw_edma.Tests.Data.{answer, chunk_1, msi}

chunk_1-IsFilled : IsFilled 2 chunk_1
chunk_1-IsFilled = record { headed = refl; counted = refl; bounded = omega arith; sized = refl }

write_chunk-elements_example :
    write_chunk (observer answer) false chunk_1 []
    ≡ []
      ++ (elements false true 0x5000 (bursts chunk_1) ++ link_element false 0x5030 0x6 0x20000000)
write_chunk-elements_example =
    write_chunk-elements answer false 2 chunk_1 [] (omega arith) chunk_1-IsFilled

write_chunk-IsWithin_example :
    All (IsWithin 0x5000 (0x5000 + 72)) (write_chunk (observer answer) false chunk_1 [])
write_chunk-IsWithin_example =
    write_chunk-IsWithin answer false 72 chunk_1 (omega arith) (omega arith) chunk_1-IsFilled

write_chunk-eq_example :
    LinkedList.write_chunk (observer answer) true chunk_1 []
    ≡ write_chunk (observer answer) true chunk_1 []
write_chunk-eq_example = write_chunk-eq (observer answer) true chunk_1 []

ch_status-own_register_example :
    ((ch_status (observer answer) 0 false read 0 []).1
      ≡ [] ++ got32 (0 + (ch_regs read 0 + ch_offset ch_stat)) ∷ [])
    ↔ (0 ≡ dir_number read)
ch_status-own_register_example = ch_status-own_register answer 0 false read 0 []

abbrev line : IrqLine
line = record { wr_ch_cnt = 2; rd_ch_cnt = 2; wr_mask = 3; rd_mask = 3 }

-- Both done bits and the first abort bit are raised.
abbrev raising : List Event → ℕ → ℕ
raising h a = 0x10003

-- Each channel has stopped and was aborted.
abbrev stopped : List Event → ℕ → ℕ
stopped h a = 0x5

serves_members_example :
    Interrupt.handle_int (event_bus stopped) 0 false in_events on_done on_abort line read []
    ≡ Traced.trace stopped 0 false line read []
serves_members_example = Traced.serves_members stopped 0 false line read []

handle_int-trace_example :
    handle_int (event_bus raising) 0 false edma_legacy in_events on_done on_abort line write []
    ≡ trace raising 0 false edma_legacy line write []
handle_int-trace_example = handle_int-trace raising 0 false edma_legacy line write []

-- The odd channel of a pair, on registers that were all set.
abbrev all_set : ℕ → ℕ
all_set a = 0xffffffff

ch_config-registers_example :
    HasAddresses 0x970 false edma_legacy read msi
      (ch_config registers 0x970 false edma_legacy read 1 msi all_set)
    × ((p : ℕ)
        → p < 16
        → (half_bit 1 p (
              reg 0x970 false edma_legacy read
                (imwr_data 0)
                (ch_config registers 0x970 false edma_legacy read 1 msi all_set))
            ≡ test_bit p 3)
          × (half_bit 2 p (
                reg 0x970 false edma_legacy read
                  (imwr_data 0)
                  (ch_config registers 0x970 false edma_legacy read 1 msi all_set))
              ≡ half_bit 2 p 0xffffffff))
ch_config-registers_example =
    ch_config-registers 0x970 false edma_legacy read 1 msi all_set (omega arith)
