-- ===== src/Tests/Cores.antt =====
-- A channel over many steps, and the interrupt vectors of a core with three of them.
use akida_dw_edma.Base.{
  ℕ, List, [], ◌∷◌, some, true, false, ◌≡◌, ◌≢◌, refl, arith, u32, get_or, get_elem?,
}
use akida_dw_edma.Mmio.{observer}
use akida_dw_edma.Vchan.Lists.{lists}
use akida_dw_edma.Edma.{Dir, write, Desc, dma_in_progress, edma_legacy, busy}
use akida_dw_edma.V0.Interrupt.{IrqLine}
use akida_dw_edma.Edma.Transfer.Build.{linked}
use akida_dw_edma.Edma.Channel.{
  World, start_transfer, start_chunk, device_issue_pending, device_tx_status, done_interrupt,
}
use akida_dw_edma.Edma.Channel.Drain.{region_sizes}
use akida_dw_edma.Edma.Channel.Stop.{issue, client}
use akida_dw_edma.Edma.Channel.Steps.{
  IsAccounted, Reach, here, next, submits, calls, is_done, IsSound,
}
use akida_dw_edma.Edma.Channel.Steps.Sound.{Reach-IsSound, device_tx_status-residue}
use akida_dw_edma.Edma.Setup.{
  Irq, zero_irq, irq_alloc, irq_pos, nr_irqs_of, distribute, dec_wr_alloc, dec_rd_alloc,
}
use akida_dw_edma.Edma.Setup.Masks.{has, irqs_after, All-IsUnmarked}
use akida_dw_edma.Edma.Interrupts.{Cores, interrupt, v0_handle}
use akida_dw_edma.Edma.Interrupts.{at_chan}
use akida_dw_edma.Edma.Interrupts.Sound.{
  Engine, edma, handle_of, AreSound, begins, goes_on, submits_to, calls_on, interrupts,
  CoreReach-AreSound,
}
use akida_dw_edma.Edma.Interrupts.Vectors.{line_of, v0_interrupt-own_vector}
use akida_dw_edma.Tests.Data.{chan, chip, chunk_2, core, config, desc, empty_vc, heap, world}

desc-IsAccounted : IsAccounted desc
desc-IsAccounted = record { counted = refl; measured = refl; xfer_u32 = omega arith }

-- Nothing is submitted.
abbrev fresh : World (lists Desc) core
fresh = world chan

fresh-IsSound : IsSound (lists Desc) core fresh
fresh-IsSound = record { listed = record { issued_ok = tt; submitted_ok = tt; completed_ok = tt } }

-- The descriptor is submitted and issued.
abbrev after_issue : World (lists Desc) core
after_issue =
    client (lists Desc) core issue
      (world (record chan { vc = record empty_vc { submitted = desc ∷ [] } }))

issued_fresh : Reach (lists Desc) core fresh after_issue
issued_fresh = next (next here (submits desc desc-IsAccounted)) (calls issue)

Reach-IsSound_example : IsSound (lists Desc) core (done_interrupt (lists Desc) core after_issue)
Reach-IsSound_example = Reach-IsSound (lists Desc) core (next issued_fresh is_done) fresh-IsSound

abbrev half_sent : Desc
half_sent = record desc { chunk = some (chunk_2 ∷ []); chunks_alloc = 1; xfer_sz = 48 }

half_sent-first : (lists Desc).find_desc 0 after_issue.chan.vc ≡ some half_sent
unfolding client device_issue_pending start_transfer start_chunk
half_sent-first = refl

device_tx_status-residue_example :
    (device_tx_status (lists Desc) core (λ c v. dma_in_progress) 0 true after_issue.chan).1
    ≡ some (u32 (region_sizes (linked half_sent)))
device_tx_status-residue_example =
    device_tx_status-residue (lists Desc) core (λ c v. dma_in_progress) 0 half_sent issued_fresh
      fresh-IsSound half_sent-first refl

abbrev three : List Irq
three = zero_irq ∷ zero_irq ∷ zero_irq ∷ []

three-clear : (d : Dir) (k b : ℕ) → has d (get_or three k zero_irq) b ≡ false
three-clear = All-IsUnmarked three ((refl, refl), ((refl, refl), ((refl, refl), tt)))

-- Two busy write channels, in a core whose registers all read 3: both are done.
abbrev cores : Cores (lists Desc) core
cores = record {
  chans = record chan { status = busy } ∷ record chan { status = busy; id = 1 } ∷ [];
  hw = [];
  heap = heap;
}

abbrev line_0 : IrqLine
line_0 = line_of 2 2 (irqs_after core chip 2 2 3 empty_vc config three []) 0

other_vector : 0 ≢ irq_pos (nr_irqs_of 3 (irq_alloc 3 2 2)) (irq_alloc 3 2 2) write 1
unfolding irq_pos nr_irqs_of irq_alloc distribute dec_wr_alloc dec_rd_alloc
other_vector e = absurd (omega arith)

v0_interrupt-own_vector_example :
    get_elem?
      (interrupt
        (lists Desc)
        core
        (v0_handle (lists Desc) core (observer (λ h a. 3)) 0 false edma_legacy)
        write
        line_0
        cores).1.chans
      1
    ≡ get_elem? cores.chans 1
v0_interrupt-own_vector_example =
    v0_interrupt-own_vector (lists Desc) core chip 2 2 3 empty_vc config three [] (omega arith) refl
      three-clear (observer (λ h a. 3)) 0 false edma_legacy write 0 1 cores (λ o. other_vector o.1)

-- Two channels at rest.
abbrev at_rest : Cores (lists Desc) core
at_rest = record { chans = chan ∷ record chan { id = 1 } ∷ []; hw = []; heap = heap }

at_rest-AreSound : AreSound (lists Desc) core at_rest
at_rest-AreSound = (
  (λ h heap. record { listed = record { issued_ok = tt; submitted_ok = tt; completed_ok = tt } }),
  (
    (λ h heap. record { listed = record { issued_ok = tt; submitted_ok = tt; completed_ok = tt } }),
    tt,
  ),
)

abbrev engine : Engine (lists Desc) core
engine = edma (observer (λ h a. 3)) 0 false edma_legacy

abbrev submitted_to_0 : Cores (lists Desc) core
submitted_to_0 =
    at_chan (lists Desc) core
      (λ u. record u { chan = record u.chan { vc = (lists Desc).submit desc u.chan.vc } }) 0 at_rest

abbrev issued_on_0 : Cores (lists Desc) core
issued_on_0 = at_chan (lists Desc) core (client (lists Desc) core issue) 0 submitted_to_0

CoreReach-AreSound_example :
    AreSound
      (lists Desc)
      core
      (interrupt (lists Desc) core (handle_of (lists Desc) core engine) write line_0 issued_on_0).1
CoreReach-AreSound_example =
    CoreReach-AreSound (lists Desc) core engine
      (goes_on (goes_on (goes_on begins (submits_to 0 desc desc-IsAccounted)) (calls_on 0 issue))
        (interrupts write line_0))
      at_rest-AreSound
