-- ===== src/Tests/Channels.antt =====
-- The operations of a channel.
use akida_dw_edma.Base.{[], ◌∷◌, some, ◌≡◌, ◌≢◌, refl, arith, ◌<◌, ◌≤◌}
use akida_dw_edma.Vchan.Lists.{lists}
use akida_dw_edma.Edma.{Desc, write, read, req_pause, busy, success, dma_complete}
use akida_dw_edma.Edma.Transfer.Filled.{IsBuilt}
use akida_dw_edma.Edma.Channel.{
  World, device_terminate_all, device_issue_pending, done_interrupt, abort_interrupt,
}
use akida_dw_edma.Edma.Channel.Drain.{iterate}
use akida_dw_edma.Edma.Channel.Served.{IsWaiting, IsServed, served, IsBuilt-served}
use akida_dw_edma.Edma.Channel.Pause.{pause_and_resume, pause_and_resume_lem, pause_in_last_chunk}
use akida_dw_edma.Edma.Channel.Stop.{
  config, resume, terminate, issue, clients, IsWedged, terminate_wedges, terminate_all-success,
}
use akida_dw_edma.Edma.Channel.Unfinished.{IsOver, unfinished_completes}
use akida_dw_edma.Edma.Setup.{irq_alloc, irq_pos, nr_irqs_of}
use akida_dw_edma.Edma.Setup.Vectors.{IsShared, IsSpent, irq_alloc-IsShared, irq_pos-lt}
use akida_dw_edma.Tests.Data.{chan, desc, chunk_1, chunk_2, core, done_core, world, empty_vc, heap}
use akida_dw_edma.Tests.Data.{config as slave}
use akida_dw_edma.V0.Control.{v0_core, ch_status, readl_ch, select}

-- The descriptor is submitted, and the channel is idle.
abbrev waiting : World (lists Desc) core
waiting = world (record chan { vc = record empty_vc { submitted = desc ∷ [] } })

waiting-IsWaiting : IsWaiting (lists Desc) core desc (chunk_1 ∷ chunk_2 ∷ []) waiting
waiting-IsWaiting = record {
  configured = refl;
  at_rest = refl;
  no_request = refl;
  none_issued = refl;
  one_submitted = refl;
  chunked = refl;
  counted = refl;
  fresh = refl;
  some_chunk = omega arith;
  small = omega arith;
}

served_example :
    IsServed (lists Desc) core desc (chunk_1 ∷ chunk_2 ∷ []) waiting (
      iterate 2 (done_interrupt (lists Desc) core) (device_issue_pending (lists Desc) core waiting))
served_example = served (lists Desc) core desc (chunk_1 ∷ chunk_2 ∷ []) waiting waiting-IsWaiting

desc-IsBuilt : IsBuilt 2 desc
desc-IsBuilt = record {
  started = λ e. cc e;
  chunked = refl;
  filled = (
    record { headed = refl; counted = refl; bounded = omega arith; sized = refl },
    (record { headed = refl; counted = refl; bounded = omega arith; sized = refl }, tt),
  );
  totalled = refl;
  numbered = refl;
  toggled = (refl, (refl, tt));
}

IsBuilt-served_example :
    (r : Desc) × ((iterate 2
        (done_interrupt (lists Desc) core)
        (device_issue_pending (lists Desc) core waiting)).chan.vc.completed
      ≡ r ∷ [])
    × (r.xfer_sz ≡ r.alloc_sz)
IsBuilt-served_example =
    IsBuilt-served (lists Desc) core 2 desc waiting desc-IsBuilt waiting-IsWaiting

-- The descriptor is issued, the channel busy, and one chunk of two is still to be sent.
abbrev half : Desc
half = record desc { chunk = some (chunk_2 ∷ []); chunks_alloc = 1; xfer_sz = 48 }

abbrev sending : World (lists Desc) core
sending = world (record chan { vc = record empty_vc { issued = half ∷ [] }; status = busy })

abbrev spent : Desc
spent = record desc { chunk = some []; chunks_alloc = 0; xfer_sz = 56 }

abbrev last : World (lists Desc) core
last = world (record chan { vc = record empty_vc { issued = spent ∷ [] }; status = busy })

pause_and_resume_lem_example :
    pause_and_resume (lists Desc) core sending ≡ done_interrupt (lists Desc) core sending
pause_and_resume_lem_example =
    pause_and_resume_lem (lists Desc) core sending half chunk_2 [] [] refl refl
      (record { on_issue = refl; left = refl; counted = refl; no_request = refl })

pause_in_last_chunk_example : pause_and_resume (lists Desc) core last ≡ last
pause_in_last_chunk_example =
    pause_in_last_chunk (lists Desc) core last spent [] refl refl
      (record { on_issue = refl; left = refl; counted = refl; no_request = refl })

is_done : (done_core.ch_status write 0 []).0 ≡ dma_complete
unfolding v0_core ch_status readl_ch select
is_done = refl

-- A channel with an unanswered pause, while the hardware reports that it is done.
abbrev stuck : World (lists Desc) done_core
stuck = record { chan = record chan { status = busy; request = req_pause }; hw = []; heap = heap }

terminate_wedges_example :
    IsWedged (lists Desc) done_core req_pause (done_core.ch_status write 0 []).1 (
      clients
        (lists Desc)
        done_core
        (config slave ∷ issue ∷ resume ∷ terminate ∷ [])
        (device_terminate_all (lists Desc) done_core stuck).1)
terminate_wedges_example =
    terminate_wedges (lists Desc) done_core stuck (config slave ∷ issue ∷ resume ∷ terminate ∷ [])
      refl refl (λ e. cc e) is_done

terminate_all-success_example : (device_terminate_all (lists Desc) core sending).0 ≡ success
terminate_all-success_example = terminate_all-success (lists Desc) core sending

still_runs : (core.ch_status write 0 []).0 ≢ dma_complete
unfolding v0_core ch_status readl_ch select
still_runs e = cc e

unfinished_completes_example :
    IsOver
      (lists Desc)
      core
      half
      sending
      (done_interrupt (lists Desc) core (device_terminate_all (lists Desc) core sending).1)
    × IsOver (lists Desc) core half sending (abort_interrupt (lists Desc) core sending)
unfinished_completes_example =
    unfinished_completes (lists Desc) core half sending refl refl still_runs refl

irq_alloc-IsShared_example : IsShared 3 2 2 (irq_alloc 3 2 2) × IsSpent 2 2 (irq_alloc 3 2 2)
irq_alloc-IsShared_example = irq_alloc-IsShared 3 2 2 (λ e. absurd (omega arith))

irq_pos-lt_example :
    (irq_pos (nr_irqs_of 3 (irq_alloc 3 2 2)) (irq_alloc 3 2 2) read 1
      < nr_irqs_of 3 (irq_alloc 3 2 2))
    × (nr_irqs_of 3 (irq_alloc 3 2 2) ≤ 3)
irq_pos-lt_example = irq_pos-lt 3 2 2 read 1 (omega arith) (omega arith)
