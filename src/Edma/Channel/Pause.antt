-- ===== src/Edma/Channel/Pause.antt =====
-- Pausing and resuming a channel.
use akida_dw_edma.Base.{List, [], ◌∷◌, Bool, true, ◌≡◌, sym, ap, ◌∙◌, arith}
use akida_dw_edma.Vchan.{VchanOps}
use akida_dw_edma.Edma.{
  req_none, req_pause, paused, busy, Chunk, Desc, Chan, CoreOps, Errno, success,
}
use akida_dw_edma.Edma.Channel.{
  World, start_chunk, start_transfer, device_pause, device_resume, done_interrupt, set_status,
}
use akida_dw_edma.Edma.Channel.Drain.{Sending, sent, start_transfer-cons, done_interrupt-cons}

module _ (v : VchanOps Desc) {H : Type 0} (core : CoreOps H) where
  open v use {Vc, issued, next_desc, next_desc_lem}

  abbrev pub pause : World v core → World v core
  pause w = record w { chan = (device_pause w.chan).1 }

  -- A pause, the interrupt of the chunk under way, and a resume.
  abbrev pub pause_and_resume : World v core → World v core
  pause_and_resume w = (device_resume v core (done_interrupt v core (pause w))).1

  device_pause-busy :
      (ch : Chan Vc)
      → ch.configured ≡ true
      → ch.status ≡ busy
      → ch.request ≡ req_none
      → device_pause ch ≡ (success, record ch { request = req_pause })
  unfolding device_pause
  device_pause-busy ch conf st req = ground arith

  done_interrupt-req_pause :
      (w : World v core) (d : Desc) (ds : List Desc)
      → issued w.chan.vc ≡ d ∷ ds
      → done_interrupt v core (record w { chan = record w.chan { request = req_pause } })
        ≡ record w { chan = record w.chan { request = req_none; status = paused } }
  unfolding done_interrupt
  done_interrupt-req_pause w d ds e = rw (next_desc_lem w.chan.vc, e, done_interrupt)

  resumed :
      (w : World v core)
      → w.chan.configured ≡ true
      → (device_resume v core
          (record w { chan = record w.chan { request = req_none; status = paused } })).1
        ≡ (start_transfer v core
            (record w { chan = record w.chan { request = req_none; status = busy } })).0
  unfolding device_resume
  resumed w conf = ground arith

  pause_and_resume-eq :
      (w : World v core) (d : Desc) (ds : List Desc)
      → w.chan.configured ≡ true
      → w.chan.status ≡ busy
      → w.chan.request ≡ req_none
      → issued w.chan.vc ≡ d ∷ ds
      → pause_and_resume w
        ≡ (start_transfer v core
            (record w { chan = record w.chan { request = req_none; status = busy } })).0
  pause_and_resume-eq w d ds conf st req e =
      ap
        (λ (r : Errno × Chan Vc).
          (device_resume v core (done_interrupt v core (record w { chan = r.1 }))).1)
        (device_pause-busy w.chan conf st req)
      ∙ ap (λ (x : World v core). (device_resume v core x).1) (done_interrupt-req_pause w d ds e)
      ∙ resumed w conf

  same_busy :
      (w : World v core)
      → w.chan.status ≡ busy
      → w.chan.request ≡ req_none
      → record w { chan = record w.chan { request = req_none; status = busy } } ≡ w
  same_busy w st req =
      λ i. record w { chan = record w.chan { request = sym req i; status = sym st i } }

  still_busy : (w : World v core) → w.chan.status ≡ busy → w ≡ set_status v core busy w
  still_busy w st = λ i. record w { chan = record w.chan { status = st i } }

  -- On a configured and busy channel without a request, whose first issued descriptor has chunks
  -- left: a pause, the done interrupt that answers it, and a resume leave the channel as the done
  -- interrupt alone would have.
  pub pause_and_resume_lem :
      (w : World v core) (d : Desc) (c : Chunk) (cs : List Chunk) (ds : List Desc)
      → w.chan.configured ≡ true
      → w.chan.status ≡ busy
      → Sending v core d (c ∷ cs) ds w
      → pause_and_resume w ≡ done_interrupt v core w
  pause_and_resume_lem w d c cs ds conf st s =
      pause_and_resume-eq w d ds conf st s.no_request s.on_issue
      ∙ ap (λ (x : World v core). (start_transfer v core x).0) (same_busy w st s.no_request)
      ∙ ap (λ (r : World v core × Bool). r.0)
          (start_transfer-cons v core d c cs ds w s.on_issue s.left)
      ∙ still_busy (sent v core d c cs w) st
      ∙ sym (done_interrupt-cons v core d c cs ds w s)

  -- On a configured and busy channel without a request, a pause during the last chunk of the first
  -- issued descriptor, the done interrupt and a resume change nothing: the channel is busy with
  -- nothing started, and the descriptor is still issued, though the hardware is done with it.
  pub pause_in_last_chunk :
      (w : World v core) (d : Desc) (ds : List Desc)
      → w.chan.configured ≡ true
      → w.chan.status ≡ busy
      → Sending v core d [] ds w
      → pause_and_resume w ≡ w
  unfolding start_transfer start_chunk
  pause_in_last_chunk w d ds conf st s =
      pause_and_resume-eq w d ds conf st s.no_request s.on_issue
      ∙ ap (λ (x : World v core). (start_transfer v core x).0) (same_busy w st s.no_request)
      ∙ rw (next_desc_lem w.chan.vc, s.on_issue, start_transfer, s.left)
