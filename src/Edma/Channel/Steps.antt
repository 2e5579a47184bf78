-- ===== src/Edma/Channel/Steps.antt =====
-- akida-dw-edma/dw-edma-core.c: a channel under interleavings of its clients' calls and of its
-- interrupts. `dw_edma_device_config`, `_pause`, `_resume` and `_terminate_all` take no lock, and the
-- abort handler stores the request and the status after it has given the lock back; so a store of
-- either, of the configuration flag, or the start of a chunk may come at any time, on its own. The
-- start of a chunk is one step, which the lock ensures except for the start in
-- `dw_edma_device_resume`.
pub mod Sound
pub mod Built
use akida_dw_edma.Base.{
  ◌<◌, ℕ, zero, suc, ◌+◌, List, [], ◌∷◌, ◌++◌, Option, none, some, Bool, true, false, not, ◌&&◌,
  ◌≡◌, ◌≢◌, refl, sym, ap, ◌∙◌, subst, arith, u32, sub32, length, All, All-append, if-elim, ◌==◌,
  if◌then◌else◌,
}
use akida_dw_edma.Vchan.{VchanOps, first, rest, put_first, All-first, All-rest, All-put_first}
use akida_dw_edma.Edma.{
  req_none, req_stop, req_pause, Request, Status, idle, paused, busy, Chunk, Desc, Chan, CoreOps,
  SlaveConfig, is_paused, is_req_none, is_idle, is_busy, is_complete, DmaStatus, Errno, eperm,
  success, dma_in_progress,
}
use akida_dw_edma.Edma.Transfer.Build.{linked}
use akida_dw_edma.Edma.Channel.{
  World, start_chunk, start_transfer, device_config, device_pause, device_resume,
  device_terminate_all, device_issue_pending, device_tx_status, on_done, done_interrupt,
  abort_interrupt, retire, set_status, above_pause,
}
use akida_dw_edma.Edma.Channel.Drain.{region_sizes}
use akida_dw_edma.Edma.Channel.Stop.{ClientCall, config, pause, resume, terminate, issue, client}

-- The chunks of a descriptor that are left are counted, and their bytes with those of the chunks
-- that were started are the bytes of the transfer (each as a u32).
pub record IsAccounted (d : Desc) : Type 0 where
  pub counted : d.chunks_alloc ≡ u32 (length (linked d))
  pub measured : u32 (d.xfer_sz + region_sizes (linked d)) ≡ d.alloc_sz
  pub xfer_u32 : d.xfer_sz < 4294967296

module _ (v : VchanOps Desc) {H : Type 0} (core : CoreOps H) where
  open v use {
    Vc, issued, submitted, completed, next_desc, find_desc, issue_pending, write_first, complete,
    submit, next_desc_lem, issued-issue_pending, submitted-issue_pending, completed-issue_pending,
    issued-write_first, submitted-write_first, completed-write_first, issued-complete,
    submitted-complete, completed-complete, issued-submit, submitted-submit, completed-submit,
    find_desc_lem,
  }

  -- A client submits a descriptor that it prepared, or calls the driver; the hardware interrupts.
  pub data Step (w : World v core) : World v core → Type 0 where
    submits :
        (d : Desc)
        → IsAccounted d
        → Step w (record w { chan = record w.chan { vc = submit d w.chan.vc } })
    calls : (c : ClientCall) → Step w (client v core c w)
    is_done : Step w (done_interrupt v core w)
    aborts : Step w (abort_interrupt v core w)
    -- A store of a call whose tests are of an earlier state; with the values from before a call or
    -- an abort, it also is what undoes the stores that are still to come.
    stores :
        (st : Status) (rq : Request) (conf : Bool) (sc : SlaveConfig)
        → Step w (record w {
          chan = record w.chan { status = st; request = rq; configured = conf; config = sc };
        })
    -- The start in a resumption, whose tests are of an earlier state.
    starts : Step w (start_transfer v core w).0

  pub data Reach (w : World v core) : World v core → Type 0 where
    here : Reach w w
    next : {w₁ w₂ : World v core} → Reach w w₁ → Step w₁ w₂ → Reach w w₂

  -- Every descriptor of the virtual channel is accounted for.
  pub record IsListed (vc : Vc) : Type 0 where
    pub issued_ok : All IsAccounted (issued vc)
    pub submitted_ok : All IsAccounted (submitted vc)
    pub completed_ok : All IsAccounted (completed vc)

  pub record IsSound (w : World v core) : Type 0 where
    pub listed : IsListed w.chan.vc

  write_first-IsListed :
      (d : Desc) (vc : Vc) → IsAccounted d → IsListed vc → IsListed (write_first d vc)
  write_first-IsListed d vc a h = record {
    issued_ok =
        rw (issued-write_first d vc) (All-put_first IsAccounted d (issued vc) a h.issued_ok);
    submitted_ok = rw (submitted-write_first d vc) h.submitted_ok;
    completed_ok = rw (completed-write_first d vc) h.completed_ok;
  }

  pub complete-IsListed :
      (d : Desc) (vc : Vc) → IsAccounted d → IsListed vc → IsListed (complete d vc)
  complete-IsListed d vc a h = record {
    issued_ok = rw (issued-complete d vc) (All-rest IsAccounted (issued vc) h.issued_ok);
    submitted_ok = rw (submitted-complete d vc) h.submitted_ok;
    completed_ok =
        rw (completed-complete d vc)
          (All-append IsAccounted (completed vc) (d ∷ []) h.completed_ok (a, tt));
  }

  pub submit-IsListed : (d : Desc) (vc : Vc) → IsAccounted d → IsListed vc → IsListed (submit d vc)
  submit-IsListed d vc a h = record {
    issued_ok = rw (issued-submit d vc) h.issued_ok;
    submitted_ok =
        rw (submitted-submit d vc)
          (All-append IsAccounted (submitted vc) (d ∷ []) h.submitted_ok (a, tt));
    completed_ok = rw (completed-submit d vc) h.completed_ok;
  }

  pub issue_pending-IsListed : (vc : Vc) → IsListed vc → IsListed (issue_pending vc).0
  issue_pending-IsListed vc h = record {
    issued_ok =
        rw (issued-issue_pending vc)
          (All-append IsAccounted (issued vc) (submitted vc) h.issued_ok h.submitted_ok);
    submitted_ok = rw (submitted-issue_pending vc) tt;
    completed_ok = rw (completed-issue_pending vc) h.completed_ok;
  }

  pub next_desc-IsAccounted :
      (vc : Vc) (d : Desc) → IsListed vc → next_desc vc ≡ some d → IsAccounted d
  next_desc-IsAccounted vc d h e =
      All-first IsAccounted (issued vc) d h.issued_ok (sym (next_desc_lem vc) ∙ e)

  -- Starting a chunk moves its bytes from those left to those sent.
  start_chunk-IsSound :
      (d : Desc) (cs : List Chunk) (w : World v core)
      → linked d ≡ cs
      → IsAccounted d
      → IsListed w.chan.vc
      → IsListed (start_chunk v core d cs w).0.chan.vc
  unfolding start_chunk
  start_chunk-IsSound d [] w e a h = h
  start_chunk-IsSound d (c ∷ cs) w e a h =
      write_first-IsListed _ w.chan.vc
        (record {
          counted = omega (arith, a.counted, ap length e);
          measured = omega (arith, a.measured, ap region_sizes e);
          xfer_u32 = omega arith;
        })
        h

  -- A start leaves the status and the request as they were.
  abbrev pub Starts : World v core → World v core × Bool → Type 0
  Starts w r =
      IsListed r.0.chan.vc
      × ((r.0.chan.status ≡ w.chan.status) × (r.0.chan.request ≡ w.chan.request))

  start_chunk-Starts :
      (d : Desc) (cs : List Chunk) (w : World v core)
      → linked d ≡ cs
      → IsAccounted d
      → IsListed w.chan.vc
      → Starts w (start_chunk v core d cs w)
  unfolding start_chunk
  start_chunk-Starts d [] w e a h = (h, (refl, refl))
  start_chunk-Starts d (c ∷ cs) w e a h = (start_chunk-IsSound d (c ∷ cs) w e a h, (refl, refl))

  pub start_transfer-Starts :
      (w : World v core) → IsListed w.chan.vc → Starts w (start_transfer v core w)
  unfolding start_transfer
  start_transfer-Starts w h = by_next (next_desc w.chan.vc) refl
    where
      by_next :
          (o : Option Desc)
          → next_desc w.chan.vc ≡ o
          → Starts w (elim o [ none ↦ (w, false) | some d ↦ start_chunk v core d (linked d) w ])
      by_next none e = (h, (refl, refl))
      by_next (some d) e =
          start_chunk-Starts d (linked d) w refl (next_desc-IsAccounted w.chan.vc d h e) h

  pub started-IsSound :
      (w : World v core) → IsListed w.chan.vc → IsSound (start_transfer v core w).0
  started-IsSound w h = record { listed = (start_transfer-Starts w h).0 }
