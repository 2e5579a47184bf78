-- ===== src/Edma/Channel/Steps/Sound.antt =====
-- The invariant of a channel under its steps, and what it says of the residue.
use akida_dw_edma.Base.{
  ℕ, Option, none, some, true, not, ◌&&◌, ◌≡◌, refl, ap, subst, arith, u32, if-elim, ◌==◌,
  if◌then◌else◌,
}
use akida_dw_edma.Vchan.{VchanOps}
use akida_dw_edma.Edma.{
  req_none, req_stop, req_pause, Request, idle, busy, Desc, CoreOps, is_paused, is_req_none,
  is_idle, DmaStatus, Errno, dma_in_progress,
}
use akida_dw_edma.Edma.Transfer.Build.{linked}
use akida_dw_edma.Edma.Channel.{
  World, start_transfer, device_config, device_pause, device_resume, device_terminate_all,
  device_issue_pending, device_tx_status, on_done, done_interrupt, abort_interrupt, retire,
  set_status,
}
use akida_dw_edma.Edma.Channel.Drain.{region_sizes}
use akida_dw_edma.Edma.Channel.Stop.{ClientCall, config, pause, resume, terminate, issue, client}
use akida_dw_edma.Edma.Channel.Steps.{
  IsAccounted, Step, submits, calls, is_done, aborts, stores, starts, Reach, here, next, IsListed,
  IsSound, complete-IsListed, submit-IsListed, issue_pending-IsListed, next_desc-IsAccounted,
  start_transfer-Starts, started-IsSound,
}

module _ (v : VchanOps Desc) {H : Type 0} (core : CoreOps H) where
  open v use {
    Vc, issued, submitted, completed, next_desc, find_desc, issue_pending, write_first, complete,
    submit, next_desc_lem, issued-issue_pending, submitted-issue_pending, completed-issue_pending,
    issued-write_first, submitted-write_first, completed-write_first, issued-complete,
    submitted-complete, completed-complete, issued-submit, submitted-submit, completed-submit,
    find_desc_lem,
  }

  client-IsSound :
      (c : ClientCall) (w : World v core) → IsSound v core w → IsSound v core (client v core c w)
  unfolding client device_config device_pause device_resume device_terminate_all
      device_issue_pending
  client-IsSound (config c) w h = record { listed = h.listed }
  client-IsSound pause w h = record { listed = subst (IsListed v core) (ground arith) h.listed }
  client-IsSound resume w h =
      let Kept : Errno × World v core → Type 0 = λ r. IsSound v core r.1 in
      if-elim Kept (not w.chan.configured) (λ _. h)
        (λ _.
          if-elim Kept (not (is_paused w.chan.status)) (λ _. h)
            (λ _.
              if-elim Kept (not (is_req_none w.chan.request)) (λ _. h)
                (λ _.
                  started-IsSound v core (record w { chan = record w.chan { status = busy } })
                    h.listed)))
  client-IsSound terminate w h = record { listed = subst (IsListed v core) (ground arith) h.listed }
  client-IsSound issue w h =
      let vc' = (issue_pending w.chan.vc).0 in
      let l : IsListed v core vc' = issue_pending-IsListed v core w.chan.vc h.listed in
      if-elim (IsSound v core) (not w.chan.configured) (λ _. h)
        (λ _.
          if-elim (IsSound v core)
            ((issue_pending w.chan.vc).1 && is_req_none w.chan.request && is_idle w.chan.status)
            (λ _.
              started-IsSound v core (record w { chan = record w.chan { vc = vc'; status = busy } })
                l)
            (λ _. record { listed = l }))

  retire-IsListed :
      (d : Desc) (w : World v core)
      → next_desc w.chan.vc ≡ some d
      → IsListed v core w.chan.vc
      → IsListed v core (retire v core d w).chan.vc
  retire-IsListed d w e h =
      complete-IsListed v core d w.chan.vc (next_desc-IsAccounted v core w.chan.vc d h e) h

  -- The branch without a request ends busy or idle.
  go_on-IsSound :
      (w : World v core)
      → IsListed v core w.chan.vc
      → let (w', started) = start_transfer v core w in
        IsSound v core (set_status v core (if started then busy else idle) w')
  go_on-IsSound w h = let (l, _) = start_transfer-Starts v core w h in record { listed = l }

  on_done-IsSound :
      (r : Request) (d : Desc) (w : World v core)
      → next_desc w.chan.vc ≡ some d
      → IsSound v core w
      → IsSound v core (on_done v core r d w)
  unfolding on_done
  on_done-IsSound req_none d w e h =
      go_on-IsSound (if d.chunks_alloc == 0 then retire v core d w else w) (
        if-elim (λ (x : World v core). IsListed v core x.chan.vc) (d.chunks_alloc == 0)
          (λ _. retire-IsListed d w e h.listed) (λ _. h.listed))
  on_done-IsSound req_stop d w e h = record { listed = retire-IsListed d w e h.listed }
  on_done-IsSound req_pause d w e h = record { listed = h.listed }

  done_interrupt-IsSound :
      (w : World v core) → IsSound v core w → IsSound v core (done_interrupt v core w)
  unfolding done_interrupt
  done_interrupt-IsSound w h = by_next (next_desc w.chan.vc) refl
    where
      by_next :
          (o : Option Desc)
          → next_desc w.chan.vc ≡ o
          → IsSound v core (elim o [ none ↦ w | some d ↦ on_done v core w.chan.request d w ])
      by_next none e = h
      by_next (some d) e = on_done-IsSound w.chan.request d w e h

  abort_interrupt-IsSound :
      (w : World v core) → IsSound v core w → IsSound v core (abort_interrupt v core w)
  unfolding abort_interrupt
  abort_interrupt-IsSound w h = by_next (next_desc w.chan.vc) refl
    where
      by_next :
          (o : Option Desc)
          → next_desc w.chan.vc ≡ o
          → let w' : World v core = elim o [ none ↦ w | some d ↦ retire v core d w ] in
            IsSound v core
              (record w' { chan = record w'.chan { request = req_none; status = idle } })
      by_next none e = record { listed = h.listed }
      by_next (some d) e = record { listed = retire-IsListed d w e h.listed }

  pub Step-IsSound : {w w' : World v core} → Step v core w w' → IsSound v core w → IsSound v core w'
  Step-IsSound {w = w} (submits d a) h = record {
    listed = submit-IsListed v core d w.chan.vc a h.listed;
  }
  Step-IsSound {w = w} (calls c) h = client-IsSound c w h
  Step-IsSound {w = w} is_done h = done_interrupt-IsSound w h
  Step-IsSound {w = w} aborts h = abort_interrupt-IsSound w h
  Step-IsSound (stores st rq conf sc) h = record { listed = h.listed }
  Step-IsSound {w = w} starts h = started-IsSound v core w h.listed

  -- From a channel whose descriptors are all accounted for, however submissions, calls of clients,
  -- done interrupts, aborts, stores of the status, the request and the configuration of calls that
  -- began earlier, and starts of chunks follow each other, where a start of a chunk is not broken
  -- up: every descriptor that is submitted, issued or completed has its remaining chunks counted,
  -- and the bytes of those chunks with the bytes it counts as sent are the bytes of its transfer.
  pub Reach-IsSound :
      {w w' : World v core} → Reach v core w w' → IsSound v core w → IsSound v core w'
  Reach-IsSound here h = h
  Reach-IsSound (next r s) h = Step-IsSound s (Reach-IsSound r h)

  -- In every such state, the residue that `dw_edma_device_tx_status` stores for an issued
  -- descriptor is the number of bytes of the chunks that are not started yet, as a u32.
  pub device_tx_status-residue :
      {w w' : World v core} (status : ℕ → Vc → DmaStatus) (cookie : ℕ) (d : Desc)
      → Reach v core w w'
      → IsSound v core w
      → find_desc cookie w'.chan.vc ≡ some d
      → status cookie w'.chan.vc ≡ dma_in_progress
      → (device_tx_status v core status cookie true w'.chan).1
        ≡ some (u32 (region_sizes (linked d)))
  unfolding device_tx_status
  device_tx_status-residue {w' = w'} status cookie d r h found going =
      let a =
        find_desc_lem IsAccounted cookie w'.chan.vc d (Reach-IsSound r h).listed.issued_ok found in
      rw (going, found) (ap some (omega (arith, a.measured, a.xfer_u32)))
