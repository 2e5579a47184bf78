-- ===== src/Edma/Channel/Unfinished.antt =====
-- akida-dw-edma/dw-edma-core.c: what becomes of a descriptor whose transfer does not end by itself.
use akida_dw_edma.Base.{[], ◌∷◌, ◌++◌, some, true, ◌≡◌, ◌≢◌, refl, ap, ◌∙◌, arith}
use akida_dw_edma.Vchan.{VchanOps}
use akida_dw_edma.Edma.{req_none, req_stop, idle, busy, Desc, CoreOps, dma_complete}
use akida_dw_edma.Edma.Channel.{
  World, device_terminate_all, on_done, done_interrupt, abort_interrupt, retire,
}

module _ (v : VchanOps Desc) {H : Type 0} (core : CoreOps H) where
  open v use {completed, next_desc, completed-complete}

  -- The descriptor is the last completed one, and the channel idle without a request.
  pub record IsOver (d : Desc) (before after : World v core) : Type 0 where
    pub done : completed after.chan.vc ≡ completed before.chan.vc ++ d ∷ []
    pub at_rest : after.chan.status ≡ idle
    pub no_request : after.chan.request ≡ req_none

  -- Terminating a channel whose hardware still runs asks it to stop.
  stop_requested :
      (w : World v core)
      → w.chan.configured ≡ true
      → w.chan.status ≡ busy
      → (core.ch_status w.chan.dir w.chan.id w.hw).0 ≢ dma_complete
      → let w' = (device_terminate_all v core w).1 in
        (w'.chan.request ≡ req_stop) × (w'.chan.vc ≡ w.chan.vc)
  unfolding device_terminate_all
  stop_requested w conf st runs = ground arith

  -- The first descriptor is completed, and the channel at rest.
  abbrev ended : Desc → World v core → World v core
  ended d w =
      let w₁ = retire v core d w in
      record w₁ { chan = record w₁.chan { request = req_none; status = idle } }

  ended-IsOver :
      (d : Desc) (w w' after : World v core)
      → after ≡ ended d w'
      → w'.chan.vc ≡ w.chan.vc
      → IsOver d w after
  ended-IsOver d w w' after e same = record {
    done =
        ap (λ (x : World v core). completed x.chan.vc) e
        ∙ completed-complete d w'.chan.vc
        ∙ ap (λ vc. completed vc ++ d ∷ []) same;
    at_rest = ap (λ (x : World v core). x.chan.status) e;
    no_request = ap (λ (x : World v core). x.chan.request) e;
  }

  done_interrupt-stopped :
      (d : Desc) (w : World v core)
      → next_desc w.chan.vc ≡ some d
      → w.chan.request ≡ req_stop
      → done_interrupt v core w ≡ ended d w
  unfolding done_interrupt on_done
  done_interrupt-stopped d w found asked = rw (found, asked, done_interrupt) refl

  abort_interrupt-some :
      (d : Desc) (w : World v core)
      → next_desc w.chan.vc ≡ some d
      → abort_interrupt v core w ≡ ended d w
  unfolding abort_interrupt
  abort_interrupt-some d w found = rw found refl

  -- A descriptor in progress on a configured, busy channel becomes a completed one like any that
  -- was carried out, with its callback due: by the done interrupt that follows a termination, where
  -- the hardware had not completed, and by an abort interrupt.
  pub unfinished_completes :
      (d : Desc) (w : World v core)
      → w.chan.configured ≡ true
      → w.chan.status ≡ busy
      → (core.ch_status w.chan.dir w.chan.id w.hw).0 ≢ dma_complete
      → next_desc w.chan.vc ≡ some d
      → IsOver d w (done_interrupt v core (device_terminate_all v core w).1)
        × IsOver d w (abort_interrupt v core w)
  unfinished_completes d w conf st runs first =
      let w' = (device_terminate_all v core w).1 in
      let (asked, same) = stop_requested w conf st runs in
      (
        ended-IsOver d w w' _ (done_interrupt-stopped d w' (ap next_desc same ∙ first) asked) same,
        ended-IsOver d w w _ (abort_interrupt-some d w first) refl,
      )
