-- ===== src/Edma/Channel/Stop.antt =====
-- Terminating a channel, and what a request that is never answered does to it.
use akida_dw_edma.Base.{ℕ, suc, List, [], ◌∷◌, true, false, ◌≡◌, ◌≢◌, ◌⊎◌, arith}
use akida_dw_edma.Vchan.{VchanOps}
use akida_dw_edma.Edma.{
  Request, req_none, req_stop, idle, busy, Desc, SlaveConfig, CoreOps, success, dma_complete,
}
use akida_dw_edma.Edma.Channel.{
  World, device_config, device_pause, device_resume, device_terminate_all, device_issue_pending,
  free_chan_resources,
}

-- What a client can ask of a channel.
pub data ClientCall : Type 0 where
  config : SlaveConfig → ClientCall
  pause resume terminate issue : ClientCall

module _ (v : VchanOps Desc) {H : Type 0} (core : CoreOps H) where
  open v use {Vc, issued, next_desc, next_desc_lem, issue_pending}

  unfoldable pub client : ClientCall → World v core → World v core
  client (config c) w = record w { chan = device_config c w.chan }
  client pause w = record w { chan = (device_pause w.chan).1 }
  client resume w = (device_resume v core w).1
  client terminate w = (device_terminate_all v core w).1
  client issue w = device_issue_pending v core w

  unfoldable pub clients : List ClientCall → World v core → World v core
  clients [] w = w
  clients (c ∷ cs) w = clients cs (client c w)

  -- The channel is idle, with the request `r` unanswered.
  pub record IsWedged (r : Request) (h : H) (w : World v core) : Type 0 where
    pub at_rest : w.chan.status ≡ idle
    pub asked : w.chan.request ≡ r
    pub untouched : w.hw ≡ h

  client-IsWedged :
      (r : Request) (h : H) (c : ClientCall) (w : World v core)
      → r ≢ req_none
      → IsWedged r h w
      → IsWedged r h (client c w)
  unfolding client device_config device_pause device_resume device_terminate_all
      device_issue_pending
  client-IsWedged r h (config c) w ne k = ground arith
  client-IsWedged r h pause w ne k = ground arith
  client-IsWedged r h resume w ne k = ground arith
  client-IsWedged r h terminate w ne k = ground arith
  client-IsWedged r h issue w ne k = ground arith

  clients-IsWedged :
      (r : Request) (h : H) (cs : List ClientCall) (w : World v core)
      → r ≢ req_none
      → IsWedged r h w
      → IsWedged r h (clients cs w)
  unfolding clients
  clients-IsWedged r h [] w ne k = k
  clients-IsWedged r h (c ∷ cs) w ne k =
      clients-IsWedged r h cs (client c w) ne (client-IsWedged r h c w ne k)

  -- A channel with an unanswered request whose transfer the hardware has completed, its interrupt
  -- lost, is terminated; from then on, whatever clients ask, the channel stays idle with the
  -- request pending and the hardware is not touched again.
  pub terminate_wedges :
      (w : World v core) (cs : List ClientCall)
      → w.chan.configured ≡ true
      → w.chan.status ≡ busy
      → w.chan.request ≢ req_none
      → (core.ch_status w.chan.dir w.chan.id w.hw).0 ≡ dma_complete
      → IsWedged w.chan.request
          (core.ch_status w.chan.dir w.chan.id w.hw).1
          (clients cs (device_terminate_all v core w).1)
  unfolding device_terminate_all
  terminate_wedges w cs conf st ne over = clients-IsWedged w.chan.request _ cs _ ne (ground arith)

  -- `terminate_all` never fails.
  pub terminate_all-success : (w : World v core) → (device_terminate_all v core w).0 ≡ success
  unfolding device_terminate_all
  terminate_all-success w = ground arith

  -- What a channel is after `terminate_all`: it is not configured, or it is still busy and asked
  -- to stop, the hardware having not completed.
  pub terminate_all-cases :
      (w : World v core)
      → let w' = (device_terminate_all v core w).1 in
        (w'.chan.configured ≡ false)
        ⊎ ((w'.chan.status ≡ busy)
            × (w'.chan.request ≡ req_stop)
            × ((core.ch_status w.chan.dir w.chan.id w.hw).0 ≢ dma_complete))
  unfolding device_terminate_all
  terminate_all-cases w = ground arith

  -- Releasing the channel's resources waits for nothing: it is one call of `terminate_all`.
  pub free_chan_resources_lem :
      (left : ℕ) (w : World v core)
      → free_chan_resources v core (suc left) w ≡ (device_terminate_all v core w).1
  unfolding free_chan_resources
  free_chan_resources_lem left w = rw (terminate_all-success w)
