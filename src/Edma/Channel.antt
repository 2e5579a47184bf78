-- ===== src/Edma/Channel.antt =====
-- akida-dw-edma/dw-edma-core.c: the operations on a channel once it is set up. Each takes the
-- channel, the hardware and the allocator, and returns them as it leaves them. Each runs
-- to its end; which of them hold the channel's lock is of no account here.
pub mod Drain
pub mod Served
pub mod Pause
pub mod Stop
pub mod Unfinished
pub mod Steps
use akida_dw_edma.Base.{
  ℕ, zero, suc, ◌+◌, List, [], ◌∷◌, Option, none, some, Bool, true, false, not, ◌&&◌, ◌==◌, u32,
  sub32, if◌then◌else◌,
}
use akida_dw_edma.Vchan.{VchanOps}
use akida_dw_edma.Edma.{
  Dir, write, read, Request, req_none, req_stop, req_pause, Status, idle, paused, busy, Chunk, Desc,
  Chip, Chan, SlaveConfig, CoreOps, Errno, success, is_success, eperm, ebusy, DmaStatus,
  dma_complete, dma_in_progress, dma_paused, XferDirection, dev_to_mem, mem_to_dev, is_write,
  is_read, is_req_none, is_idle, is_paused, is_busy, is_complete, is_in_progress, is_local,
}
use akida_dw_edma.Edma.Alloc.{Heap, kfree, free_burst}
use akida_dw_edma.Edma.Transfer.Build.{linked}

-- `dw_edma_device_caps`: the direction in the capabilities.
unfoldable pub device_caps : {V : Type 0} → Chip → Chan V → XferDirection
device_caps chip ch =
    if is_local chip
    then (if is_read ch.dir then dev_to_mem else mem_to_dev)
    else (if is_write ch.dir then dev_to_mem else mem_to_dev)

-- `dw_edma_alloc_chan_resources`
unfoldable pub alloc_chan_resources : {V : Type 0} → Chan V → Errno
alloc_chan_resources ch = if is_idle ch.status then success else ebusy

-- `dw_edma_device_config`, which takes no lock
unfoldable pub device_config : {V : Type 0} → SlaveConfig → Chan V → Chan V
device_config config ch = record ch { config = config; configured = true }

-- `dw_edma_device_pause`, which takes no lock
unfoldable pub device_pause : {V : Type 0} → Chan V → Errno × Chan V
device_pause ch =
    if not ch.configured
    then (eperm, ch)
    else (if not (is_busy ch.status)
        then (eperm, ch)
        else (if not (is_req_none ch.request)
            then (eperm, ch)
            else (success, record ch { request = req_pause })))

-- The comparison `chan->request > EDMA_REQ_PAUSE` by the numbers of the enumeration.
abbrev pub above_pause : Request → Bool
above_pause req_none = false
above_pause req_stop = false
above_pause req_pause = false

module _ (v : VchanOps Desc) {H : Type 0} (core : CoreOps H) where
  open v use {Vc, next_desc, find_desc, issue_pending, write_first, complete}

  pub record World : Type 0 where
    pub chan : Chan Vc
    pub hw : H
    pub heap : Heap

  -- The first chunk of the descriptor goes to the hardware and is freed.
  unfoldable pub start_chunk : Desc → List Chunk → World → World × Bool
  start_chunk d [] w = (w, false)
  start_chunk d (child ∷ cs) w =
      let d' = record d {
        chunk = some cs;
        chunks_alloc = sub32 d.chunks_alloc 1;
        xfer_sz = u32 (d.xfer_sz + child.ll_region.sz);
      } in
      (
        record {
          chan = record w.chan { vc = write_first d' w.chan.vc };
          hw = core.start w.chan.dir w.chan.id child (d.xfer_sz == 0) w.hw;
          heap = kfree (free_burst child w.heap).1;
        },
        true,
      )

  -- `dw_edma_start_transfer`: whether a chunk was started.
  unfoldable pub start_transfer : World → World × Bool
  unfolding start_chunk
  start_transfer w = elim (next_desc w.chan.vc) [
    | none ↦ (w, false)
    | some d ↦ start_chunk d (linked d) w
  ]

  -- `dw_edma_device_resume`, which takes no lock
  unfoldable pub device_resume : World → Errno × World
  device_resume w =
      let ch = w.chan in
      if not ch.configured
      then (eperm, w)
      else (if not (is_paused ch.status)
          then (eperm, w)
          else (if not (is_req_none ch.request)
              then (eperm, w)
              else (success, (start_transfer (record w { chan = record ch { status = busy } })).0)))

  -- `dw_edma_device_terminate_all`, which takes no lock
  unfoldable pub device_terminate_all : World → Errno × World
  device_terminate_all w =
      let ch = w.chan in
      let (st, hw') = core.ch_status ch.dir ch.id w.hw in
      let w' = record w { hw = hw' } in
      if not ch.configured
      then (success, w)
      else (if is_paused ch.status
          then (success, record w { chan = record ch { status = idle; configured = false } })
          else (if is_idle ch.status
              then (success, record w { chan = record ch { configured = false } })
              else (if is_complete st
                  then (
                    success,
                    record w' { chan = record ch { status = idle; configured = false } },
                  )
                  else (if above_pause ch.request
                      then (eperm, w')
                      else (success, record w' { chan = record ch { request = req_stop } })))))

  -- `dw_edma_device_issue_pending`
  unfoldable pub device_issue_pending : World → World
  device_issue_pending w =
      let (vc', pending) = issue_pending w.chan.vc in
      let ch = record w.chan { vc = vc' } in
      if not w.chan.configured
      then w
      else (if pending && is_req_none ch.request && is_idle ch.status
          then (start_transfer (record w { chan = record ch { status = busy } })).0
          else record w { chan = ch })

  -- `dw_edma_device_tx_status`: the status, and the residue if one is stored. `cookie_status`
  -- stands for `dma_cookie_status`, and the flag says whether the caller passed a `txstate`.
  unfoldable pub device_tx_status : (ℕ → Vc → DmaStatus) → ℕ → Bool → Chan Vc → DmaStatus × Option ℕ
  device_tx_status cookie_status cookie wanted ch =
      let ret = cookie_status cookie ch.vc in
      let ret' = if is_in_progress ret && is_paused ch.status then dma_paused else ret in
      let residue : ℕ = elim (find_desc cookie ch.vc) [
        | none ↦ 0
        | some d ↦ sub32 d.alloc_sz d.xfer_sz
      ] in
      if is_complete ret
      then (ret, none)
      else (if wanted then (ret', some residue) else (ret', none))

  -- The first descriptor is taken off the issued list and marked complete.
  abbrev pub retire : Desc → World → World
  retire d w = record w { chan = record w.chan { vc = complete d w.chan.vc } }

  abbrev pub set_status : Status → World → World
  set_status s w = record w { chan = record w.chan { status = s } }

  -- The `switch` of `dw_edma_done_interrupt`.
  unfoldable pub on_done : Request → Desc → World → World
  on_done req_none d w =
      let w₁ = if d.chunks_alloc == 0 then retire d w else w in
      let (w₂, started) = start_transfer w₁ in set_status (if started then busy else idle) w₂
  on_done req_stop d w =
      let w₁ = retire d w in
      record w₁ { chan = record w₁.chan { request = req_none; status = idle } }
  on_done req_pause d w = record w { chan = record w.chan { request = req_none; status = paused } }

  -- `dw_edma_done_interrupt`
  unfoldable pub done_interrupt : World → World
  unfolding on_done
  done_interrupt w = elim (next_desc w.chan.vc) [ none ↦ w | some d ↦ on_done w.chan.request d w ]

  -- `dw_edma_abort_interrupt`; the request and the status are stored after the lock is given back.
  unfoldable pub abort_interrupt : World → World
  abort_interrupt w =
      let w' : World = elim (next_desc w.chan.vc) [ none ↦ w | some d ↦ retire d w ] in
      record w' { chan = record w'.chan { request = req_none; status = idle } }

  -- `dw_edma_free_chan_resources`: `clock` is what `time_before(jiffies, timeout)` answers, one
  -- answer for each round, until the timeout.
  unfoldable pub free_chan_resources : ℕ → World → World
  free_chan_resources zero w = w
  free_chan_resources (suc left) w =
      let (err, w') = device_terminate_all w in
      let again = free_chan_resources left w' in if is_success err then w' else again
