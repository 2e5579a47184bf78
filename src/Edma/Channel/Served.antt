-- ===== src/Edma/Channel/Served.antt =====
-- akida-dw-edma/dw-edma-core.c: a descriptor issued on an idle channel, and the done interrupts
-- that answer it.
use akida_dw_edma.Base.{
  ℕ, ◌^◌, ◌<◌, List, [], ◌∷◌, ◌++◌, some, true, ◌≡◌, refl, sym, All, ap, ◌∙◌, arith, u32, length,
}
use akida_dw_edma.Vchan.{VchanOps}
use akida_dw_edma.Edma.{req_none, idle, busy, Chunk, Desc, CoreOps}
use akida_dw_edma.Edma.Transfer.Build.{linked}
use akida_dw_edma.Edma.Channel.{World, device_issue_pending, done_interrupt, retire}
use akida_dw_edma.Edma.Channel.Drain.{
  iterate, iterate-suc, region_sizes, start_all, Sending, next, sent, start_transfer-cons,
  sent-Sending, done_interrupt-nil, start_transfer-none, drain-Sent,
}
use akida_dw_edma.Edma.Transfer.Filled.{sizes, sizes-append, all_bursts, bursts, IsFilled, IsBuilt}

module _ (v : VchanOps Desc) {H : Type 0} (core : CoreOps H) where
  open v use {
    Vc, issued, submitted, completed, next_desc, issue_pending, write_first, complete,
    next_desc_lem, issued-issue_pending, issue_pending_lem, issued-write_first,
    completed-write_first, issued-complete, completed-complete,
  }

  -- An idle channel without a request that has been configured, and has one fresh descriptor
  -- submitted and none issued.
  pub record IsWaiting (d : Desc) (cs : List Chunk) (w : World v core) : Type 0 where
    pub configured : w.chan.configured ≡ true
    pub at_rest : w.chan.status ≡ idle
    pub no_request : w.chan.request ≡ req_none
    pub none_issued : issued w.chan.vc ≡ []
    pub one_submitted : submitted w.chan.vc ≡ d ∷ []
    pub chunked : d.chunk ≡ some cs
    pub counted : d.chunks_alloc ≡ length cs
    pub fresh : d.xfer_sz ≡ 0
    pub some_chunk : 0 < length cs
    pub small : length cs < 2 ^ 32

  -- The outcome of a transfer that was carried out: the descriptor is complete, the channel is
  -- idle, and the hardware was given the chunks in order.
  pub record IsServed (d : Desc) (cs : List Chunk) (w w' : World v core) : Type 0 where
    pub last : Desc
    pub none_left : issued w'.chan.vc ≡ []
    pub done : completed w'.chan.vc ≡ completed (issue_pending w.chan.vc).0 ++ last ∷ []
    pub whole : last.alloc_sz ≡ d.alloc_sz
    pub bytes : last.xfer_sz ≡ u32 (region_sizes cs)
    pub at_rest : w'.chan.status ≡ idle
    pub no_request : w'.chan.request ≡ req_none
    pub started : w'.hw ≡ start_all v core w.chan.dir w.chan.id 0 cs w.hw

  issue_pending-IsWaiting :
      (d : Desc) (c : Chunk) (cs : List Chunk) (w : World v core)
      → IsWaiting d (c ∷ cs) w
      → let w₁ : World v core = record w {
        chan = record w.chan { vc = (issue_pending w.chan.vc).0; status = busy };
      } in
        Sending v core d (c ∷ cs) [] w₁ × (device_issue_pending v core w ≡ sent v core d c cs w₁)
  unfolding device_issue_pending
  issue_pending-IsWaiting d c cs w u = (
    record {
      on_issue = on_issue;
      left = u.chunked;
      counted = u.counted;
      no_request = u.no_request;
    },
    rw (u.configured, pending, u.no_request, u.at_rest)
        (ap (λ r. r.0) (start_transfer-cons v core d c cs [] _ on_issue u.chunked)),
  )
    where
      on_issue : issued (issue_pending w.chan.vc).0 ≡ d ∷ []
      on_issue = issued-issue_pending w.chan.vc ∙ rw (u.none_issued, u.one_submitted)

      pending : (issue_pending w.chan.vc).1 ≡ true
      pending = issue_pending_lem w.chan.vc ∙ rw on_issue

  -- The last done interrupt, with nothing else issued.
  finished :
      (cs : List Chunk) (d : Desc) (w w' : World v core) (last : Desc)
      → Sending v core last [] [] w'
      → completed w'.chan.vc ≡ completed (issue_pending w.chan.vc).0
      → last.alloc_sz ≡ d.alloc_sz
      → last.xfer_sz ≡ u32 (region_sizes cs)
      → w'.hw ≡ start_all v core w.chan.dir w.chan.id 0 cs w.hw
      → IsServed d cs w (done_interrupt v core w')
  finished cs d w w' last s done whole bytes started =
      rw
        (
          done_interrupt-nil v core last [] w' s,
          start_transfer-none v core (retire v core last w')
              (issued-complete last w'.chan.vc ∙ rw s.on_issue),
        )
        (record {
          last = last;
          none_left = issued-complete last w'.chan.vc ∙ rw s.on_issue;
          done = completed-complete last w'.chan.vc ∙ rw done;
          whole = whole;
          bytes = bytes;
          at_rest = refl;
          no_request = s.no_request;
          started = started;
        })

  -- On a configured and idle channel without a request and with nothing issued, the one descriptor
  -- that is submitted, with all its chunks counted, at least one and fewer than 2 ^ 32, is issued
  -- and answered by one done interrupt for each chunk. Then it is complete, its chunks were started
  -- in order, each once, and the channel is idle.
  pub served :
      (d : Desc) (cs : List Chunk) (w : World v core)
      → IsWaiting d cs w
      → IsServed d cs w
          (iterate (length cs) (done_interrupt v core) (device_issue_pending v core w))
  served d [] w u = absurd (omega (arith, u.some_chunk))
  served d (c ∷ cs) w u =
      let (s₁, e) = issue_pending-IsWaiting d c cs w u in
      let s₂ = sent-Sending v core d c cs [] _ u.small s₁ in
      let r =
        drain-Sent v core cs (next v core d c cs) [] _ (omega (arith, u.small)) (omega arith) s₂ in
      rw (e, iterate-suc (length cs) (done_interrupt v core))
        (finished (c ∷ cs) d w _ r.last r.sending
          (r.done ∙ completed-write_first (next v core d c cs) (issue_pending w.chan.vc).0) r.whole
          (omega (arith, r.bytes, u.fresh)) (r.started ∙ rw u.fresh))

-- What the chunks say of their sizes adds up to the sizes of their bursts.
pub region_sizes-IsFilled :
    (m : ℕ) (cs : List Chunk)
    → All (IsFilled m) cs
    → u32 (region_sizes cs) ≡ u32 (sizes (all_bursts cs))
region_sizes-IsFilled m [] f = refl
region_sizes-IsFilled m (c ∷ cs) f =
    omega
      (arith, region_sizes-IsFilled m cs f.1, f.0.sized, sizes-append (bursts c) (all_bursts cs))

-- A descriptor as `dw_edma_device_transfer` builds it, issued as above on an idle channel and
-- answered by one done interrupt for each chunk, is the last completed one, with as many bytes
-- counted as sent as were asked for.
pub IsBuilt-served :
    (v : VchanOps Desc) {H : Type 0} (core : CoreOps H) (m : ℕ) (d : Desc) (w : World v core)
    → IsBuilt m d
    → IsWaiting v core d (linked d) w
    → let w' : World v core =
        iterate (length (linked d)) (done_interrupt v core) (device_issue_pending v core w) in
      (r : Desc) × (v.completed w'.chan.vc ≡ v.completed (v.issue_pending w.chan.vc).0 ++ r ∷ [])
      × (r.xfer_sz ≡ r.alloc_sz)
IsBuilt-served v core m d w b u =
    let s = served v core d (linked d) w u in
    (
      s.last,
      s.done,
      s.bytes ∙ region_sizes-IsFilled m (linked d) b.filled ∙ sym b.totalled ∙ sym s.whole,
    )
