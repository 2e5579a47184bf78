-- ===== src/Edma/Channel/Drain.antt =====
-- akida-dw-edma/dw-edma-core.c: the done interrupts while the first issued descriptor is being
-- sent.
use akida_dw_edma.Base.{
  ℕ, zero, suc, ◌+◌, ◌^◌, ◌<◌, List, [], ◌∷◌, some, true, false, ◌≡◌, refl, sym, subst, ◌∙◌, arith,
  u32, sub32, length, ◌==◌, if◌then◌else◌,
}
use akida_dw_edma.Vchan.{VchanOps}
use akida_dw_edma.Edma.{Dir, req_none, idle, busy, Chunk, Desc, CoreOps}
use akida_dw_edma.Edma.Alloc.{kfree, free_burst}
use akida_dw_edma.Edma.Transfer.Build.{linked}
use akida_dw_edma.Edma.Channel.{
  World, start_chunk, start_transfer, on_done, done_interrupt, retire, set_status,
}

abbrev pub iterate {ℓ} : {A : Type ℓ} → ℕ → (A → A) → A → A
iterate zero f a = a
iterate (suc n) f a = iterate n f (f a)

pub iterate-suc {ℓ} :
    {A : Type ℓ} (n : ℕ) (f : A → A) (a : A) → iterate n f (f a) ≡ f (iterate n f a)
iterate-suc zero f a = refl
iterate-suc (suc n) f a = iterate-suc n f (f a)

-- The bytes of some chunks.
abbrev pub region_sizes : List Chunk → ℕ
region_sizes [] = 0
region_sizes (c ∷ cs) = c.ll_region.sz + region_sizes cs

module _ (v : VchanOps Desc) {H : Type 0} (core : CoreOps H) where
  open v use {
    Vc, issued, submitted, completed, next_desc, issue_pending, write_first, complete,
    next_desc_lem, issued-issue_pending, issue_pending_lem, issued-write_first,
    completed-write_first, issued-complete, completed-complete,
  }

  -- The hardware after some chunks were started in order, `sent` bytes of the descriptor having
  -- gone before: each is the first one as long as nothing was sent.
  abbrev pub start_all : Dir → ℕ → ℕ → List Chunk → H → H
  start_all dir id sent [] h = h
  start_all dir id sent (c ∷ cs) h =
      start_all dir id (u32 (sent + c.ll_region.sz)) cs (core.start dir id c (sent == 0) h)

  -- The channel sends the descriptor `d`, of which the chunks `cs` are left, with `ds` behind it.
  pub record Sending (d : Desc) (cs : List Chunk) (ds : List Desc) (w : World v core) : Type 0 where
    pub on_issue : issued w.chan.vc ≡ d ∷ ds
    pub left : d.chunk ≡ some cs
    pub counted : d.chunks_alloc ≡ length cs
    pub no_request : w.chan.request ≡ req_none

  abbrev pub next : Desc → Chunk → List Chunk → Desc
  next d c cs = record d {
    chunk = some cs;
    chunks_alloc = sub32 d.chunks_alloc 1;
    xfer_sz = u32 (d.xfer_sz + c.ll_region.sz);
  }

  -- The world after the first chunk `c` of `d` was started.
  abbrev pub sent : Desc → Chunk → List Chunk → World v core → World v core
  sent d c cs w = record {
    chan = record w.chan { vc = write_first (next d c cs) w.chan.vc };
    hw = core.start w.chan.dir w.chan.id c (d.xfer_sz == 0) w.hw;
    heap = kfree (free_burst c w.heap).1;
  }

  start_transfer-next :
      (d : Desc) (w : World v core)
      → next_desc w.chan.vc ≡ some d
      → start_transfer v core w ≡ start_chunk v core d (linked d) w
  unfolding start_transfer
  start_transfer-next d w e = rw (e, start_transfer)

  pub start_transfer-cons :
      (d : Desc) (c : Chunk) (cs : List Chunk) (ds : List Desc) (w : World v core)
      → issued w.chan.vc ≡ d ∷ ds
      → d.chunk ≡ some (c ∷ cs)
      → start_transfer v core w ≡ (sent d c cs w, true)
  unfolding start_chunk
  start_transfer-cons d c cs ds w e q =
      start_transfer-next d w (next_desc_lem w.chan.vc ∙ rw e) ∙ rw (q, linked)

  pub sent-Sending :
      (d : Desc) (c : Chunk) (cs : List Chunk) (ds : List Desc) (w : World v core)
      → length (c ∷ cs) < 2 ^ 32
      → Sending d (c ∷ cs) ds w
      → Sending (next d c cs) cs ds (sent d c cs w)
  sent-Sending d c cs ds w small s = record {
    on_issue = issued-write_first (next d c cs) w.chan.vc ∙ rw s.on_issue;
    left = refl;
    counted = omega (arith, s.counted);
    no_request = s.no_request;
  }

  done_interrupt-next :
      (d : Desc) (ds : List Desc) (w : World v core)
      → issued w.chan.vc ≡ d ∷ ds
      → w.chan.request ≡ req_none
      → done_interrupt v core w ≡ on_done v core req_none d w
  unfolding done_interrupt
  done_interrupt-next d ds w e q = rw (next_desc_lem w.chan.vc, e, done_interrupt, q)

  -- A done interrupt with chunks left starts the next one.
  pub done_interrupt-cons :
      (d : Desc) (c : Chunk) (cs : List Chunk) (ds : List Desc) (w : World v core)
      → Sending d (c ∷ cs) ds w
      → done_interrupt v core w ≡ set_status v core busy (sent d c cs w)
  unfolding on_done
  done_interrupt-cons d c cs ds w s =
      let more : (d.chunks_alloc == 0) ≡ false = ground (arith, s.counted) in
      done_interrupt-next d ds w s.on_issue s.no_request
      ∙ rw (more, start_transfer-cons d c cs ds w s.on_issue s.left)

  -- The done interrupt behind the last chunk completes the descriptor, and starts the next one.
  pub done_interrupt-nil :
      (d : Desc) (ds : List Desc) (w : World v core)
      → Sending d [] ds w
      → done_interrupt v core w ≡ (
          let (w', started) = start_transfer v core (retire v core d w) in
          set_status v core (if started then busy else idle) w')
  unfolding on_done
  done_interrupt-nil d ds w s = done_interrupt-next d ds w s.on_issue s.no_request ∙ rw s.counted

  pub start_transfer-none :
      (w : World v core) → issued w.chan.vc ≡ [] → start_transfer v core w ≡ (w, false)
  unfolding start_transfer
  start_transfer-none w e = rw (next_desc_lem w.chan.vc, e, start_transfer)

  -- What is known when the chunks `cs` of `d` were sent, one for each done interrupt.
  pub record Sent (d : Desc) (cs : List Chunk) (ds : List Desc) (w w' : World v core) : Type 0 where
    pub last : Desc
    pub sending : Sending last [] ds w'
    pub whole : last.alloc_sz ≡ d.alloc_sz
    pub bytes : last.xfer_sz ≡ u32 (d.xfer_sz + region_sizes cs)
    pub started : w'.hw ≡ start_all w.chan.dir w.chan.id d.xfer_sz cs w.hw
    pub done : completed w'.chan.vc ≡ completed w.chan.vc
    pub same_dir : w'.chan.dir ≡ w.chan.dir
    pub same_id : w'.chan.id ≡ w.chan.id

  pub drain-Sent :
      (cs : List Chunk) (d : Desc) (ds : List Desc) (w : World v core)
      → length cs < 2 ^ 32
      → d.xfer_sz < 2 ^ 32
      → Sending d cs ds w
      → Sent d cs ds w (iterate (length cs) (done_interrupt v core) w)
  drain-Sent [] d ds w small fits s = record {
    last = d;
    sending = s;
    whole = refl;
    bytes = omega arith;
    started = refl;
    done = refl;
    same_dir = refl;
    same_id = refl;
  }
  drain-Sent (c ∷ cs) d ds w small fits s =
      let w₁ : World v core = set_status v core busy (sent d c cs w) in
      let s₁ : Sending (next d c cs) cs ds w₁ = keep (sent-Sending d c cs ds w small s) in
      let r = drain-Sent cs (next d c cs) ds w₁ (omega arith) (omega arith) s₁ in
      subst (λ x. Sent d (c ∷ cs) ds w (iterate (length cs) (done_interrupt v core) x))
        (sym (done_interrupt-cons d c cs ds w s))
        (record {
          last = r.last;
          sending = r.sending;
          whole = r.whole;
          bytes = omega (arith, r.bytes);
          started = r.started;
          done = r.done ∙ completed-write_first (next d c cs) w.chan.vc;
          same_dir = r.same_dir;
          same_id = r.same_id;
        })
    where
      keep :
          Sending (next d c cs) cs ds (sent d c cs w)
          → Sending (next d c cs) cs ds (set_status v core busy (sent d c cs w))
      keep t = record {
        on_issue = t.on_issue;
        left = t.left;
        counted = t.counted;
        no_request = t.no_request;
      }
