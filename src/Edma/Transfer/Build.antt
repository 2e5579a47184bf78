-- ===== src/Edma/Transfer/Build.antt =====
-- akida-dw-edma/dw-edma-core.c: how `dw_edma_device_transfer` fills chunks with bursts.
use akida_dw_edma.Base.{
  ℕ, zero, suc, ◌+◌, List, [], Option, none, some, Bool, true, false, ◌&&◌, ◌==◌, u32, u64,
  is_empty, last_or, ◌≡◌, refl, arith, update_last, if◌then◌else◌,
}
use akida_dw_edma.Vchan.{VchanOps}
use akida_dw_edma.Edma.{Dir, Burst, Chunk, Desc, Chip, Chan, SlaveConfig, XferDirection}
use akida_dw_edma.Edma.Alloc.{Heap, zero_region, alloc_burst, alloc_chunk, alloc_desc, free_desc}
use akida_dw_edma.Edma.Transfer.{
  SgEntry, DataChunk, Template, Xfer, scatter_gather, cyclic, interleaved, EdmaTransfer, is_sg,
  Cursor, burst_at, start_cursor, burst_count, advance, is_accepted,
}

-- The burst that was linked last is filled, and its size counted.
abbrev pub fill_burst : Burst → Chunk → Chunk
fill_burst b c = record c {
  burst = elim c.burst [ none ↦ none | some bs ↦ some (update_last (λ _. b) bs) ];
  ll_region = record c.ll_region { sz = u64 (c.ll_region.sz + b.sz) };
}

abbrev pub linked : Desc → List Chunk
linked d = elim d.chunk [ none ↦ [] | some cs ↦ cs ]

abbrev pub empty_chunk : Chunk
empty_chunk = record { burst = none; bursts_alloc = 0; cb = false; ll_region = zero_region }

-- The chunk to which the variable `chunk` points: the one linked last.
abbrev pub current : Desc → Chunk
current d = last_or empty_chunk (linked d)

abbrev pub set_current : Chunk → Desc → Desc
set_current c d = record d { chunk = some (update_last (λ _. c) (linked d)) }

-- `if (chunk->bursts_alloc == chan->ll_max) chunk = dw_edma_alloc_chunk(desc);`
unfoldable pub ensure_room : (ℕ → Bool) → Chip → Dir → ℕ → ℕ → Desc → Heap → Option Desc × Heap
ensure_room fails chip dir id ll_max d h =
    if (current d).bursts_alloc == ll_max then alloc_chunk fails chip dir id d h else (some d, h)

-- `burst = dw_edma_alloc_burst(chunk);` and the writes to the burst, the chunk and `alloc_sz`.
unfoldable pub add_burst : (ℕ → Bool) → Burst → Desc → Heap → Option Desc × Heap
add_burst fails b d h =
    let (grown, h') = alloc_burst fails (current d) h in
    elim grown [
      | none ↦ (none, h')
      | some c ↦ (
        some (set_current (fill_burst b c) (record d { alloc_sz = u32 (d.alloc_sz + b.sz) })),
        h',
      )
    ]

unfoldable pub after_burst : Desc → Option Desc × Heap → Bool × Desc × Heap
after_burst d (none, h) = (false, d, h)
after_burst d (some d', h) = (true, d', h)

unfoldable pub after_room : (ℕ → Bool) → Burst → Desc → Option Desc × Heap → Bool × Desc × Heap
after_room fails b d (none, h) = (false, d, h)
after_room fails b d (some d', h) = after_burst d' (add_burst fails b d' h)

-- One round: whether both allocations succeeded, and the descriptor after it.
unfoldable pub round : (ℕ → Bool) → Chip → Dir → ℕ → ℕ → Burst → Desc → Heap → Bool × Desc × Heap
unfolding after_room after_burst
round fails chip dir id ll_max b d h =
    after_room fails b d (ensure_room fails chip dir id ll_max d h)

after_burst-true :
    (d : Desc) (r : Option Desc × Heap) {d' : Desc} {h' : Heap}
    → after_burst d r ≡ (true, d', h')
    → r ≡ (some d', h')
unfolding after_burst
after_burst-true d (none, h) e = ground arith
after_burst-true d (some x, h) e = ground arith

after_room-true :
    (fails : ℕ → Bool) (b : Burst) (d : Desc) (r : Option Desc × Heap) {d' : Desc} {h' : Heap}
    → after_room fails b d r ≡ (true, d', h')
    → (x : Desc) × (y : Heap) × (r ≡ (some x, y)) × (add_burst fails b x y ≡ (some d', h'))
unfolding after_room
after_room-true fails b d (none, h) e = ground arith
after_room-true fails b d (some x, h) e = (x, h, refl, after_burst-true x _ e)

-- A round that succeeds made room and then added the burst.
pub round-true :
    (fails : ℕ → Bool) (chip : Chip) (dir : Dir) (id ll_max : ℕ) (b : Burst) (d : Desc) (h : Heap)
    {d' : Desc} {h' : Heap}
    → round fails chip dir id ll_max b d h ≡ (true, d', h')
    → (x : Desc) × (y : Heap) × (ensure_room fails chip dir id ll_max d h ≡ (some x, y))
      × (add_burst fails b x y ≡ (some d', h'))
unfolding round
round-true fails chip dir id ll_max b d h e = after_room-true fails b d _ e

module _ (src_icg dst_icg : Template → DataChunk → ℕ) (fails : ℕ → Bool) (chip : Chip) where
  -- The loop, with `n` rounds left and `i` done. `false` is the jump to `err_alloc`.
  unfoldable pub fill_loop :
      Dir → ℕ → ℕ → Xfer → XferDirection → ℕ → ℕ → Cursor → Desc → Heap → Bool × Desc × Heap
  fill_loop cdir id ll_max x dir zero i c d h = (true, d, h)
  fill_loop cdir id ll_max x dir (suc n) i c d h =
      let (added, d', h') = round fails chip cdir id ll_max (burst_at x dir i c) d h in
      let more =
        fill_loop cdir id ll_max x dir n (suc i) (advance src_icg dst_icg x dir i c) d' h' in
      if is_sg x && is_empty c.sg then (true, d, h) else (if added then more else (false, d', h'))

  unfoldable pub finish : Bool × Desc × Heap → Option Desc × Heap
  finish (true, d, h) = (some d, h)
  finish (false, d, h) = (none, free_desc d h)

  unfoldable pub fill_first :
      Dir → ℕ → ℕ → Xfer → XferDirection → Cursor → Desc → Option Desc × Heap → Option Desc × Heap
  fill_first cdir id ll_max x dir c d (none, h) = (none, free_desc d h)
  fill_first cdir id ll_max x dir c d (some d', h) =
      finish (fill_loop cdir id ll_max x dir (burst_count x) 0 c d' h)

  unfoldable pub build_from :
      Dir → ℕ → ℕ → Xfer → XferDirection → Cursor → Option Desc × Heap → Option Desc × Heap
  build_from cdir id ll_max x dir c (none, h) = (none, h)
  build_from cdir id ll_max x dir c (some d, h) =
      fill_first cdir id ll_max x dir c d (alloc_chunk fails chip cdir id d h)

  -- The descriptor is allocated with its list head, then the first chunk; then the loop runs, and
  -- an allocation that fails anywhere frees everything.
  unfoldable pub build_desc :
      Dir → ℕ → ℕ → SlaveConfig → Xfer → XferDirection → Heap → Option Desc × Heap
  unfolding build_from fill_first finish
  build_desc cdir id ll_max config x dir h =
      build_from cdir id ll_max x dir (start_cursor chip config x dir)
        (alloc_desc fails chip cdir id h)

  finish-some :
      (r : Bool × Desc × Heap) {d : Desc} {h : Heap} → finish r ≡ (some d, h) → r ≡ (true, d, h)
  unfolding finish
  finish-some (true, d, h) e = ground arith
  finish-some (false, d, h) e = ground arith

  module _ (cdir : Dir) (id ll_max : ℕ) (x : Xfer) (dir : XferDirection) (c : Cursor) where
    fill_first-some :
        (d₁ : Desc) (r : Option Desc × Heap) {d : Desc} {h : Heap}
        → fill_first cdir id ll_max x dir c d₁ r ≡ (some d, h)
        → (d₂ : Desc) × (h₂ : Heap) × (r ≡ (some d₂, h₂))
          × (fill_loop cdir id ll_max x dir (burst_count x) 0 c d₂ h₂ ≡ (true, d, h))
    unfolding fill_first
    fill_first-some d₁ (none, h) e = ground arith
    fill_first-some d₁ (some d₂, h₂) e = (d₂, h₂, refl, finish-some _ e)

    -- The stages of a descriptor that is built.
    pub build_from-some :
        (r : Option Desc × Heap) {d : Desc} {h : Heap}
        → build_from cdir id ll_max x dir c r ≡ (some d, h)
        → (d₁ : Desc) × (h₁ : Heap) × (d₂ : Desc) × (h₂ : Heap) × (r ≡ (some d₁, h₁))
          × (alloc_chunk fails chip cdir id d₁ h₁ ≡ (some d₂, h₂))
          × (fill_loop cdir id ll_max x dir (burst_count x) 0 c d₂ h₂ ≡ (true, d, h))
    unfolding build_from
    build_from-some (none, h) e = ground arith
    build_from-some (some d₁, h₁) e =
        let (d₂, h₂, made, filled) = fill_first-some d₁ _ e in (d₁, h₁, d₂, h₂, refl, made, filled)

  module _ (v : VchanOps Desc) where
    open v use {Vc, tx_prep}

    unfoldable pub queued : Chan Vc → Option Desc × Heap → Option Desc × Chan Vc × Heap
    queued ch (none, h) = (none, ch, h)
    queued ch (some d, h) = (some d, record ch { vc = tx_prep d ch.vc }, h)

    -- `dw_edma_device_transfer`: the descriptor that it returns, `none` for NULL, with the
    -- channel and the heap after the call.
    unfoldable pub device_transfer : Chan Vc → EdmaTransfer → Heap → Option Desc × Chan Vc × Heap
    unfolding queued
    device_transfer ch t h =
        if is_accepted chip ch t
        then queued ch (build_desc ch.dir ch.id ch.ll_max ch.config t.xfer t.direction h)
        else (none, ch, h)

    unfoldable pub prep_slave_sg :
        Chan Vc → List SgEntry → ℕ → XferDirection → ℕ → Heap → Option Desc × Chan Vc × Heap
    prep_slave_sg ch sgl len dir flags h =
        device_transfer ch
          (record { xfer = scatter_gather sgl len; direction = dir; flags = flags }) h

    unfoldable pub prep_dma_cyclic :
        Chan Vc → ℕ → ℕ → ℕ → XferDirection → ℕ → Heap → Option Desc × Chan Vc × Heap
    prep_dma_cyclic ch paddr len count dir flags h =
        device_transfer ch
          (record { xfer = cyclic paddr len count; direction = dir; flags = flags }) h

    unfoldable pub prep_interleaved_dma :
        Chan Vc → Template → ℕ → Heap → Option Desc × Chan Vc × Heap
    prep_interleaved_dma ch il flags h =
        device_transfer ch (record { xfer = interleaved il; direction = il.dir; flags = flags }) h
