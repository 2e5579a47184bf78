-- ===== src/Edma/Alloc.antt =====
-- akida-dw-edma/dw-edma-core.c: allocation and release of bursts, chunks and descriptors.
-- `fails n` says whether the n-th call of `kzalloc` returns NULL.
pub mod Leaks
use akida_dw_edma.Base.{
  ℕ, suc, ◌+◌, ◌-◌, ◌%◌, List, [], ◌∷◌, ◌++◌, Option, none, some, Bool, true, false, ◌==◌, sub32,
  u32, get_or, if◌then◌else◌,
}
use akida_dw_edma.Edma.{Dir, write, read, Region, Burst, Chunk, Desc, Chip, is_write}

-- The allocator as the driver sees it: how often it was asked, and how many objects are live.
pub record Heap : Type 0 where
  pub calls : ℕ
  pub live : ℕ

abbrev pub zero_burst : Burst
zero_burst = record { sar = 0; dar = 0; sz = 0 }

abbrev pub zero_region : Region
zero_region = record { paddr = 0; vaddr = 0; sz = 0 }

abbrev pub zero_desc : Desc
zero_desc = record { chunk = none; chunks_alloc = 0; alloc_sz = 0; xfer_sz = 0 }

-- The linked list memory of a channel.
unfoldable pub ll_region_of : Chip → Dir → ℕ → Region
ll_region_of chip write id = get_or chip.ll_region_wr id zero_region
ll_region_of chip read id = get_or chip.ll_region_rd id zero_region

abbrev pub kfree : Heap → Heap
kfree h = record h { live = h.live - 1 }

abbrev pub link_burst : Chunk → Chunk
link_burst c = elim c.burst [
  | some bs ↦ record c {
    burst = some (bs ++ zero_burst ∷ []);
    bursts_alloc = u32 (c.bursts_alloc + 1);
  }
  | none ↦ record c { burst = some []; bursts_alloc = 0 }
]

-- A chunk as `dw_edma_alloc_chunk` sets it up, before it is linked.
abbrev pub new_chunk : Chip → Dir → ℕ → Desc → Chunk
new_chunk chip dir id d = record {
  burst = none;
  bursts_alloc = 0;
  cb = d.chunks_alloc % 2 == 0;
  ll_region = record {
    paddr = (ll_region_of chip dir id).paddr;
    vaddr = (ll_region_of chip dir id).vaddr;
    sz = 0;
  };
}

-- The loop of `dw_edma_free_burst`, and the release of the list head behind it. On NULL the
-- source reads through the pointer; a linked chunk has its head.
unfoldable pub free_bursts : List Burst → Chunk → Heap → Chunk × Heap
free_bursts [] c h = (record c { burst = none }, kfree h)
free_bursts (b ∷ bs) c h =
    free_bursts bs (record c { bursts_alloc = sub32 c.bursts_alloc 1 }) (kfree h)

unfoldable pub free_burst : Chunk → Heap → Chunk × Heap
unfolding free_bursts
free_burst c h = elim c.burst [ some bs ↦ free_bursts bs c h | none ↦ (c, h) ]

-- The loop of `dw_edma_free_chunk`, and the release of the list head behind it.
unfoldable pub free_chunks : List Chunk → Desc → Heap → Desc × Heap
free_chunks [] d h = (record d { chunk = none }, kfree h)
free_chunks (c ∷ cs) d h =
    free_chunks cs (record d { chunks_alloc = sub32 d.chunks_alloc 1 }) (kfree (free_burst c h).1)

unfoldable pub free_chunk : Desc → Heap → Desc × Heap
free_chunk d h = elim d.chunk [ some cs ↦ free_chunks cs d h | none ↦ (d, h) ]

unfoldable pub free_desc : Desc → Heap → Heap
free_desc d h = kfree (free_chunk d h).1

module _ (fails : ℕ → Bool) where
  -- Whether the object was given, and the heap after the call.
  unfoldable pub kzalloc : Heap → Bool × Heap
  kzalloc h =
      if fails h.calls
      then (false, record h { calls = suc h.calls })
      else (true, record { calls = suc h.calls; live = suc h.live })

  -- `none` is NULL, and leaves the chunk as it was.
  unfoldable pub alloc_burst : Chunk → Heap → Option Chunk × Heap
  unfolding kzalloc
  alloc_burst c h =
      let (given, h') = kzalloc h in if given then (some (link_burst c), h') else (none, h')

  -- Links a new chunk behind those of the descriptor. `none` is NULL, and leaves the descriptor
  -- as it was.
  link_chunk : Desc → Chunk → Heap → Option Desc × Heap
  link_chunk d c h = elim d.chunk [
    | some cs ↦
        let (linked, h') = alloc_burst c h in
        elim linked [
          | some c' ↦ (
            some (record d {
              chunk = some (cs ++ c' ∷ []);
              chunks_alloc = u32 (d.chunks_alloc + 1);
            }),
            h',
          )
          | none ↦ (none, kfree h')
        ]
    | none ↦ (some (record d { chunk = some []; chunks_alloc = 0 }), h)
  ]

  unfoldable pub alloc_chunk : Chip → Dir → ℕ → Desc → Heap → Option Desc × Heap
  unfolding link_chunk
  alloc_chunk chip dir id d h =
      let (given, h') = kzalloc h in
      if given then link_chunk d (new_chunk chip dir id d) h' else (none, h')

  unfoldable pub alloc_desc : Chip → Dir → ℕ → Heap → Option Desc × Heap
  alloc_desc chip dir id h =
      let (given, h₁) = kzalloc h in
      let (made, h₂) = alloc_chunk chip dir id zero_desc h₁ in
      if given then elim made [ some d ↦ (some d, h₂) | none ↦ (none, kfree h₂) ] else (none, h₁)
