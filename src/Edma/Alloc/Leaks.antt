-- ===== src/Edma/Alloc/Leaks.antt =====
-- akida-dw-edma/dw-edma-core.c: the objects that a descriptor holds, and the accounts of the
-- allocator.
use akida_dw_edma.Base.{
  ℕ, suc, ◌+◌, ◌-◌, ◌<◌, List, [], ◌∷◌, ◌++◌, Option, none, some, Bool, ◌≡◌, refl, arith, sub32,
  length,
}
use akida_dw_edma.Edma.{Dir, Burst, Chunk, Desc, Chip}
use akida_dw_edma.Edma.Alloc.{
  Heap, kfree, zero_desc, link_burst, new_chunk, kzalloc, alloc_burst, alloc_chunk, alloc_desc,
  free_bursts, free_burst, free_chunks, free_chunk, free_desc,
}

-- The objects that a chunk consists of: itself, and the list head with the bursts behind it.
abbrev pub chunk_weight : Chunk → ℕ
chunk_weight c = elim c.burst [ none ↦ 1 | some bs ↦ suc (suc (length bs)) ]

abbrev pub chunks_weight : List Chunk → ℕ
chunks_weight [] = 0
chunks_weight (c ∷ cs) = chunk_weight c + chunks_weight cs

-- The objects that a descriptor consists of.
abbrev pub weight : Desc → ℕ
weight d = elim d.chunk [ none ↦ 1 | some cs ↦ suc (suc (chunks_weight cs)) ]

free_bursts-live :
    (bs : List Burst) (c : Chunk) (h : Heap)
    → (free_bursts bs c h).1.live ≡ h.live - suc (length bs)
unfolding free_bursts
free_bursts-live [] c h = omega arith
free_bursts-live (b ∷ bs) c h =
    omega (arith, free_bursts-live bs _ (record h { live = h.live - 1 }))

-- All of a chunk but itself.
free_burst-live : (c : Chunk) (h : Heap) → (free_burst c h).1.live ≡ h.live - (chunk_weight c - 1)
unfolding free_burst
free_burst-live c h = by_burst c.burst refl
  where
    by_burst :
        (o : Option (List Burst))
        → c.burst ≡ o
        → (free_burst c h).1.live ≡ h.live - (chunk_weight c - 1)
    by_burst none e = rw (e, free_burst, chunk_weight) (omega arith)
    by_burst (some bs) e = rw (e, free_burst, chunk_weight) (omega (arith, free_bursts-live bs c h))

chunk_weight-pos : (c : Chunk) → 0 < chunk_weight c
chunk_weight-pos c = ground arith

free_chunks-live :
    (cs : List Chunk) (d : Desc) (h : Heap)
    → (free_chunks cs d h).1.live ≡ h.live - suc (chunks_weight cs)
unfolding free_chunks
free_chunks-live [] d h = omega arith
free_chunks-live (c ∷ cs) d h = omega (
  arith,
  free_chunks-live cs (record d { chunks_alloc = sub32 d.chunks_alloc 1 })
      (kfree (free_burst c h).1),
  free_burst-live c h,
  chunk_weight-pos c,
)

-- Freeing a descriptor gives back every object that it consists of.
pub free_desc-live : (d : Desc) (h : Heap) → (free_desc d h).live ≡ h.live - weight d
unfolding free_desc free_chunk
free_desc-live d h = by_chunk d.chunk refl
  where
    by_chunk : (o : Option (List Chunk)) → d.chunk ≡ o → (free_desc d h).live ≡ h.live - weight d
    by_chunk none e = rw (e, free_chunk, weight) (omega arith)
    by_chunk (some cs) e = rw (e, free_chunk, weight) (omega (arith, free_chunks-live cs d h))

chunks_weight-append :
    (xs ys : List Chunk) → chunks_weight (xs ++ ys) ≡ chunks_weight xs + chunks_weight ys
chunks_weight-append [] ys = omega arith
chunks_weight-append (x ∷ xs) ys = omega (arith, chunks_weight-append xs ys)

-- What an allocation for a descriptor costs: what it adds, and nothing where it fails.
abbrev pub Balanced : Heap → Desc → Option Desc → Heap → Type 0
Balanced h d none h' = h'.live ≡ h.live
Balanced h d (some d') h' = h'.live + weight d ≡ h.live + weight d'

pub alloc_chunk-Balanced :
    (fails : ℕ → Bool) (chip : Chip) (dir : Dir) (id : ℕ) (d : Desc) (h : Heap)
    → let (made, h') = alloc_chunk fails chip dir id d h in Balanced h d made h'
unfolding alloc_chunk alloc_burst kzalloc
alloc_chunk-Balanced fails chip dir id d h = by_chunk d.chunk refl
  where
    by_chunk :
        (o : Option (List Chunk))
        → d.chunk ≡ o
        → let (made, h') = alloc_chunk fails chip dir id d h in Balanced h d made h'
    by_chunk none e = ground arith
    by_chunk (some cs) e =
        ground (arith, chunks_weight-append cs (link_burst (new_chunk chip dir id d) ∷ []))

pub alloc_desc-Balanced :
    (fails : ℕ → Bool) (chip : Chip) (dir : Dir) (id : ℕ) (h : Heap)
    → let (made, h') = alloc_desc fails chip dir id h in
      elim made as (λ _. Type 0) [
        | none ↦ h'.live ≡ h.live
        | some d ↦ (h'.live ≡ h.live + weight d) × (d ≡ record zero_desc { chunk = some [] })
      ]
unfolding alloc_desc alloc_chunk alloc_burst kzalloc
alloc_desc-Balanced fails chip dir id h = ground arith
