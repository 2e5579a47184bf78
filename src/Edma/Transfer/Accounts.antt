-- ===== src/Edma/Transfer/Accounts.antt =====
-- akida-dw-edma/dw-edma-core.c: the memory that preparing a transfer allocates and frees.
use akida_dw_edma.Base.{
  ℕ, zero, suc, ◌+◌, List, [], ◌∷◌, ◌++◌, Option, none, some, Bool, true, false, ◌≡◌, ◌≢◌, refl,
  arith, length-append, last_or, update_last, ◌==◌, update_last-ne-nil, append_cons-ne-nil,
  length-update_last, Bool-cases, inl, inr, ◌&&◌, is_empty,
}
use akida_dw_edma.Edma.{Dir, Burst, Chunk, Desc, Chip, SlaveConfig, XferDirection}
use akida_dw_edma.Edma.Alloc.{
  Heap, kzalloc, link_burst, zero_burst, zero_desc, alloc_burst, alloc_chunk, alloc_desc,
}
use akida_dw_edma.Edma.Alloc.Leaks.{
  chunk_weight, chunks_weight, weight, Balanced, free_desc-live, alloc_chunk-Balanced,
  alloc_desc-Balanced,
}
use akida_dw_edma.Edma.Transfer.{
  DataChunk, Template, Xfer, Cursor, is_sg, burst_at, advance, burst_count, start_cursor,
}
use akida_dw_edma.Edma.Transfer.Filled.{alloc_chunk-some}
use akida_dw_edma.Edma.Transfer.Build.{
  linked, empty_chunk, current, fill_burst, ensure_room, add_burst, after_burst, after_room, round,
  fill_loop, finish, fill_first, build_from, build_desc,
}

chunks_weight-update_last :
    (c e : Chunk) (cs : List Chunk)
    → cs ≢ []
    → chunks_weight (update_last (λ _. c) cs) + chunk_weight (last_or e cs)
      ≡ chunks_weight cs + chunk_weight c
chunks_weight-update_last c e [] h = absurd (h refl)
chunks_weight-update_last c e (x ∷ []) h = omega arith
chunks_weight-update_last c e (x ∷ y ∷ ys) h =
    omega (arith, chunks_weight-update_last c x (y ∷ ys) (λ q. cc q))

-- A burst linked and filled is one object more.
chunk_weight-fill_burst :
    (b : Burst) (c : Chunk) → chunk_weight (fill_burst b (link_burst c)) ≡ suc (chunk_weight c)
chunk_weight-fill_burst b c = by_burst c.burst refl
  where
    by_burst :
        (o : Option (List Burst))
        → c.burst ≡ o
        → chunk_weight (fill_burst b (link_burst c)) ≡ suc (chunk_weight c)
    by_burst none e = rw (e, link_burst)
    by_burst (some bs) e = ground (
      arith,
      length-update_last (λ (x : Burst). b) (bs ++ zero_burst ∷ []),
      length-append bs (zero_burst ∷ []),
    )

-- The same with the chunks that a descriptor already links: there is one to fill.
record Keeps (h : Heap) (d : Desc) (h' : Heap) (d' : Desc) : Type 0 where
  balance : h'.live + weight d ≡ h.live + weight d'
  open_chunk : linked d' ≢ []

-- What a step of the loop keeps, whether it succeeds or not.
abbrev Kept : Heap → Desc → Option Desc → Heap → Type 0
Kept h d none h' = h'.live ≡ h.live
Kept h d (some d') h' = Keeps h d h' d'

add_burst-Kept :
    (fails : ℕ → Bool) (b : Burst) (d : Desc) (h : Heap)
    → linked d ≢ []
    → let (added, h') = add_burst fails b d h in Kept h d added h'
unfolding add_burst alloc_burst kzalloc
add_burst-Kept fails b d h ne = by_chunk d.chunk refl
  where
    by_chunk :
        (o : Option (List Chunk))
        → d.chunk ≡ o
        → let (added, h') = add_burst fails b d h in Kept h d added h'
    by_chunk none e = absurd (ne (ground arith))
    by_chunk (some cs) e = ground (
      arith,
      chunks_weight-update_last (fill_burst b (link_burst (current d))) empty_chunk cs,
      chunk_weight-fill_burst b (current d),
      update_last-ne-nil (λ (x : Chunk). fill_burst b (link_burst (current d))) cs,
    )

ensure_room-Kept :
    (fails : ℕ → Bool) (chip : Chip) (dir : Dir) (id m : ℕ) (d : Desc) (h : Heap)
    → linked d ≢ []
    → let (made, h') = ensure_room fails chip dir id m d h in Kept h d made h'
unfolding ensure_room
ensure_room-Kept fails chip dir id m d h ne = elim (Bool-cases ((current d).bursts_alloc == m)) [
  | inl full ↦
      rw full (
        grown (alloc_chunk fails chip dir id d h) refl (alloc_chunk-Balanced fails chip dir id d h))
  | inr room ↦ rw room (record { balance = refl; open_chunk = ne })
]
  where
    chunked : d.chunk ≡ some (linked d)
    chunked = ground arith

    grown :
        (r : Option Desc × Heap)
        → alloc_chunk fails chip dir id d h ≡ r
        → Balanced h d r.0 r.1
        → Kept h d r.0 r.1
    grown (none, h') e b = b
    grown (some d', h') e b = record {
      balance = b;
      open_chunk =
          rw (alloc_chunk-some fails chip dir id d h (linked d) chunked e)
            (append_cons-ne-nil (linked d) _);
    }

Keeps-trans :
    {h h₁ h₂ : Heap} {d d₁ d₂ : Desc} → Keeps h d h₁ d₁ → Keeps h₁ d₁ h₂ d₂ → Keeps h d h₂ d₂
Keeps-trans k l = record { balance = omega arith; open_chunk = l.open_chunk }

module _ (fails : ℕ → Bool) (b : Burst) where
  after_burst-Keeps :
      (d : Desc) (h : Heap) (r : Option Desc × Heap)
      → linked d ≢ []
      → Kept h d r.0 r.1
      → let (ok, d', h') = after_burst d r in Keeps h d h' d'
  unfolding after_burst
  after_burst-Keeps d h (none, h') ne k = record { balance = omega arith; open_chunk = ne }
  after_burst-Keeps d h (some d', h') ne k = k

  after_room-Keeps :
      (d : Desc) (h : Heap) (r : Option Desc × Heap)
      → linked d ≢ []
      → Kept h d r.0 r.1
      → let (ok, d', h') = after_room fails b d r in Keeps h d h' d'
  unfolding after_room
  after_room-Keeps d h (none, h') ne k = record { balance = omega arith; open_chunk = ne }
  after_room-Keeps d h (some d', h') ne k =
      Keeps-trans k
        (after_burst-Keeps d' h' _ k.open_chunk (add_burst-Kept fails b d' h' k.open_chunk))

-- A round, also one that fails: what it allocated is in the descriptor.
round-Keeps :
    (fails : ℕ → Bool) (chip : Chip) (dir : Dir) (id m : ℕ) (b : Burst) (d : Desc) (h : Heap)
    → linked d ≢ []
    → let (ok, d', h') = round fails chip dir id m b d h in Keeps h d h' d'
unfolding round
round-Keeps fails chip dir id m b d h ne =
    after_room-Keeps fails b d h _ ne (ensure_room-Kept fails chip dir id m d h ne)

module _ (src_icg dst_icg : Template → DataChunk → ℕ) (fails : ℕ → Bool) (chip : Chip) (cdir : Dir)
    (id m : ℕ) (x : Xfer) (dir : XferDirection) where
  fill_loop-Keeps :
      (n i : ℕ) (c : Cursor) (d : Desc) (h : Heap)
      → linked d ≢ []
      → let (ok, d', h') = fill_loop src_icg dst_icg fails chip cdir id m x dir n i c d h in
        Keeps h d h' d'
  unfolding fill_loop
  fill_loop-Keeps zero i c d h ne = record { balance = refl; open_chunk = ne }
  fill_loop-Keeps (suc n) i c d h ne = elim (Bool-cases (is_sg x && is_empty c.sg)) [
    | inl out ↦ rw out (record { balance = refl; open_chunk = ne })
    | inr more ↦
        let one = round-Keeps fails chip cdir id m (burst_at x dir i c) d h ne in
        let rest =
          Keeps-trans one
            (fill_loop-Keeps n (suc i) (advance src_icg dst_icg x dir i c) _ _ one.open_chunk) in
        elim (Bool-cases (round fails chip cdir id m (burst_at x dir i c) d h).0) [
          | inl added ↦ rw (more, added) rest
          | inr failed ↦ rw (more, failed) one
        ]
  ]

-- What a call of the allocator's user costs: the objects of the descriptor that it returns.
abbrev pub Paid : Heap → Option Desc × Heap → Type 0
Paid h (none, h') = h'.live ≡ h.live
Paid h (some d, h') = h'.live ≡ h.live + weight d

module _ (src_icg dst_icg : Template → DataChunk → ℕ) (fails : ℕ → Bool) (chip : Chip)
    (h : Heap) where
  finish-Paid :
      (r : Bool × Desc × Heap)
      → r.2.live ≡ h.live + weight r.1
      → Paid h (finish src_icg dst_icg fails chip r)
  unfolding finish
  finish-Paid (true, d, h') e = e
  finish-Paid (false, d, h') e = omega (arith, free_desc-live d h')

  module _ (cdir : Dir) (id m : ℕ) (x : Xfer) (dir : XferDirection) (c : Cursor) where
    fill_first-Paid :
        (d : Desc) (h₁ : Heap) (r : Option Desc × Heap)
        → h₁.live ≡ h.live + weight d
        → Kept h₁ d r.0 r.1
        → Paid h (fill_first src_icg dst_icg fails chip cdir id m x dir c d r)
    unfolding fill_first
    fill_first-Paid d h₁ (none, h₂) e k = omega (arith, free_desc-live d h₂)
    fill_first-Paid d h₁ (some d₂, h₂) e k = finish-Paid _ (
        omega (
          arith,
          k.balance,
          (fill_loop-Keeps src_icg dst_icg fails chip cdir id m x dir (burst_count x) 0 c d₂ h₂
              k.open_chunk).balance,
        ))

    build_from-Paid :
        (r : Option Desc × Heap)
        → elim r.0 as (λ _. Type 0) [
          | none ↦ r.1.live ≡ h.live
          | some d ↦ (r.1.live ≡ h.live + weight d) × (d ≡ record zero_desc { chunk = some [] })
        ]
        → Paid h (build_from src_icg dst_icg fails chip cdir id m x dir c r)
    unfolding build_from
    build_from-Paid (none, h₁) e = e
    build_from-Paid (some d, h₁) e = fill_first-Paid d h₁ _ e.0 (
        first (alloc_chunk fails chip cdir id d h₁) refl
          (alloc_chunk-Balanced fails chip cdir id d h₁))
      where
        first :
            (r : Option Desc × Heap)
            → alloc_chunk fails chip cdir id d h₁ ≡ r
            → Balanced h₁ d r.0 r.1
            → Kept h₁ d r.0 r.1
        first (none, h₂) q b = b
        first (some d₂, h₂) q b = record {
          balance = b;
          open_chunk = rw (alloc_chunk-some fails chip cdir id d h₁ [] (rw e.1) q) (λ p. cc p);
        }

-- Building a descriptor costs the objects of the descriptor, and nothing where NULL is returned:
-- every object of a descriptor given up half way is freed.
pub build_desc-Paid :
    (src_icg dst_icg : Template → DataChunk → ℕ) (fails : ℕ → Bool) (chip : Chip) (cdir : Dir)
    (id m : ℕ) (config : SlaveConfig) (x : Xfer) (dir : XferDirection) (h : Heap)
    → Paid h (build_desc src_icg dst_icg fails chip cdir id m config x dir h)
unfolding build_desc
build_desc-Paid src_icg dst_icg fails chip cdir id m config x dir h =
    build_from-Paid src_icg dst_icg fails chip h cdir id m x dir (start_cursor chip config x dir)
      (alloc_desc fails chip cdir id h) (alloc_desc-Balanced fails chip cdir id h)
