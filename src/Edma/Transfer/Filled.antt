-- ===== src/Edma/Transfer/Filled.antt =====
-- The invariant of the loop of `dw_edma_device_transfer`.
use akida_dw_edma.Base.{
  ℕ, zero, suc, ◌%◌, ◌+◌, ◌^◌, ◌≤◌, ◌<◌, List, [], ◌∷◌, ◌++◌, Option, none, some, Bool, true, false,
  not, ◌≡◌, ◌≢◌, refl, sym, ap, ◌∙◌, arith, u32, u64, length, length-append, last_or,
  last_or-append, update_last, update_last-append, All, All-append, All-update_last, All-last_or,
  append_cons-ne-nil, update_last-ne-nil, length-update_last, subst, ◌==◌, Bool-cases, inl, inr,
}
use mathlib.Core.List.{append-nil, append_assoc}
use akida_dw_edma.Edma.{Dir, Burst, Chunk, Desc, Chip}
use akida_dw_edma.Edma.Alloc.{
  Heap, kzalloc, link_burst, new_chunk, alloc_burst, alloc_chunk, zero_burst,
}
use akida_dw_edma.Edma.Transfer.Build.{
  linked, empty_chunk, current, fill_burst, set_current, ensure_room, add_burst, round, round-true,
}

abbrev pub bursts : Chunk → List Burst
bursts c = elim c.burst [ none ↦ [] | some bs ↦ bs ]

abbrev pub sizes : List Burst → ℕ
sizes [] = 0
sizes (b ∷ bs) = b.sz + sizes bs

-- The bursts of some chunks, in order.
abbrev pub all_bursts : List Chunk → List Burst
all_bursts [] = []
all_bursts (c ∷ cs) = bursts c ++ all_bursts cs

-- A chunk of at most `m` bursts that has its list head, the right count and the right size.
pub record IsFilled (m : ℕ) (c : Chunk) : Type 0 where
  pub headed : c.burst ≡ some (bursts c)
  pub counted : c.bursts_alloc ≡ length (bursts c)
  pub bounded : c.bursts_alloc ≤ m
  pub sized : c.ll_region.sz ≡ u64 (sizes (bursts c))

-- The change bit of the first chunk, and the opposite from each chunk to the next.
abbrev pub Alternates : Bool → List Chunk → Type 0
Alternates b [] = Unit {0}
Alternates b (c ∷ cs) = (c.cb ≡ b) × Alternates (not b) cs

-- The change bit after `n` chunks that began with `b`.
abbrev pub toggle : ℕ → Bool → Bool
toggle zero b = b
toggle (suc n) b = toggle n (not b)

-- A descriptor with a chunk to fill, all of whose chunks are filled as above, with the right
-- sum and number, and with change bits that toggle from 1.
pub record IsBuilt (m : ℕ) (d : Desc) : Type 0 where
  pub started : linked d ≢ []
  pub chunked : d.chunk ≡ some (linked d)
  pub filled : All (IsFilled m) (linked d)
  pub totalled : d.alloc_sz ≡ u32 (sizes (all_bursts (linked d)))
  pub numbered : d.chunks_alloc ≡ u32 (length (linked d))
  pub toggled : Alternates true (linked d)

pub sizes-append : (xs ys : List Burst) → sizes (xs ++ ys) ≡ sizes xs + sizes ys
sizes-append [] ys = omega arith
sizes-append (x ∷ xs) ys = omega (arith, sizes-append xs ys)

all_bursts-append : (xs ys : List Chunk) → all_bursts (xs ++ ys) ≡ all_bursts xs ++ all_bursts ys
all_bursts-append [] ys = refl
all_bursts-append (x ∷ xs) ys =
    rw (all_bursts-append xs ys, append_assoc (bursts x) (all_bursts xs) (all_bursts ys))

Alternates-append :
    (b : Bool) (c : Chunk) (cs : List Chunk)
    → Alternates b cs
    → c.cb ≡ toggle (length cs) b
    → Alternates b (cs ++ c ∷ [])
Alternates-append b c [] a e = (e, tt)
Alternates-append b c (x ∷ xs) a e = (a.0, Alternates-append (not b) c xs a.1 e)

Alternates-update_last :
    (b : Bool) (c e : Chunk) (cs : List Chunk)
    → Alternates b cs
    → c.cb ≡ (last_or e cs).cb
    → Alternates b (update_last (λ _. c) cs)
Alternates-update_last b c e [] a q = tt
Alternates-update_last b c e (x ∷ []) a q = (q ∙ a.0, tt)
Alternates-update_last b c e (x ∷ y ∷ ys) a q =
    (a.0, Alternates-update_last (not b) c x (y ∷ ys) a.1 q)

-- The change bit that `!(chunks_alloc % 2)` gives.
toggle-parity : (n : ℕ) → (u32 n % 2 == 0) ≡ toggle n true
toggle-parity zero = refl
toggle-parity (suc zero) = refl
toggle-parity (suc (suc n)) = ground (arith, toggle-parity n)

-- The last chunk grown by one burst.
all_bursts-update_last :
    (b : Burst) (c e : Chunk) (cs : List Chunk)
    → cs ≢ []
    → bursts c ≡ bursts (last_or e cs) ++ b ∷ []
    → all_bursts (update_last (λ _. c) cs) ≡ all_bursts cs ++ b ∷ []
all_bursts-update_last b c e [] h p = absurd (h refl)
all_bursts-update_last b c e (x ∷ []) h p = rw (p, append-nil, append-nil)
all_bursts-update_last b c e (x ∷ y ∷ ys) h p =
    ap (◌++◌ (bursts x)) (all_bursts-update_last b c x (y ∷ ys) (λ q. cc q) p)
    ∙ sym (append_assoc (bursts x) (all_bursts (y ∷ ys)) (b ∷ []))

-- A chunk that `dw_edma_alloc_chunk` links behind others.
pub alloc_chunk-some :
    (fails : ℕ → Bool) (chip : Chip) (dir : Dir) (id : ℕ) (d : Desc) (h : Heap) (cs : List Chunk)
    {d' : Desc} {h' : Heap}
    → d.chunk ≡ some cs
    → alloc_chunk fails chip dir id d h ≡ (some d', h')
    → d' ≡ record d {
      chunk = some (cs ++ link_burst (new_chunk chip dir id d) ∷ []);
      chunks_alloc = u32 (d.chunks_alloc + 1);
    }
unfolding alloc_chunk alloc_burst kzalloc
alloc_chunk-some fails chip dir id d h cs e q = ground arith

-- A filled chunk with room stays filled when a burst is added.
fill_burst-IsFilled :
    (m : ℕ) (b : Burst) (c : Chunk)
    → m < 2 ^ 32
    → IsFilled m c
    → c.bursts_alloc < m
    → IsFilled m (fill_burst b (link_burst c))
      × (bursts (fill_burst b (link_burst c)) ≡ bursts c ++ b ∷ [])
fill_burst-IsFilled m b c big f lt = ground (
  arith,
  update_last-append (λ (x : Burst). b) (bursts c) zero_burst,
  length-append (bursts c) (b ∷ []),
  sizes-append (bursts c) (b ∷ []),
)

-- An empty chunk linked behind the others.
push_chunk-IsBuilt :
    (m : ℕ) (d d' : Desc) (c : Chunk)
    → IsBuilt m d
    → IsFilled m c
    → bursts c ≡ []
    → c.cb ≡ (d.chunks_alloc % 2 == 0)
    → d' ≡ record d { chunk = some (linked d ++ c ∷ []); chunks_alloc = u32 (d.chunks_alloc + 1) }
    → IsBuilt m d' × (current d' ≡ c) × (all_bursts (linked d') ≡ all_bursts (linked d))
push_chunk-IsBuilt m d d' c v f none_yet bit e = rw e (
  record {
    started = append_cons-ne-nil (linked d) c;
    chunked = refl;
    filled = All-append (IsFilled m) (linked d) (c ∷ []) v.filled (f, tt);
    totalled = v.totalled ∙ ap (λ bs. u32 (sizes bs)) (sym same);
    numbered = omega (arith, v.numbered, length-append (linked d) (c ∷ []));
    toggled =
        Alternates-append true c (linked d) v.toggled
          (bit ∙ rw v.numbered (toggle-parity (length (linked d))));
  },
  last_or-append empty_chunk c (linked d),
  same,
)
  where
    same : all_bursts (linked d ++ c ∷ []) ≡ all_bursts (linked d)
    same = all_bursts-append (linked d) (c ∷ []) ∙ (rw (none_yet, append-nil))

-- Making room allocates a chunk exactly when the current one is full; it moves no burst.
ensure_room-IsBuilt :
    (m : ℕ) (fails : ℕ → Bool) (chip : Chip) (dir : Dir) (id : ℕ) (d : Desc) (h : Heap) {d' : Desc}
    {h' : Heap}
    → 0 < m
    → IsBuilt m d
    → ensure_room fails chip dir id m d h ≡ (some d', h')
    → IsBuilt m d'
      × ((current d').bursts_alloc < m)
      × (all_bursts (linked d') ≡ all_bursts (linked d))
unfolding ensure_room
ensure_room-IsBuilt m fails chip dir id d h {d'} {h'} pos v e =
    elim (Bool-cases ((current d).bursts_alloc == m)) [
      | inl full ↦
          let grown =
            push_chunk-IsBuilt m d d' (link_burst (new_chunk chip dir id d)) v
              (record { headed = refl; counted = refl; bounded = omega arith; sized = refl }) refl
              refl
              (alloc_chunk-some fails chip dir id d h (linked d) v.chunked
                (rw (full, ensure_room) at e)) in
          (grown.0, rw grown.1 pos, grown.2)
      | inr room ↦ kept (ground arith) room
    ]
  where
    kept :
        d ≡ d'
        → ((current d).bursts_alloc == m) ≡ false
        → IsBuilt m d'
          × ((current d').bursts_alloc < m)
          × (all_bursts (linked d') ≡ all_bursts (linked d))
    kept same room =
        let top = All-last_or (IsFilled m) empty_chunk (linked d) v.started v.filled in
        subst
          (λ x.
            IsBuilt m x
            × ((current x).bursts_alloc < m)
            × (all_bursts (linked x) ≡ all_bursts (linked d)))
          same (v, ground (arith, top.bounded), refl)

-- Adding a burst to a current chunk with room.
add_burst-IsBuilt :
    (m : ℕ) (fails : ℕ → Bool) (b : Burst) (d : Desc) (h : Heap) {d' : Desc} {h' : Heap}
    → m < 2 ^ 32
    → IsBuilt m d
    → (current d).bursts_alloc < m
    → add_burst fails b d h ≡ (some d', h')
    → IsBuilt m d' × (all_bursts (linked d') ≡ all_bursts (linked d) ++ b ∷ [])
add_burst-IsBuilt m fails b d h {d'} {h'} big v room e = rw result (built, view)
  where
    c : Chunk
    c = fill_burst b (link_burst (current d))

    top : IsFilled m c × (bursts c ≡ bursts (current d) ++ b ∷ [])
    top =
        fill_burst-IsFilled m b (current d) big
          (All-last_or (IsFilled m) empty_chunk (linked d) v.started v.filled) room

    result : d' ≡ set_current c (record d { alloc_sz = u32 (d.alloc_sz + b.sz) })
    result = unfold add_burst alloc_burst kzalloc in ground arith

    view : all_bursts (update_last (λ _. c) (linked d)) ≡ all_bursts (linked d) ++ b ∷ []
    view = all_bursts-update_last b c empty_chunk (linked d) v.started top.1

    same_bit : c.cb ≡ (current d).cb
    same_bit = by_burst (current d).burst refl
      where
        by_burst : (o : Option (List Burst)) → (current d).burst ≡ o → c.cb ≡ (current d).cb
        by_burst none e = ground arith
        by_burst (some bs) e = ground arith

    built : IsBuilt m (set_current c (record d { alloc_sz = u32 (d.alloc_sz + b.sz) }))
    built = record {
      started = update_last-ne-nil (λ _. c) (linked d) v.started;
      chunked = refl;
      filled = All-update_last (IsFilled m) c (linked d) v.filled top.0;
      totalled = rw view (omega (arith, v.totalled, sizes-append (all_bursts (linked d)) (b ∷ [])));
      numbered = v.numbered ∙ ap u32 (sym (length-update_last (λ _. c) (linked d)));
      toggled = Alternates-update_last true c empty_chunk (linked d) v.toggled same_bit;
    }

-- A round that succeeds adds its burst behind the others, in the current chunk or in a new one.
pub round-IsBuilt :
    (m : ℕ) (fails : ℕ → Bool) (chip : Chip) (dir : Dir) (id : ℕ) (b : Burst) (d : Desc) (h : Heap)
    {d' : Desc} {h' : Heap}
    → 0 < m
    → m < 2 ^ 32
    → IsBuilt m d
    → round fails chip dir id m b d h ≡ (true, d', h')
    → IsBuilt m d' × (all_bursts (linked d') ≡ all_bursts (linked d) ++ b ∷ [])
round-IsBuilt m fails chip dir id b d h pos big v e =
    let (d₁, h₁, roomy, added) = round-true fails chip dir id m b d h e in
    let (v₁, room, same) = ensure_room-IsBuilt m fails chip dir id d h pos v roomy in
    let (v₂, view) = add_burst-IsBuilt m fails b d₁ h₁ big v₁ room added in
    (v₂, view ∙ ap (λ bs. bs ++ b ∷ []) same)
