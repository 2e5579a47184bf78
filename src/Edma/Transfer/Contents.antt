-- ===== src/Edma/Transfer/Contents.antt =====
-- The bursts in the chunks that `dw_edma_device_transfer` makes.
use akida_dw_edma.Base.{
  ℕ, zero, suc, ◌^◌, ◌<◌, List, [], ◌∷◌, ◌++◌, some, Bool, true, false, ◌≡◌, refl, sym, ap, subst,
  ◌∙◌, ◌&&◌, arith, is_empty, if◌then◌else◌, Bool-cases, inl, inr,
}
use mathlib.Core.List.{append-nil, append_assoc}
use akida_dw_edma.Edma.{Dir, Burst, Desc, Chip, SlaveConfig, XferDirection}
use akida_dw_edma.Edma.Alloc.{Heap, zero_desc, kzalloc, alloc_burst, alloc_chunk, alloc_desc}
use akida_dw_edma.Edma.Transfer.{
  DataChunk, Template, Xfer, is_sg, Cursor, burst_at, start_cursor, burst_count, advance,
}
use akida_dw_edma.Edma.Transfer.Build.{linked, round, fill_loop, build_from-some, build_desc}
use akida_dw_edma.Edma.Transfer.Filled.{all_bursts, IsBuilt, round-IsBuilt, alloc_chunk-some}

module _ (src_icg dst_icg : Template → DataChunk → ℕ) where
  -- The bursts of `n` rounds from round `i` on, with no allocation in sight: they end early where
  -- the scatterlist does.
  unfoldable pub emitted : Xfer → XferDirection → ℕ → ℕ → Cursor → List Burst
  emitted x dir zero i c = []
  emitted x dir (suc n) i c =
      let more = emitted x dir n (suc i) (advance src_icg dst_icg x dir i c) in
      if is_sg x && is_empty c.sg then [] else burst_at x dir i c ∷ more

  module _ (fails : ℕ → Bool) (chip : Chip) (cdir : Dir) (id m : ℕ) (pos : 0 < m) (big : m < 2 ^ 32)
      (x : Xfer) (dir : XferDirection) where
    ended :
        {d d' : Desc}
        → IsBuilt m d
        → d ≡ d'
        → IsBuilt m d' × (all_bursts (linked d') ≡ all_bursts (linked d) ++ [])
    ended {d} v e =
        subst (λ y. IsBuilt m y × (all_bursts (linked y) ≡ all_bursts (linked d) ++ [])) e
          (v, sym (append-nil (all_bursts (linked d))))

    -- A round, and the rest of the loop where it succeeds.
    grown :
        (d : Desc) (h : Heap) (d' : Desc) (h' : Heap) (b : Burst) (bs : List Burst)
        {rest : Desc → Heap → Bool × Desc × Heap}
        → IsBuilt m d
        → (r : Bool × Desc × Heap) → round fails chip cdir id m b d h ≡ r
        → (if r.0 then rest r.1 r.2 else (false, r.1, r.2)) ≡ (true, d', h')
        → ((d₁ : Desc) (h₁ : Heap)
            → IsBuilt m d₁
            → rest d₁ h₁ ≡ (true, d', h')
            → IsBuilt m d' × (all_bursts (linked d') ≡ all_bursts (linked d₁) ++ bs))
        → IsBuilt m d' × (all_bursts (linked d') ≡ all_bursts (linked d) ++ b ∷ bs)
    grown d h d' h' b bs v (false, d₁, h₁) q e ih = cc (ap (λ (r : Bool × Desc × Heap). r.0) e)
    grown d h d' h' b bs v (true, d₁, h₁) q e ih =
        let (v₁, view) = round-IsBuilt m fails chip cdir id b d h pos big v q in
        let (v₂, all) = ih d₁ h₁ v₁ e in
        (v₂, all ∙ rw view (append_assoc (all_bursts (linked d)) (b ∷ []) bs))

    -- The loop that ends well adds the emitted bursts behind the others.
    fill_loop-IsBuilt :
        (n i : ℕ) (c : Cursor) (d : Desc) (h : Heap) {d' : Desc} {h' : Heap}
        → IsBuilt m d
        → fill_loop src_icg dst_icg fails chip cdir id m x dir n i c d h ≡ (true, d', h')
        → IsBuilt m d' × (all_bursts (linked d') ≡ all_bursts (linked d) ++ emitted x dir n i c)
    unfolding fill_loop emitted
    fill_loop-IsBuilt zero i c d h v e = ended v (ground arith)
    fill_loop-IsBuilt (suc n) i c d h {d'} {h'} v e = elim (Bool-cases (is_sg x && is_empty c.sg)) [
      | inl out ↦ rw out (ended v (ap (λ r. r.1) (rw (out, fill_loop) at e)))
      | inr more ↦ rw more (
          grown d h _ _ _ _ v (round fails chip cdir id m (burst_at x dir i c) d h) refl
            (rw (more, fill_loop) at e) (λ d₁ h₁ v₁ e₁. fill_loop-IsBuilt n (suc i) _ d₁ h₁ v₁ e₁))
    ]

    start-IsBuilt :
        (d₁ d₂ : Desc) (h₁ h₂ : Heap)
        → d₁ ≡ record zero_desc { chunk = some [] }
        → alloc_chunk fails chip cdir id d₁ h₁ ≡ (some d₂, h₂)
        → IsBuilt m d₂ × (all_bursts (linked d₂) ≡ [])
    start-IsBuilt d₁ d₂ h₁ h₂ e q =
        rw (alloc_chunk-some fails chip cdir id d₁ h₁ [] (rw e) q, e)
          (
            record {
              started = λ p. cc p;
              chunked = refl;
              filled = (
                record { headed = refl; counted = refl; bounded = omega arith; sized = refl },
                tt,
              );
              totalled = refl;
              numbered = refl;
              toggled = (refl, tt);
            },
            refl,
          )

alloc_desc-some :
    (fails : ℕ → Bool) (chip : Chip) (dir : Dir) (id : ℕ) (h : Heap) {d : Desc} {h' : Heap}
    → alloc_desc fails chip dir id h ≡ (some d, h')
    → d ≡ record zero_desc { chunk = some [] }
unfolding alloc_desc alloc_chunk alloc_burst kzalloc
alloc_desc-some fails chip dir id h e = ground arith

-- A descriptor that `dw_edma_device_transfer` builds holds, over all its chunks and in order,
-- exactly the bursts of the transfer; every chunk is counted and measured right and holds no more
-- bursts than the channel's linked list has room for.
pub build_desc-IsBuilt :
    (src_icg dst_icg : Template → DataChunk → ℕ) (fails : ℕ → Bool) (chip : Chip) (cdir : Dir)
    (id m : ℕ) (config : SlaveConfig) (x : Xfer) (dir : XferDirection) (h : Heap) {d : Desc}
    {h' : Heap}
    → 0 < m
    → m < 2 ^ 32
    → build_desc src_icg dst_icg fails chip cdir id m config x dir h ≡ (some d, h')
    → IsBuilt m d
      × (all_bursts (linked d)
          ≡ emitted src_icg dst_icg x dir (burst_count x) 0 (start_cursor chip config x dir))
unfolding build_desc
build_desc-IsBuilt src_icg dst_icg fails chip cdir id m config x dir h pos big e =
    let (d₁, h₁, d₂, h₂, made, grown, looped) =
      build_from-some src_icg dst_icg fails chip cdir id m x dir _ _ e in
    let (v, none_yet) =
      start-IsBuilt src_icg dst_icg fails chip cdir id m pos big x dir d₁ d₂ h₁ h₂
        (alloc_desc-some fails chip cdir id h made) grown in
    let (v', all) =
      fill_loop-IsBuilt src_icg dst_icg fails chip cdir id m pos big x dir _ 0 _ d₂ h₂ v looped in
    (v', all ∙ rw none_yet)
