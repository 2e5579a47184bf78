-- ===== src/V0/LinkedList/Elements.antt =====
-- The accesses by which a chunk is written, and where they go.
use akida_dw_edma.Base.{
  ℕ, suc, ◌+◌, ◌*◌, ◌^◌, ◌<◌, List, [], ◌∷◌, ◌++◌, Bool, true, false, ◌≡◌, refl, sym, ap, ◌∙◌,
  arith, u32, sub32, length, if◌then◌else◌,
}
use native.Mathlib.Nat.{add-zero}
use mathlib.Core.List.{append-nil, append_assoc}
use akida_dw_edma.Mmio.{Access, wrote32, wrote64, stored32, stored64, barrier, observer}
use akida_dw_edma.Edma.{Burst, Chunk}
use akida_dw_edma.Edma.Transfer.Filled.{bursts, IsFilled}
use akida_dw_edma.V0.LinkedList.{
  next_control, write_ll_data, write_ll_link, write_bursts, write_chunk,
}

-- The element of a burst at the address `a`: its control word is written last, and to local
-- memory behind a barrier.
abbrev pub data_element : Bool → ℕ → ℕ → Burst → List Access
data_element true a control b =
    stored32 (a + 4) b.sz
    ∷ stored64 (a + 8) b.sar
    ∷ stored64 (a + 16) b.dar
    ∷ barrier
    ∷ stored32 a control
    ∷ []
data_element false a control b =
    wrote32 (a + 4) b.sz ∷ wrote64 (a + 8) b.sar ∷ wrote64 (a + 16) b.dar ∷ wrote32 a control ∷ []

-- The element that links back to the start of the list.
abbrev pub link_element : Bool → ℕ → ℕ → ℕ → List Access
link_element true a control pointer = stored64 (a + 8) pointer ∷ barrier ∷ stored32 a control ∷ []
link_element false a control pointer = wrote64 (a + 8) pointer ∷ wrote32 a control ∷ []

-- The change bit, with the interrupts of the last burst: the local one, and from afar also the
-- remote one.
abbrev pub plain_word : Bool → ℕ
plain_word true = 0x1
plain_word false = 0x0

abbrev pub last_word : Bool → Bool → ℕ
last_word true cb = plain_word cb + 0x8
last_word false cb = plain_word cb + 0x18

-- The link has the LLP and the toggle bit, and the opposite change bit.
abbrev pub link_word : Bool → ℕ
link_word true = 0x6
link_word false = 0x7

abbrev pub elements : Bool → Bool → ℕ → List Burst → List Access
elements local cb a [] = []
elements local cb a (b ∷ []) = data_element local a (last_word local cb) b
elements local cb a (b ∷ c ∷ bs) =
    data_element local a (plain_word cb) b ++ elements local cb (a + 24) (c ∷ bs)

module _ (answer : List Access → ℕ → ℕ) where
  write_ll_data-eq :
      (local : Bool) (base i control : ℕ) (b : Burst) (h : List Access)
      → write_ll_data (observer answer) local base i control b h
        ≡ h ++ data_element local (base + i * 24) control b
  unfolding write_ll_data
  write_ll_data-eq true base i control b h = simp append_assoc
  write_ll_data-eq false base i control b h = simp append_assoc

  write_ll_link-eq :
      (local : Bool) (base i control pointer : ℕ) (h : List Access)
      → write_ll_link (observer answer) local base i control pointer h
        ≡ h ++ link_element local (base + i * 24) control pointer
  unfolding write_ll_link
  write_ll_link-eq true base i control pointer h = simp append_assoc
  write_ll_link-eq false base i control pointer h = simp append_assoc

  bursts_cong :
      (local : Bool) (base : ℕ) (bs : List Burst) {j j' i i' k k' : ℕ} {h h' : List Access}
      → j ≡ j'
      → i ≡ i'
      → k ≡ k'
      → h ≡ h'
      → write_bursts (observer answer) local base j i k bs h
        ≡ write_bursts (observer answer) local base j' i' k' bs h'
  bursts_cong local base bs p q r s =
      λ t. write_bursts (observer answer) local base (p t) (q t) (r t) bs (s t)

  control-last :
      (local cb : Bool)
      → next_control (observer answer) local 1 (plain_word cb) ≡ last_word local cb
  control-last true true = refl
  control-last true false = refl
  control-last false true = refl
  control-last false false = refl

  control-plain :
      (local : Bool) (j control : ℕ)
      → suc (suc j) < 2 ^ 32
      → next_control (observer answer) local (suc (suc j)) control ≡ control
  control-plain local j control small = ground arith

  write_bursts-cons :
      (local : Bool) (base j i control : ℕ) (b : Burst) (bs : List Burst) (h : List Access)
      → write_bursts (observer answer) local base j i control (b ∷ bs) h
        ≡ write_bursts
            (observer answer)
            local
            base
            (sub32 j 1)
            (u32 (i + 1))
            (next_control (observer answer) local j control)
            bs
            (write_ll_data
              (observer answer)
              local
              base
              i
              (next_control (observer answer) local j control)
              b
              h)
  unfolding write_bursts
  write_bursts-cons local base j i control b bs h = refl

  write_bursts-nil :
      (local : Bool) (base j i control : ℕ) (h : List Access)
      → write_bursts (observer answer) local base j i control [] h ≡ (i, h)
  unfolding write_bursts
  write_bursts-nil local base j i control h = refl

  -- One round with more bursts to come.
  write_bursts-step :
      (local cb : Bool) (base i : ℕ) (b c : Burst) (bs : List Burst) (h : List Access)
      → i + length (b ∷ c ∷ bs) < 2 ^ 32
      → write_bursts
          (observer answer)
          local
          base
          (length (b ∷ c ∷ bs))
          i
          (plain_word cb)
          (b ∷ c ∷ bs)
          h
        ≡ write_bursts
            (observer answer)
            local
            base
            (length (c ∷ bs))
            (i + 1)
            (plain_word cb)
            (c ∷ bs)
            (h ++ data_element local (base + i * 24) (plain_word cb) b)
  write_bursts-step local cb base i b c bs h small =
      write_bursts-cons local base _ i (plain_word cb) b (c ∷ bs) h
      ∙ bursts_cong local base (c ∷ bs) (omega arith) (omega arith) same (
          ap (λ (k : ℕ). write_ll_data (observer answer) local base i k b h) same
          ∙ write_ll_data-eq local base i (plain_word cb) b h)
    where
      same :
          next_control (observer answer) local (length (b ∷ c ∷ bs)) (plain_word cb) ≡ plain_word cb
      same = control-plain local (length bs) (plain_word cb) (omega arith)

  write_bursts-eq :
      (local cb : Bool) (base i : ℕ) (bs : List Burst) (h : List Access)
      → i + length bs < 2 ^ 32
      → write_bursts (observer answer) local base (length bs) i (plain_word cb) bs h
        ≡ (i + length bs, h ++ elements local cb (base + i * 24) bs)
  write_bursts-eq local cb base i [] h small =
      write_bursts-nil local base 0 i (plain_word cb) h ∙ λ t.
      (sym (add-zero i) t, sym (append-nil h) t)
  write_bursts-eq local cb base i (b ∷ []) h small =
      write_bursts-cons local base 1 i (plain_word cb) b [] h
      ∙ write_bursts-nil local base 0 _ _ _
      ∙ λ t. (
        u32_small t,
        (ap (λ (k : ℕ). write_ll_data (observer answer) local base i k b h) (control-last local cb)
              ∙ write_ll_data-eq local base i (last_word local cb) b h)
            t,
      )
    where
      u32_small : u32 (i + 1) ≡ i + 1
      u32_small = omega arith
  write_bursts-eq local cb base i (b ∷ c ∷ bs) h small =
      write_bursts-step local cb base i b c bs h small
      ∙ write_bursts-eq local cb base (i + 1) (c ∷ bs) _ (omega arith)
      ∙ λ t. (
        counts t,
        (append_assoc h (data_element local (base + i * 24) (plain_word cb) b)
                (elements local cb (base + (i + 1) * 24) (c ∷ bs))
              ∙ ap
                  (λ (a : ℕ).
                    h
                    ++ (data_element local (base + i * 24) (plain_word cb) b
                        ++ elements local cb a (c ∷ bs)))
                  places)
            t,
      )
    where
      counts : i + 1 + length (c ∷ bs) ≡ i + length (b ∷ c ∷ bs)
      counts = omega arith

      places : base + (i + 1) * 24 ≡ base + i * 24 + 24
      places = omega arith

  -- The link element behind the bursts.
  abbrev link : Bool → Chunk → ℕ × List Access → List Access
  link local c r =
      write_ll_link (observer answer) local c.ll_region.vaddr r.0 (if c.cb then 6 else 7)
        c.ll_region.paddr r.1

  write_chunk-link :
      (local : Bool) (c : Chunk) (h : List Access)
      → write_chunk (observer answer) local c h
        ≡ link local c (
            write_bursts
              (observer answer)
              local
              c.ll_region.vaddr
              c.bursts_alloc
              0
              (if c.cb then 1 else 0)
              (bursts c)
              h)
  unfolding write_chunk
  write_chunk-link local c h = refl

  -- A chunk is written as one element for each burst, in order and without gaps, then the link
  -- back to the start of the list. Only the last burst raises interrupts, all bursts carry the
  -- chunk's change bit and the link the opposite one, and each control word is written after the
  -- rest of its element.
  pub write_chunk-elements :
      (local : Bool) (m : ℕ) (c : Chunk) (h : List Access)
      → m < 2 ^ 32
      → IsFilled m c
      → write_chunk (observer answer) local c h
        ≡ h
          ++ (elements local c.cb c.ll_region.vaddr (bursts c)
              ++ link_element local
                  (c.ll_region.vaddr + length (bursts c) * 24)
                  (link_word c.cb)
                  c.ll_region.paddr)
  write_chunk-elements local m c h big f =
      write_chunk-link local c h
      ∙ ap (link local c) (
          bursts_cong local c.ll_region.vaddr (bursts c) f.counted refl (word c.cb) refl
          ∙ write_bursts-eq local c.cb c.ll_region.vaddr 0 (bursts c) h
              (omega (arith, f.counted, f.bounded)))
      ∙ write_ll_link-eq local c.ll_region.vaddr (0 + length (bursts c)) _ c.ll_region.paddr _
      ∙ append_assoc h _ _
      ∙ λ t.
          h
          ++ (elements local c.cb (first_place t) (bursts c)
              ++ link_element local (last_place t) (linked_word c.cb t) c.ll_region.paddr)
    where
      word : (cb : Bool) → (if cb then 1 else 0) ≡ plain_word cb
      word true = refl
      word false = refl

      linked_word : (cb : Bool) → (if cb then 6 else 7) ≡ link_word cb
      linked_word true = refl
      linked_word false = refl

      first_place : c.ll_region.vaddr + 0 * 24 ≡ c.ll_region.vaddr
      first_place = omega arith

      last_place :
          c.ll_region.vaddr + (0 + length (bursts c)) * 24
          ≡ c.ll_region.vaddr + length (bursts c) * 24
      last_place = omega arith
