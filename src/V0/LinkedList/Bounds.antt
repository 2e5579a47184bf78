-- ===== src/V0/LinkedList/Bounds.antt =====
-- The addresses to which `dw_edma_v0_core_write_chunk` writes.
use akida_dw_edma.Base.{
  ℕ, ◌+◌, ◌*◌, ◌/◌, ◌-◌, ◌^◌, ◌≤◌, ◌<◌, List, [], ◌∷◌, Bool, true, false, arith, length, All,
  All-append,
}
use akida_dw_edma.Mmio.{Access, wrote32, wrote64, stored32, stored64, got32, barrier, observer}
use akida_dw_edma.Edma.{Burst, Chunk}
use akida_dw_edma.Edma.Transfer.Filled.{bursts, IsFilled}
use akida_dw_edma.V0.LinkedList.{write_chunk}
use akida_dw_edma.V0.LinkedList.Elements.{
  data_element, link_element, plain_word, last_word, link_word, elements, write_chunk-elements,
}

-- The bytes that an access touches lie from `lo` up to `hi`.
abbrev pub IsWithin : ℕ → ℕ → Access → Type 0
IsWithin lo hi (wrote32 a x) = (lo ≤ a) × (a + 4 ≤ hi)
IsWithin lo hi (wrote64 a x) = (lo ≤ a) × (a + 8 ≤ hi)
IsWithin lo hi (stored32 a x) = (lo ≤ a) × (a + 4 ≤ hi)
IsWithin lo hi (stored64 a x) = (lo ≤ a) × (a + 8 ≤ hi)
IsWithin lo hi (got32 a) = (lo ≤ a) × (a + 4 ≤ hi)
IsWithin lo hi barrier = Unit {0}

data_element-IsWithin :
    (lo hi a control : ℕ) (local : Bool) (b : Burst)
    → lo ≤ a
    → a + 24 ≤ hi
    → All (IsWithin lo hi) (data_element local a control b)
data_element-IsWithin lo hi a control true b p q = omega arith
data_element-IsWithin lo hi a control false b p q = omega arith

link_element-IsWithin :
    (lo hi a control pointer : ℕ) (local : Bool)
    → lo ≤ a
    → a + 24 ≤ hi
    → All (IsWithin lo hi) (link_element local a control pointer)
link_element-IsWithin lo hi a control pointer true p q = omega arith
link_element-IsWithin lo hi a control pointer false p q = omega arith

elements-IsWithin :
    (lo hi a : ℕ) (local cb : Bool) (bs : List Burst)
    → lo ≤ a
    → a + length bs * 24 ≤ hi
    → All (IsWithin lo hi) (elements local cb a bs)
elements-IsWithin lo hi a local cb [] p q = tt
elements-IsWithin lo hi a local cb (b ∷ []) p q =
    data_element-IsWithin lo hi a (last_word local cb) local b p (omega arith)
elements-IsWithin lo hi a local cb (b ∷ c ∷ bs) p q =
    All-append (IsWithin lo hi) (data_element local a (plain_word cb) b) _
      (data_element-IsWithin lo hi a (plain_word cb) local b p (omega arith))
      (elements-IsWithin lo hi (a + 24) local cb (c ∷ bs) (omega arith) (omega arith))

-- With `ll_max` as `dw_edma_channel_setup` computes it from the size of the linked list memory,
-- which holds an element at least, a chunk of at most `ll_max` bursts is written to addresses
-- inside that memory, the link included.
pub write_chunk-IsWithin :
    (answer : List Access → ℕ → ℕ) (local : Bool) (sz : ℕ) (c : Chunk)
    → 24 ≤ sz
    → sz < 2 ^ 32
    → IsFilled (sz / 24 - 1) c
    → All
        (IsWithin c.ll_region.vaddr (c.ll_region.vaddr + sz))
        (write_chunk (observer answer) local c [])
write_chunk-IsWithin answer local sz c room big f =
    rw (write_chunk-elements answer local (sz / 24 - 1) c [] (omega arith) f) (
      All-append (IsWithin lo hi) (elements local c.cb lo (bursts c)) _
        (elements-IsWithin lo hi lo local c.cb (bursts c) (omega arith) fits)
        (link_element-IsWithin lo hi (lo + length (bursts c) * 24) (link_word c.cb)
          c.ll_region.paddr local (omega arith) (omega (arith, f.counted, f.bounded))))
  where
    lo : ℕ
    lo = c.ll_region.vaddr

    hi : ℕ
    hi = c.ll_region.vaddr + sz

    fits : lo + length (bursts c) * 24 ≤ hi
    fits = omega (arith, f.counted, f.bounded)
