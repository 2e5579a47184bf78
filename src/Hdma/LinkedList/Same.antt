-- ===== src/Hdma/LinkedList/Same.antt =====
-- The linked lists of the HDMA and of the eDMA, compared.
use akida_dw_edma.Base.{ℕ, ◌+◌, u32, sub32, List, [], ◌∷◌, Bool, ◌≡◌, refl}
use akida_dw_edma.Mmio.{Bus}
use akida_dw_edma.Edma.{Burst, Chunk}
use akida_dw_edma.V0.LinkedList
use akida_dw_edma.Hdma.LinkedList.{
  next_control, write_ll_data, write_ll_link, write_bursts, write_chunk,
}

module _ {H : Type 0} (bus : Bus H) (local : Bool) where
  write_bursts-eq :
      (base j i control : ℕ) (bs : List Burst) (h : H)
      → write_bursts bus local base j i control bs h
        ≡ LinkedList.write_bursts bus local base j i control bs h
  unfolding write_bursts LinkedList.write_bursts write_ll_data LinkedList.write_ll_data
  write_bursts-eq base j i control [] h = refl
  write_bursts-eq base j i control (b ∷ bs) h =
      write_bursts-eq base (sub32 j 1) (u32 (i + 1)) (next_control bus local j control) bs
        (write_ll_data bus local base i (next_control bus local j control) b h)

  -- `dw_hdma_v0_core_write_chunk` makes the accesses of `dw_edma_v0_core_write_chunk`.
  pub write_chunk-eq :
      (c : Chunk) (h : H) → write_chunk bus local c h ≡ LinkedList.write_chunk bus local c h
  unfolding write_chunk LinkedList.write_chunk write_ll_link LinkedList.write_ll_link
  write_chunk-eq c h = rw write_bursts-eq
