-- ===== src/Hdma/LinkedList.antt =====
-- The linked list that `dw_hdma_v0_core_write_chunk` writes into the memory of a channel.
pub mod Same
use Prim.Native.Nat.{bit_or}
use akida_dw_edma.Base.{
  ℕ, suc, ◌+◌, ◌*◌, List, [], ◌∷◌, Option, none, some, Bool, true, false, ◌==◌, u32, sub32,
  if◌then◌else◌,
}
use akida_dw_edma.Mmio.{Bus}
use akida_dw_edma.Hdma.Flag
use akida_dw_edma.Hdma.Lli
use akida_dw_edma.Edma.{Burst, Chunk}
use akida_dw_edma.Edma.Transfer.Filled.{bursts}

-- The offset of `llp` in `struct dw_hdma_v0_llp`; `control` is at 0 in both.
abbrev pub llp_offset : ℕ
llp_offset = 8

module _ {H : Type 0} (bus : Bus H) (local : Bool) where
  open bus use {writel, writeq, store32, store64, dma_wmb}

  -- `dw_hdma_v0_write_ll_data` into the list at `base`.
  unfoldable pub write_ll_data : ℕ → ℕ → ℕ → Burst → H → H
  write_ll_data base i control b h =
      let lli = base + i * Lli.size in
      if local
      then store32 lli control (
          dma_wmb (
            store64 (lli + Lli.dar) b.dar
              (store64 (lli + Lli.sar) b.sar (store32 (lli + Lli.transfer_size) b.sz h))))
      else writel lli control (
          writeq (lli + Lli.dar) b.dar
            (writeq (lli + Lli.sar) b.sar (writel (lli + Lli.transfer_size) b.sz h)))

  -- `dw_hdma_v0_write_ll_link`
  unfoldable pub write_ll_link : ℕ → ℕ → ℕ → ℕ → H → H
  write_ll_link base i control pointer h =
      let llp = base + i * Lli.size in
      if local
      then store32 llp control (dma_wmb (store64 (llp + llp_offset) pointer h))
      else writel llp control (writeq (llp + llp_offset) pointer h)

  -- The control word of a burst, after `j--`: the last one raises the interrupts.
  abbrev pub next_control : ℕ → ℕ → ℕ
  next_control j control =
      if sub32 j 1 == 0
      then (if local then bit_or control Flag.lie else bit_or (bit_or control Flag.lie) Flag.rie)
      else control

  -- The loop of `dw_hdma_v0_core_write_chunk`, with the count `i` after it.
  unfoldable pub write_bursts : ℕ → ℕ → ℕ → ℕ → List Burst → H → ℕ × H
  write_bursts base j i control [] h = (i, h)
  write_bursts base j i control (b ∷ bs) h =
      let control' = next_control j control in
      write_bursts base (sub32 j 1) (u32 (i + 1)) control' bs (write_ll_data base i control' b h)

  -- `dw_hdma_v0_core_write_chunk`
  unfoldable pub write_chunk : Chunk → H → H
  write_chunk c h =
      let (i, h') =
        write_bursts c.ll_region.vaddr c.bursts_alloc 0 (if c.cb then Flag.cb else 0) (bursts c)
          h in
      let control = bit_or Flag.llp Flag.tcb in
      write_ll_link c.ll_region.vaddr i (if c.cb then control else bit_or control Flag.cb)
        c.ll_region.paddr h'
