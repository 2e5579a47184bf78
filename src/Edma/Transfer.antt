-- ===== src/Edma/Transfer.antt =====
-- akida-dw-edma/dw-edma-core.c: preparing a transfer (`dw_edma_device_transfer` and the three
-- `device_prep` callbacks): the transfers, their checks and their addresses.
pub mod Build
pub mod Filled
pub mod Contents
pub mod Accounts
pub mod Device
pub mod Repeated
pub mod Addresses
use akida_dw_edma.Base.{
  ℕ, zero, suc, ◌+◌, ◌*◌, ◌%◌, List, [], ◌∷◌, Option, none, some, Bool, true, false, not, ◌&&◌,
  ◌||◌, ◌==◌, ltb, u32, u64, get_or, is_empty, last_or, update_last, if◌then◌else◌,
}
use akida_dw_edma.Vchan.{VchanOps}
use akida_dw_edma.Edma.{
  Dir, Region, Burst, Chunk, Desc, Chip, Chan, SlaveConfig, XferDirection, mem_to_mem, mem_to_dev,
  dev_to_mem, dev_to_dev, is_write, is_read, is_dev_to_mem, is_mem_to_dev, is_local,
}
use akida_dw_edma.Edma.Alloc.{
  Heap, zero_burst, zero_region, alloc_burst, alloc_chunk, alloc_desc, free_desc,
}

-- An entry of the kernel's `struct scatterlist`, as `sg_dma_address` and `sg_dma_len` read it.
pub record SgEntry : Type 0 where
  pub address : ℕ
  pub len : ℕ  -- unsigned int

-- The kernel's `struct data_chunk`.
pub record DataChunk : Type 0 where
  pub size : ℕ
  pub icg : ℕ
  pub dst_icg : ℕ
  pub src_icg : ℕ

-- The kernel's `struct dma_interleaved_template`.
pub record Template : Type 0 where
  pub src_start : ℕ
  pub dst_start : ℕ
  pub dir : XferDirection
  pub src_inc : Bool
  pub dst_inc : Bool
  pub src_sgl : Bool
  pub dst_sgl : Bool
  pub numf : ℕ
  pub frame_size : ℕ
  pub sgl : List DataChunk

-- `enum dw_edma_xfer_type` with `union dw_edma_xfer`. A scatterlist runs to its end marker.
pub data Xfer : Type 0 where
  scatter_gather : List SgEntry → ℕ → Xfer
  cyclic : ℕ → ℕ → ℕ → Xfer
  interleaved : Template → Xfer

-- `struct dw_edma_transfer`, less the channel.
pub record EdmaTransfer : Type 0 where
  pub xfer : Xfer
  pub direction : XferDirection
  pub flags : ℕ

-- The direction that the channel carries out: DEV_TO_MEM on the read channels of a local eDMA
-- and the write channels of a remote one, and MEM_TO_DEV on the others.
unfoldable pub accepts_direction : Bool → Dir → XferDirection → Bool
accepts_direction local cdir dir =
    if local
    then not
        ((is_read cdir && not (is_dev_to_mem dir)) || (is_write cdir && not (is_mem_to_dev dir)))
    else not
        ((is_write cdir && not (is_dev_to_mem dir)) || (is_read cdir && not (is_mem_to_dev dir)))

unfoldable pub accepts_xfer : Xfer → Bool
accepts_xfer (cyclic paddr len cnt) = not (len == 0 || cnt == 0)
accepts_xfer (scatter_gather sgl len) = not (ltb len 1)
accepts_xfer (interleaved il) =
    not (il.numf == 0 || ltb il.frame_size 1) && not (not il.src_inc || not il.dst_inc)

-- The tests at the head of `dw_edma_device_transfer`.
unfoldable pub is_accepted : {V : Type 0} → Chip → Chan V → EdmaTransfer → Bool
unfolding accepts_direction accepts_xfer
is_accepted chip ch t =
    ch.configured && accepts_direction (is_local chip) ch.dir t.direction && accepts_xfer t.xfer

-- `dw_edma_get_pci_address`
unfoldable pub get_pci_address : Chip → ℕ → ℕ
get_pci_address chip addr = elim chip.pci_address [ some f ↦ f addr | none ↦ addr ]

-- The local variables `src_addr`, `dst_addr` and `sg` of the loop.
pub record Cursor : Type 0 where
  pub src : ℕ  -- u64
  pub dst : ℕ  -- u64
  pub sg : List SgEntry

abbrev pub is_sg : Xfer → Bool
is_sg (scatter_gather sgl len) = true
is_sg (cyclic paddr len cnt) = false
is_sg (interleaved il) = false

abbrev pub zero_entry : SgEntry
zero_entry = record { address = 0; len = 0 }

abbrev pub zero_data : DataChunk
zero_data = record { size = 0; icg = 0; dst_icg = 0; src_icg = 0 }

abbrev pub head_entry : List SgEntry → SgEntry
head_entry [] = zero_entry
head_entry (e ∷ sg) = e

abbrev pub next_entry : List SgEntry → List SgEntry
next_entry [] = []
next_entry (e ∷ sg) = sg

-- `il->sgl[i % fsz]`; the template holds `frame_size` entries.
abbrev pub data_at : Template → ℕ → DataChunk
data_at il i = get_or il.sgl (i % il.frame_size) zero_data

-- What a round of the loop writes into its burst.
unfoldable pub burst_at : Xfer → XferDirection → ℕ → Cursor → Burst
burst_at (cyclic paddr len cnt) dir i c =
    if is_dev_to_mem dir
    then record { sar = c.src; dar = paddr; sz = u32 len }
    else record { sar = paddr; dar = c.dst; sz = u32 len }
burst_at (scatter_gather sgl len) dir i c =
    if is_dev_to_mem dir
    then record { sar = c.src; dar = (head_entry c.sg).address; sz = (head_entry c.sg).len }
    else record { sar = (head_entry c.sg).address; dar = c.dst; sz = (head_entry c.sg).len }
burst_at (interleaved il) dir i c = record {
  sar = c.src;
  dar = c.dst;
  sz = u32 (data_at il i).size;
}

unfoldable pub start_addresses : SlaveConfig → Xfer → Cursor
start_addresses config (interleaved il) = record { src = il.src_start; dst = il.dst_start; sg = [] }
start_addresses config (scatter_gather sgl len) = record {
  src = config.src_addr;
  dst = config.dst_addr;
  sg = sgl;
}
start_addresses config (cyclic paddr len cnt) = record {
  src = config.src_addr;
  dst = config.dst_addr;
  sg = [];
}

-- The cursor at the start of the loop: the address on the device's side is a PCI address.
unfoldable pub start_cursor : Chip → SlaveConfig → Xfer → XferDirection → Cursor
unfolding start_addresses
start_cursor chip config x dir =
    let c = start_addresses config x in
    if is_dev_to_mem dir
    then record c { src = get_pci_address chip c.src }
    else record c { dst = get_pci_address chip c.dst }

-- `cnt`
unfoldable pub burst_count : Xfer → ℕ
burst_count (cyclic paddr len cnt) = u32 cnt
burst_count (scatter_gather sgl len) = u32 len
burst_count (interleaved il) = u32 (il.numf * il.frame_size)

-- `src_icg` and `dst_icg` stand for `dmaengine_get_src_icg` and `dmaengine_get_dst_icg`.
module _ (src_icg dst_icg : Template → DataChunk → ℕ) where
  -- What a round of the loop adds to the addresses.
  unfoldable pub advance : Xfer → XferDirection → ℕ → Cursor → Cursor
  advance (cyclic paddr len cnt) dir i c = c
  advance (scatter_gather sgl len) dir i c =
      if is_dev_to_mem dir
      then record c { src = u64 (c.src + (head_entry c.sg).len); sg = next_entry c.sg }
      else record c { dst = u64 (c.dst + (head_entry c.sg).len); sg = next_entry c.sg }
  advance (interleaved il) dir i c =
      let step = u32 (data_at il i).size in
      record c {
        src =
            if il.src_sgl
            then u64 (u64 (c.src + step) + src_icg il (data_at il i))
            else u64 (c.src + step);
        dst =
            if il.dst_sgl
            then u64 (u64 (c.dst + step) + dst_icg il (data_at il i))
            else u64 (c.dst + step);
      }
