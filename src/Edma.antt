-- ===== src/Edma.antt =====
-- akida-dw-edma/dw-edma-core.h and kernel/common/include/edma.h: the types of the eDMA core.
pub mod Alloc
pub mod Transfer
pub mod Channel
pub mod Setup
pub mod Interrupts
pub mod Probe
pub mod Debugfs
use akida_dw_edma.Base.{ℕ, List, Option, Bool, true, false, ◌==◌, ◌%◌}

-- `enum dw_edma_dir`
pub data Dir : Type 0 where
  write read : Dir

-- `enum dw_edma_request`
pub data Request : Type 0 where
  req_none req_stop req_pause : Request

-- `enum dw_edma_status`
pub data Status : Type 0 where
  idle paused busy : Status

-- `enum dw_edma_map_format`
pub data MapFormat : Type 0 where
  edma_legacy edma_unroll hdma_compat hdma_native : MapFormat

-- The kernel's `enum dma_transfer_direction`.
pub data XferDirection : Type 0 where
  mem_to_mem mem_to_dev dev_to_mem dev_to_dev : XferDirection

-- The kernel's `enum dma_status`.
pub data DmaStatus : Type 0 where
  dma_complete dma_in_progress dma_paused dma_error : DmaStatus

-- The error numbers that the drivers return; `success` is 0.
pub data Errno : Type 0 where
  success eperm enomem efault ebusy einval enodev etimedout eopnotsupp : Errno

abbrev pub is_success : Errno → Bool
is_success success = true
is_success _ = false

abbrev pub is_complete : DmaStatus → Bool
is_complete dma_complete = true
is_complete _ = false

abbrev pub is_in_progress : DmaStatus → Bool
is_in_progress dma_in_progress = true
is_in_progress _ = false

abbrev pub is_write : Dir → Bool
is_write write = true
is_write read = false

abbrev pub is_read : Dir → Bool
is_read write = false
is_read read = true

abbrev pub is_req_none : Request → Bool
is_req_none req_none = true
is_req_none req_stop = false
is_req_none req_pause = false

abbrev pub is_idle : Status → Bool
is_idle idle = true
is_idle paused = false
is_idle busy = false

abbrev pub is_paused : Status → Bool
is_paused idle = false
is_paused paused = true
is_paused busy = false

abbrev pub is_busy : Status → Bool
is_busy idle = false
is_busy paused = false
is_busy busy = true

abbrev pub is_dev_to_mem : XferDirection → Bool
is_dev_to_mem dev_to_mem = true
is_dev_to_mem _ = false

abbrev pub is_mem_to_dev : XferDirection → Bool
is_mem_to_dev mem_to_dev = true
is_mem_to_dev _ = false

-- `struct dw_edma_region`: a bus address, the same memory as the CPU sees it, and a size.
pub record Region : Type 0 where
  pub paddr : ℕ  -- u64
  pub vaddr : ℕ
  pub sz : ℕ  -- size_t

-- `struct dw_edma_burst`, less its list node.
pub record Burst : Type 0 where
  pub sar : ℕ  -- u64
  pub dar : ℕ  -- u64
  pub sz : ℕ  -- u32

-- `struct dw_edma_chunk`. `burst` is `none` for NULL; `some bs` is an allocated list head, which
-- carries no data, with the bursts `bs` linked behind it. The channel is an argument of the
-- functions that read it.
pub record Chunk : Type 0 where
  pub burst : Option (List Burst)
  pub bursts_alloc : ℕ  -- u32
  pub cb : Bool
  pub ll_region : Region

-- `struct dw_edma_desc`. `chunk` is `none` for NULL; `some cs` is an allocated list head, whose
-- data nothing reads, with the chunks `cs` linked behind it.
pub record Desc : Type 0 where
  pub chunk : Option (List Chunk)
  pub chunks_alloc : ℕ  -- u32
  pub alloc_sz : ℕ  -- u32
  pub xfer_sz : ℕ  -- u32

-- The kernel's `struct dma_slave_config`, as far as the driver reads it.
pub record SlaveConfig : Type 0 where
  pub src_addr : ℕ
  pub dst_addr : ℕ

-- The kernel's `struct msi_msg`.
pub record MsiMsg : Type 0 where
  pub address_lo : ℕ
  pub address_hi : ℕ
  pub msg_data : ℕ

-- `struct dw_edma_chip`: what the platform driver tells the core. `pci_address` and `irq_vector`
-- are the members of `struct dw_edma_plat_ops`, `none` for NULL.
pub record Chip : Type 0 where
  pub nr_irqs : ℕ
  pub irq_vector : Option (ℕ → ℕ)
  pub pci_address : Option (ℕ → ℕ)
  pub flags : ℕ  -- u32
  pub ll_wr_cnt : ℕ  -- u16
  pub ll_rd_cnt : ℕ  -- u16
  pub ll_region_wr : List Region
  pub ll_region_rd : List Region
  pub dt_region_wr : List Region
  pub dt_region_rd : List Region
  pub mf : MapFormat

-- `flags & DW_EDMA_CHIP_LOCAL`, which is bit 0.
abbrev pub is_local : Chip → Bool
is_local c = c.flags % 2 == 1

-- `struct dw_edma_chan` over a virtual channel `V`.
pub record Chan (V : Type 0) : Type 0 where
  pub vc : V
  pub id : ℕ
  pub dir : Dir
  pub ll_max : ℕ  -- u32
  pub msi : MsiMsg
  pub request : Request
  pub status : Status
  pub configured : Bool
  pub config : SlaveConfig

-- `struct dw_edma_core_ops` over a hardware state `H`, less `handle_int`, which calls back into
-- the core, and `debugfs_on`. A channel is given by its direction and number.
pub record CoreOps (H : Type 0) : Type 0 where
  pub off : H → H
  pub ch_count : Dir → H → ℕ × H
  pub ch_status : Dir → ℕ → H → DmaStatus × H
  pub start : Dir → ℕ → Chunk → Bool → H → H
  pub ch_config : Dir → ℕ → MsiMsg → H → H
