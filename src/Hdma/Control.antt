-- ===== src/Hdma/Control.antt =====
-- akida-dw-edma/dw-hdma-v0-core.c: the operations of `dw_hdma_v0_core` but `handle_int`, on the
-- registers of dw-hdma-v0-regs.h.
use Prim.Native.Nat.{bit_or}
use akida_dw_edma.Base.{ℕ, zero, suc, ◌+◌, ◌*◌, ◌/◌, ◌%◌, ◌^◌, Bool, ◌==◌, if◌then◌else◌}
use akida_dw_edma.Mmio.{Bus}
use akida_dw_edma.Edma.{
  Dir, write, read, Chunk, MsiMsg, CoreOps, DmaStatus, dma_complete, dma_in_progress, dma_error,
}
use akida_dw_edma.Hdma.LinkedList.{write_chunk}

abbrev pub max_nr_ch : ℕ
max_nr_ch = 8

-- The bits of `int_setup`, `int_stat` and `int_clear`.
abbrev pub abort_int : ℕ
abort_int = 0x4

abbrev pub stop_int : ℕ
stop_int = 0x1

abbrev pub local_ints : ℕ
local_ints = 0x50

abbrev pub remote_ints : ℕ
remote_ints = 0x28

-- The registers of `struct dw_hdma_v0_ch_regs` that the driver uses.
pub data ChReg : Type 0 where
  ch_en doorbell llp_lsb llp_msb cycle_sync control1 ch_stat int_stat int_setup int_clear : ChReg
  msi_stop_lsb msi_stop_msb msi_abort_lsb msi_abort_msb msi_msgdata : ChReg

unfoldable pub ch_offset : ChReg → ℕ
ch_offset ch_en = 0x0
ch_offset doorbell = 0x4
ch_offset llp_lsb = 0x10
ch_offset llp_msb = 0x14
ch_offset cycle_sync = 0x18
ch_offset control1 = 0x34
ch_offset ch_stat = 0x80
ch_offset int_stat = 0x84
ch_offset int_setup = 0x88
ch_offset int_clear = 0x8c
ch_offset msi_stop_lsb = 0x90
ch_offset msi_stop_msb = 0x94
ch_offset msi_abort_lsb = 0xa0
ch_offset msi_abort_msb = 0xa4
ch_offset msi_msgdata = 0xa8

-- `__dw_ch_regs`: the write and the read block of a channel in `struct dw_hdma_v0_ch`.
unfoldable pub ch_regs : Dir → ℕ → ℕ
ch_regs write ch = ch * 0x200
ch_regs read ch = ch * 0x200 + 0x100

-- `enum dw_edma_dir` as a number, and a number where the code passes it for a direction: all
-- but EDMA_DIR_WRITE takes the branch of the read block.
abbrev pub dir_number : Dir → ℕ
dir_number write = 0
dir_number read = 1

abbrev pub as_dir : ℕ → Dir
as_dir zero = write
as_dir (suc n) = read

module _ {H : Type 0} (bus : Bus H) (base : ℕ) (local : Bool) where
  open bus use {writel, readl}

  -- `SET_CH_32` and `GET_CH_32`
  abbrev pub set_ch : Dir → ℕ → ChReg → ℕ → H → H
  set_ch dir ch r x = writel (base + (ch_regs dir ch + ch_offset r)) x

  abbrev pub get_ch : Dir → ℕ → ChReg → H → ℕ × H
  get_ch dir ch r = readl (base + (ch_regs dir ch + ch_offset r))

  -- `SET_BOTH_CH_32`
  abbrev pub set_both_ch : ℕ → ChReg → ℕ → H → H
  set_both_ch ch r x h = set_ch read ch r x (set_ch write ch r x h)

  -- The loop of `dw_hdma_v0_core_off`, with `n` channels left from `id` on.
  unfoldable pub off_from : ℕ → ℕ → H → H
  off_from zero id h = h
  off_from (suc n) id h = off_from n (suc id) (
      set_both_ch id ch_en 0 (
        set_both_ch id int_clear (bit_or stop_int abort_int)
          (set_both_ch id int_setup (bit_or stop_int abort_int) h)))

  -- `dw_hdma_v0_core_off`
  unfoldable pub off : H → H
  unfolding off_from
  off h = off_from max_nr_ch 0 h

  -- `dw_hdma_v0_core_ch_count`
  unfoldable pub ch_count : Dir → H → ℕ × H
  ch_count dir h = (max_nr_ch, h)

  -- `dw_hdma_v0_core_ch_status`, which hands the channel's number to `GET_CH_32` as the
  -- direction, and its direction as the number.
  unfoldable pub ch_status : Dir → ℕ → H → DmaStatus × H
  ch_status dir id h =
      let (x, h') = get_ch (as_dir id) (dir_number dir) ch_stat h in
      let tmp = x % 4 in
      (if tmp == 1 then dma_in_progress else (if tmp == 3 then dma_complete else dma_error), h')

  -- The value that `dw_hdma_v0_core_start` writes to `int_setup`.
  abbrev pub ints_on : ℕ → ℕ
  ints_on tmp =
      let on = bit_or (bit_or (bit_or tmp stop_int) abort_int) local_ints in
      if local then on else bit_or on remote_ints

  -- What `dw_hdma_v0_core_start` does for the first chunk of a transfer only.
  unfoldable pub start_first : Dir → ℕ → ℕ → H → H
  start_first dir id paddr h =
      let h₁ = set_ch dir id ch_en 1 h in
      let (tmp, h₂) = get_ch dir id int_setup h₁ in
      let h₃ = set_ch dir id control1 1 (set_ch dir id int_setup (ints_on tmp) h₂) in
      set_ch dir id llp_msb (paddr / 2 ^ 32 % 2 ^ 32) (set_ch dir id llp_lsb (paddr % 2 ^ 32) h₃)

  -- The read that makes sure that the linked list has arrived.
  unfoldable pub flush : Chunk → H → H
  flush c h = if local then h else (readl c.ll_region.vaddr h).1

  -- `dw_hdma_v0_core_start`
  unfoldable pub start : Dir → ℕ → Chunk → Bool → H → H
  start dir id c first h =
      let h₁ = write_chunk bus local c h in
      let h₂ = if first then start_first dir id c.ll_region.paddr h₁ else h₁ in
      set_ch dir id doorbell 1 (flush c (set_ch dir id cycle_sync 3 h₂))

  -- `dw_hdma_v0_core_ch_config`
  unfoldable pub ch_config : Dir → ℕ → MsiMsg → H → H
  ch_config dir id msi h =
      let h₁ =
        set_ch dir id msi_stop_msb msi.address_hi (set_ch dir id msi_stop_lsb msi.address_lo h) in
      let h₂ =
        set_ch dir id msi_abort_msb msi.address_hi
          (set_ch dir id msi_abort_lsb msi.address_lo h₁) in
      set_ch dir id msi_msgdata msi.msg_data h₂

  -- `dw_hdma_v0_core`
  unfoldable pub hdma_core : CoreOps H
  hdma_core = record {
    off = off;
    ch_count = ch_count;
    ch_status = ch_status;
    start = start;
    ch_config = ch_config;
  }
