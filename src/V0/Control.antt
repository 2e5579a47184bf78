-- ===== src/V0/Control.antt =====
-- akida-dw-edma/dw-edma-v0-core.c: the operations of `dw_edma_v0_core` but `handle_int`.
pub mod Bits
pub mod Config
pub mod Stores
pub mod Start
use Prim.Native.Nat.{bit_and, bit_or}
use akida_dw_edma.Base.{
  ℕ, ◌+◌, ◌*◌, ◌/◌, ◌%◌, ◌^◌, Bool, true, false, ◌&&◌, ◌==◌, ltb, if◌then◌else◌,
}
use akida_dw_edma.Base.Bits.{bit, not32}
use akida_dw_edma.Mmio.{Bus}
use akida_dw_edma.Edma.{
  Dir, write, read, MapFormat, edma_legacy, hdma_compat, Chunk, MsiMsg, CoreOps, DmaStatus,
  dma_complete, dma_in_progress, dma_error, is_read,
}
use akida_dw_edma.V0.Flag
use akida_dw_edma.V0.LinkedList.{write_chunk}
use akida_dw_edma.V0.Regs.{
  Reg, engine_en, doorbell, int_mask, int_clear, linked_list_err_en, done_imwr_lsb, done_imwr_msb,
  abort_imwr_lsb, abort_imwr_msb, imwr_data, ctrl, offset, viewport_sel, pwr_en, ChReg, ch_control1,
  llp_lsb, llp_msb, ch_offset, ch_regs,
}

abbrev pub is_legacy : MapFormat → Bool
is_legacy edma_legacy = true
is_legacy _ = false

abbrev pub is_compat : MapFormat → Bool
is_compat hdma_compat = true
is_compat _ = false

-- `FIELD_PREP` of a channel's bit in the done and in the abort half of an interrupt register.
abbrev pub done_bit : ℕ → ℕ
done_bit id = bit id % 256

abbrev pub abort_bit : ℕ → ℕ
abort_bit id = bit id % 256 * 65536

-- EDMA_V0_DONE_INT_MASK | EDMA_V0_ABORT_INT_MASK
abbrev pub all_ints : ℕ
all_ints = 0xff00ff

-- `base` is the register base, `local` the chip's flag and `mf` its register map.
module _ {H : Type 0} (bus : Bus H) (base : ℕ) (local : Bool) (mf : MapFormat) where
  open bus use {writel, readl}

  -- `SET_RW_32` and `GET_RW_32`
  abbrev pub set_rw : Dir → Reg → ℕ → H → H
  set_rw dir r x = writel (base + offset dir r) x

  abbrev pub get_rw : Dir → Reg → H → ℕ × H
  get_rw dir r = readl (base + offset dir r)

  -- `SET_BOTH_32`
  abbrev pub set_both : Reg → ℕ → H → H
  set_both r x h = set_rw read r x (set_rw write r x h)

  -- In the legacy format the viewport selects the channel; both accesses are under one lock.
  unfoldable pub select : Dir → ℕ → H → H
  select dir ch h =
      if is_legacy mf
      then writel (base + viewport_sel) (if is_read dir then bit_or (ch % 8) (bit 31) else ch % 8) h
      else h

  -- `SET_CH_32` through `writel_ch`, and `GET_CH_32` through `readl_ch`.
  unfoldable pub writel_ch : Dir → ℕ → ChReg → ℕ → H → H
  writel_ch dir ch r x h = writel (base + (ch_regs mf dir ch + ch_offset r)) x (select dir ch h)

  unfoldable pub readl_ch : Dir → ℕ → ChReg → H → ℕ × H
  readl_ch dir ch r h = readl (base + (ch_regs mf dir ch + ch_offset r)) (select dir ch h)

  -- `dw_edma_v0_core_off`
  unfoldable pub off : H → H
  off h = set_both engine_en 0 (set_both int_clear all_ints (set_both int_mask all_ints h))

  -- `dw_edma_v0_core_ch_count`
  unfoldable pub ch_count : Dir → H → ℕ × H
  ch_count dir h =
      let (x, h') = readl (base + ctrl) h in
      let n = if is_read dir then x / 65536 % 16 else x % 16 in (if ltb 8 n then 8 else n, h')

  -- `dw_edma_v0_core_ch_status`
  unfoldable pub ch_status : Dir → ℕ → H → DmaStatus × H
  ch_status dir id h =
      let (x, h') = readl_ch dir id ch_control1 h in
      let tmp = x / 32 % 4 in
      (if tmp == 1 then dma_in_progress else (if tmp == 3 then dma_complete else dma_error), h')

  -- The power switch of the channels 0 to 7 of an HDMA in compatible mode.
  unfoldable pub power_on : Dir → ℕ → H → H
  power_on dir id h = if is_compat mf && ltb id 8 then writel (base + pwr_en dir id) 1 h else h

  -- `tmp &= ~FIELD_PREP(...)` for both interrupts of a channel.
  abbrev pub unmasked : ℕ → ℕ → ℕ
  unmasked id tmp = bit_and (bit_and tmp (not32 (done_bit id))) (not32 (abort_bit id))

  unfoldable pub unmask : Dir → ℕ → H → H
  unmask dir id h =
      let (tmp, h') = get_rw dir int_mask h in set_rw dir int_mask (unmasked id tmp) h'

  unfoldable pub enable_ll_err : Dir → ℕ → H → H
  enable_ll_err dir id h =
      let (tmp, h') = get_rw dir linked_list_err_en h in
      set_rw dir linked_list_err_en (bit_or tmp (done_bit id)) h'

  -- What `dw_edma_v0_core_start` does for the first chunk of a transfer only.
  unfoldable pub start_first : Dir → ℕ → ℕ → H → H
  start_first dir id paddr h =
      let h₁ = power_on dir id (set_rw dir engine_en 1 h) in
      let h₂ = enable_ll_err dir id (unmask dir id h₁) in
      let h₃ = writel_ch dir id ch_control1 (bit_or Flag.ccs Flag.lle) h₂ in
      writel_ch dir id llp_msb (paddr / 2 ^ 32 % 2 ^ 32)
        (writel_ch dir id llp_lsb (paddr % 2 ^ 32) h₃)

  -- The read that makes sure that the linked list has arrived.
  unfoldable pub flush : Chunk → H → H
  flush c h = if local then h else (readl c.ll_region.vaddr h).1

  -- `dw_edma_v0_core_start`
  unfoldable pub start : Dir → ℕ → Chunk → Bool → H → H
  start dir id c first h =
      let h₁ = write_chunk bus local c h in
      let h₂ = if first then start_first dir id c.ll_region.paddr h₁ else h₁ in
      set_rw dir doorbell (id % 8) (flush c h₂)

  -- The MSI data of the other channel of the pair is kept.
  abbrev pub msi_data : ℕ → ℕ → ℕ → ℕ
  msi_data id payload tmp =
      if id % 2 == 1
      then bit_or (bit_and tmp 0xffff) (payload % 65536 * 65536)
      else bit_or (bit_and tmp 0xffff0000) (payload % 65536)

  -- `dw_edma_v0_core_ch_config`: a channel above 7 has no MSI data register.
  unfoldable pub ch_config : Dir → ℕ → MsiMsg → H → H
  ch_config dir id msi h =
      let h₁ =
        set_rw dir done_imwr_msb msi.address_hi (set_rw dir done_imwr_lsb msi.address_lo h) in
      let h₂ =
        set_rw dir abort_imwr_msb msi.address_hi (set_rw dir abort_imwr_lsb msi.address_lo h₁) in
      let (tmp, h₃) = get_rw dir (imwr_data (id / 2)) h₂ in
      if ltb id 8 then set_rw dir (imwr_data (id / 2)) (msi_data id msi.msg_data tmp) h₃ else h₂

  -- `dw_edma_v0_core`
  unfoldable pub v0_core : CoreOps H
  v0_core = record {
    off = off;
    ch_count = ch_count;
    ch_status = ch_status;
    start = start;
    ch_config = ch_config;
  }
