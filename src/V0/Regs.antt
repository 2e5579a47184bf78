-- ===== src/V0/Regs.antt =====
-- akida-dw-edma/dw-edma-v0-regs.h: where the registers stand. All offsets are those of the packed
-- structures, from the register base of the chip.
use akida_dw_edma.Base.{ℕ, ◌+◌, ◌*◌}
use akida_dw_edma.Edma.{
  Dir, write, read, MapFormat, edma_legacy, edma_unroll, hdma_compat, hdma_native,
}

-- The registers of `struct dw_edma_v0_regs` that stand there for either direction. `imwr_data k`
-- serves the channels 2 k and 2 k + 1.
pub data Reg : Type 0 where
  engine_en doorbell int_status int_mask int_clear linked_list_err_en : Reg
  done_imwr_lsb done_imwr_msb abort_imwr_lsb abort_imwr_msb : Reg
  imwr_data : ℕ → Reg

abbrev pub ctrl : ℕ
ctrl = 0x8

unfoldable pub offset : Dir → Reg → ℕ
offset write engine_en = 0xc
offset write doorbell = 0x10
offset write int_status = 0x4c
offset write int_mask = 0x54
offset write int_clear = 0x58
offset write done_imwr_lsb = 0x60
offset write done_imwr_msb = 0x64
offset write abort_imwr_lsb = 0x68
offset write abort_imwr_msb = 0x6c
offset write (imwr_data k) = 0x70 + 4 * k
offset write linked_list_err_en = 0x90
offset read engine_en = 0x2c
offset read doorbell = 0x30
offset read int_status = 0xa0
offset read int_mask = 0xa8
offset read int_clear = 0xac
offset read linked_list_err_en = 0xc4
offset read done_imwr_lsb = 0xcc
offset read done_imwr_msb = 0xd0
offset read abort_imwr_lsb = 0xd4
offset read abort_imwr_msb = 0xd8
offset read (imwr_data k) = 0xdc + 4 * k

-- `viewport_sel` of `struct dw_edma_v0_legacy`: the registers before it end at 0xfc.
abbrev pub viewport_sel : ℕ
viewport_sel = 0xfc

-- `ch<id>_pwr_en` of `struct dw_edma_v0_unroll`.
unfoldable pub pwr_en : Dir → ℕ → ℕ
pwr_en write id = 0x128 + 4 * id
pwr_en read id = 0x168 + 4 * id

-- The registers of `struct dw_edma_v0_ch_regs` that the driver uses.
pub data ChReg : Type 0 where
  ch_control1 llp_lsb llp_msb : ChReg

unfoldable pub ch_offset : ChReg → ℕ
ch_offset ch_control1 = 0x0
ch_offset llp_lsb = 0x1c
ch_offset llp_msb = 0x20

-- `__dw_ch_regs`: one window for all channels in the legacy format, else two blocks of 0x100
-- bytes for each channel.
unfoldable pub ch_regs : MapFormat → Dir → ℕ → ℕ
ch_regs edma_legacy dir ch = 0x100
ch_regs edma_unroll write ch = 0x200 + ch * 0x200
ch_regs edma_unroll read ch = 0x300 + ch * 0x200
ch_regs hdma_compat write ch = 0x200 + ch * 0x200
ch_regs hdma_compat read ch = 0x300 + ch * 0x200
ch_regs hdma_native write ch = 0x200 + ch * 0x200
ch_regs hdma_native read ch = 0x300 + ch * 0x200
