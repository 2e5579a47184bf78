-- ===== src/V0/Debugfs/Tables.antt =====
-- akida-dw-edma/dw-edma-v0-debugfs.c with dw-edma-v0-regs.h: the names of the files with the offsets
-- of the registers that they show.
use Prim.Native.String.{String}
use akida_dw_edma.Base.{ℕ, ◌+◌, ◌*◌, List, [], ◌∷◌, ◌≡◌, refl}
use akida_dw_edma.Edma.{
  Dir, write, read, MapFormat, edma_legacy, edma_unroll, hdma_compat, hdma_native,
}
use akida_dw_edma.V0.Regs.{ch_regs}

-- The registers of a direction by name, with their offsets in `struct dw_edma_v0_regs`.
abbrev pub global_table : Dir → List (String × ℕ)
global_table write =
    ("engine_en", 0x00c)
    ∷ ("doorbell", 0x010)
    ∷ ("ch_arb_weight.lsb", 0x018)
    ∷ ("ch_arb_weight.msb", 0x01c)
    ∷ ("int_status", 0x04c)
    ∷ ("int_mask", 0x054)
    ∷ ("int_clear", 0x058)
    ∷ ("err_status", 0x05c)
    ∷ ("done_imwr.lsb", 0x060)
    ∷ ("done_imwr.msb", 0x064)
    ∷ ("abort_imwr.lsb", 0x068)
    ∷ ("abort_imwr.msb", 0x06c)
    ∷ ("ch01_imwr_data", 0x070)
    ∷ ("ch23_imwr_data", 0x074)
    ∷ ("ch45_imwr_data", 0x078)
    ∷ ("ch67_imwr_data", 0x07c)
    ∷ ("linked_list_err_en", 0x090)
    ∷ []
global_table read =
    ("engine_en", 0x02c)
    ∷ ("doorbell", 0x030)
    ∷ ("ch_arb_weight.lsb", 0x038)
    ∷ ("ch_arb_weight.msb", 0x03c)
    ∷ ("int_status", 0x0a0)
    ∷ ("int_mask", 0x0a8)
    ∷ ("int_clear", 0x0ac)
    ∷ ("err_status.lsb", 0x0b4)
    ∷ ("err_status.msb", 0x0b8)
    ∷ ("linked_list_err_en", 0x0c4)
    ∷ ("done_imwr.lsb", 0x0cc)
    ∷ ("done_imwr.msb", 0x0d0)
    ∷ ("abort_imwr.lsb", 0x0d4)
    ∷ ("abort_imwr.msb", 0x0d8)
    ∷ ("ch01_imwr_data", 0x0dc)
    ∷ ("ch23_imwr_data", 0x0e0)
    ∷ ("ch45_imwr_data", 0x0e4)
    ∷ ("ch67_imwr_data", 0x0e8)
    ∷ []

-- In the formats that have them.
abbrev pub power_table : Dir → List (String × ℕ)
power_table write =
    ("engine_chgroup", 0x100)
    ∷ ("engine_hshake_cnt.lsb", 0x108)
    ∷ ("engine_hshake_cnt.msb", 0x10c)
    ∷ ("ch0_pwr_en", 0x128)
    ∷ ("ch1_pwr_en", 0x12c)
    ∷ ("ch2_pwr_en", 0x130)
    ∷ ("ch3_pwr_en", 0x134)
    ∷ ("ch4_pwr_en", 0x138)
    ∷ ("ch5_pwr_en", 0x13c)
    ∷ ("ch6_pwr_en", 0x140)
    ∷ ("ch7_pwr_en", 0x144)
    ∷ []
power_table read =
    ("engine_chgroup", 0x104)
    ∷ ("engine_hshake_cnt.lsb", 0x118)
    ∷ ("engine_hshake_cnt.msb", 0x11c)
    ∷ ("ch0_pwr_en", 0x168)
    ∷ ("ch1_pwr_en", 0x16c)
    ∷ ("ch2_pwr_en", 0x170)
    ∷ ("ch3_pwr_en", 0x174)
    ∷ ("ch4_pwr_en", 0x178)
    ∷ ("ch5_pwr_en", 0x17c)
    ∷ ("ch6_pwr_en", 0x180)
    ∷ ("ch7_pwr_en", 0x184)
    ∷ []

-- The registers of a channel, with their offsets in `struct dw_edma_v0_ch_regs`.
abbrev pub channel_table : List (String × ℕ)
channel_table =
    ("ch_control1", 0x00)
    ∷ ("ch_control2", 0x04)
    ∷ ("transfer_size", 0x08)
    ∷ ("sar.lsb", 0x0c)
    ∷ ("sar.msb", 0x10)
    ∷ ("dar.lsb", 0x14)
    ∷ ("dar.msb", 0x18)
    ∷ ("llp.lsb", 0x1c)
    ∷ ("llp.msb", 0x20)
    ∷ []

-- The registers of channel `ch`: in the legacy format all channels share one window.
abbrev pub ch_base : MapFormat → Dir → ℕ → ℕ
ch_base edma_legacy dir ch = 0x100
ch_base edma_unroll write ch = 0x200 + ch * 0x200
ch_base edma_unroll read ch = 0x300 + ch * 0x200
ch_base hdma_compat write ch = 0x200 + ch * 0x200
ch_base hdma_compat read ch = 0x300 + ch * 0x200
ch_base hdma_native write ch = 0x200 + ch * 0x200
ch_base hdma_native read ch = 0x300 + ch * 0x200

pub ch_regs-ch_base : (mf : MapFormat) (dir : Dir) (ch : ℕ) → ch_regs mf dir ch ≡ ch_base mf dir ch
unfolding ch_regs
ch_regs-ch_base edma_legacy dir ch = refl
ch_regs-ch_base edma_unroll write ch = refl
ch_regs-ch_base edma_unroll read ch = refl
ch_regs-ch_base hdma_compat write ch = refl
ch_regs-ch_base hdma_compat read ch = refl
ch_regs-ch_base hdma_native write ch = refl
ch_regs-ch_base hdma_native read ch = refl
