-- ===== src/V0/Debugfs.antt =====
-- akida-dw-edma/dw-edma-v0-debugfs.c: the registers that debugfs shows, without the names of the
-- files, and how a file is read.
pub mod Reads
pub mod Tables
pub mod Files
use Prim.Native.Nat.{bit_or}
use akida_dw_edma.Base.{
  ℕ, zero, suc, ◌+◌, ◌*◌, ◌%◌, Bool, ◌&&◌, leb, if◌then◌else◌, List, [], ◌∷◌, ◌++◌, map,
}
use akida_dw_edma.Base.Bits.{bit}
use akida_dw_edma.Mmio.{Bus}
use akida_dw_edma.Edma.{Dir, write, read, MapFormat, is_read}
use akida_dw_edma.V0.Regs.{
  Reg, engine_en, doorbell, int_status, int_mask, int_clear, linked_list_err_en, done_imwr_lsb,
  done_imwr_msb, abort_imwr_lsb, abort_imwr_msb, imwr_data, ctrl, offset, pwr_en, ch_regs,
  viewport_sel,
}
use akida_dw_edma.V0.Control.{is_legacy, is_compat}

-- `struct dw_edma_debugfs_entry`, less its pointer to the core and its name. `reg` is an offset
-- from the register base.
pub record Entry : Type 0 where
  pub reg : ℕ
  pub dir : Dir
  pub ch : ℕ

-- The first two bytes of `legacy.ch`.
abbrev pub legacy_ch : ℕ
legacy_ch = 0x100

-- `dw_edma_debugfs_u32_get`
unfoldable pub u32_get : {H : Type 0} → Bus H → ℕ → MapFormat → Entry → H → ℕ × H
u32_get bus base mf e h =
    let sel = bit_or (if is_read e.dir then bit 31 else 0) (e.ch % 8) in
    if is_legacy mf && leb legacy_ch e.reg
    then bus.readl (base + e.reg) (bus.writel (base + viewport_sel) sel h)
    else bus.readl (base + e.reg) h

-- `REGISTER`, `WR_REGISTER` and the like, which leave the channel zero.
abbrev pub register : ℕ → Entry
register r = record { reg = r; dir = write; ch = 0 }

-- The offsets of `struct dw_edma_v0_ch_regs`.
abbrev pub ch_offsets : List ℕ
ch_offsets = 0x0 ∷ 0x4 ∷ 0x8 ∷ 0xc ∷ 0x10 ∷ 0x14 ∷ 0x18 ∷ 0x1c ∷ 0x20 ∷ []

-- `dw_edma_debugfs_regs_ch`
unfoldable pub regs_ch : MapFormat → Dir → ℕ → List Entry
regs_ch mf dir ch = map (λ r. record { reg = ch_regs mf dir ch + r; dir = dir; ch = ch }) ch_offsets

-- The last files of `debugfs_unroll_regs`.
abbrev pub pwr_regs : Dir → ℕ → ℕ → List Entry
pwr_regs dir zero ch = []
pwr_regs dir (suc n) ch = register (pwr_en dir ch) ∷ pwr_regs dir n (suc ch)

-- `debugfs_unroll_regs` of the two directions: the groups, the counts and the power switches.
unfoldable pub unroll_regs : Dir → List Entry
unroll_regs write = register 0x100 ∷ register 0x108 ∷ register 0x10c ∷ pwr_regs write 8 0
unroll_regs read = register 0x104 ∷ register 0x118 ∷ register 0x11c ∷ pwr_regs read 8 0

-- `debugfs_regs` of the two directions. `ch_arb_weight` and `err_status` stand there by their
-- offsets.
unfoldable pub global_regs : Dir → List Entry
global_regs write = map register (
    offset write engine_en
    ∷ offset write doorbell
    ∷ 0x18
    ∷ 0x1c
    ∷ offset write int_status
    ∷ offset write int_mask
    ∷ offset write int_clear
    ∷ 0x5c
    ∷ offset write done_imwr_lsb
    ∷ offset write done_imwr_msb
    ∷ offset write abort_imwr_lsb
    ∷ offset write abort_imwr_msb
    ∷ offset write (imwr_data 0)
    ∷ offset write (imwr_data 1)
    ∷ offset write (imwr_data 2)
    ∷ offset write (imwr_data 3)
    ∷ offset write linked_list_err_en
    ∷ [])
global_regs read = map register (
    offset read engine_en
    ∷ offset read doorbell
    ∷ 0x38
    ∷ 0x3c
    ∷ offset read int_status
    ∷ offset read int_mask
    ∷ offset read int_clear
    ∷ 0xb4
    ∷ 0xb8
    ∷ offset read linked_list_err_en
    ∷ offset read done_imwr_lsb
    ∷ offset read done_imwr_msb
    ∷ offset read abort_imwr_lsb
    ∷ offset read abort_imwr_msb
    ∷ offset read (imwr_data 0)
    ∷ offset read (imwr_data 1)
    ∷ offset read (imwr_data 2)
    ∷ offset read (imwr_data 3)
    ∷ [])

-- The files of `n` channels from `ch` on.
unfoldable pub channels_from : MapFormat → Dir → ℕ → ℕ → List Entry
unfolding regs_ch
channels_from mf dir zero ch = []
channels_from mf dir (suc n) ch = regs_ch mf dir ch ++ channels_from mf dir n (suc ch)

-- `dw_edma_debugfs_regs_wr` and `dw_edma_debugfs_regs_rd`, with the number of channels
unfoldable pub regs_dir : MapFormat → Dir → ℕ → List Entry
unfolding global_regs unroll_regs channels_from
regs_dir mf dir cnt =
    global_regs dir
    ++ ((if is_compat mf then unroll_regs dir else []) ++ channels_from mf dir cnt 0)

-- `dw_edma_debugfs_regs`
unfoldable pub regs : MapFormat → ℕ → ℕ → List Entry
unfolding regs_dir
regs mf wr_cnt rd_cnt =
    register 0x0 ∷ register ctrl ∷ regs_dir mf write wr_cnt ++ regs_dir mf read rd_cnt
