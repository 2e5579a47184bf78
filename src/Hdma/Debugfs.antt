-- ===== src/Hdma/Debugfs.antt =====
-- akida-dw-edma/dw-hdma-v0-debugfs.c: the registers that debugfs shows, without the names of the
-- files, and how a file is read.
pub mod Files
use akida_dw_edma.Base.{ℕ, zero, suc, ◌+◌, List, [], ◌∷◌, ◌++◌, map, some, ◌≡◌, refl, get_elem?}
use akida_dw_edma.Mmio.{Bus}
use akida_dw_edma.Edma.{Dir, write, read}
use akida_dw_edma.Hdma.Control.{
  ChReg, ch_en, doorbell, llp_lsb, llp_msb, cycle_sync, control1, ch_stat, int_stat, int_setup,
  int_clear, msi_stop_lsb, msi_stop_msb, msi_abort_lsb, msi_abort_msb, msi_msgdata, ch_offset,
  ch_regs,
}

-- `dw_hdma_debugfs_u32_get`, on the offset of the register from the base
unfoldable pub u32_get : {H : Type 0} → Bus H → ℕ → ℕ → H → ℕ × H
u32_get bus base reg h = bus.readl (base + reg) h

-- The registers of `struct dw_hdma_v0_ch_regs` that stand in `dw_hdma_debugfs_regs_ch`, in its
-- order.
abbrev ch_offsets : List ℕ
ch_offsets =
    0x0 ∷ 0x4 ∷ 0x8 ∷ 0xc ∷ 0x10 ∷ 0x14 ∷ 0x18 ∷ 0x1c ∷ 0x20 ∷ 0x24 ∷ 0x28 ∷ 0x2c ∷ 0x30 ∷ 0x34
    ∷ 0x38 ∷ 0x3c ∷ 0x80 ∷ 0x84 ∷ 0x88 ∷ 0x8c ∷ 0x90 ∷ 0x94 ∷ 0x98 ∷ 0x9c ∷ 0xa0 ∷ 0xa4 ∷ 0xa8 ∷ []

-- `dw_hdma_debugfs_regs_ch`
unfoldable pub regs_ch : Dir → ℕ → List ℕ
regs_ch dir ch = map (λ r. ch_regs dir ch + r) ch_offsets

-- `dw_hdma_debugfs_regs_wr` and `dw_hdma_debugfs_regs_rd`: `n` channels from `ch` on
unfoldable pub regs_dir : Dir → ℕ → ℕ → List ℕ
unfolding regs_ch
regs_dir dir zero ch = []
regs_dir dir (suc n) ch = regs_ch dir ch ++ regs_dir dir n (suc ch)

-- `dw_hdma_debugfs_regs`
unfoldable pub regs : ℕ → ℕ → List ℕ
unfolding regs_dir
regs wr_cnt rd_cnt = regs_dir write wr_cnt 0 ++ regs_dir read rd_cnt 0

-- The place of a register's file among those of its channel.
abbrev pub file_of : ChReg → ℕ
file_of ch_en = 0
file_of doorbell = 1
file_of llp_lsb = 4
file_of llp_msb = 5
file_of cycle_sync = 6
file_of control1 = 13
file_of ch_stat = 16
file_of int_stat = 17
file_of int_setup = 18
file_of int_clear = 19
file_of msi_stop_lsb = 20
file_of msi_stop_msb = 21
file_of msi_abort_lsb = 24
file_of msi_abort_msb = 25
file_of msi_msgdata = 26

-- Every register of a channel that the driver uses has a file among those of the channel.
pub regs_ch-file_of :
    (dir : Dir) (ch : ℕ) (r : ChReg)
    → get_elem? (regs_ch dir ch) (file_of r) ≡ some (ch_regs dir ch + ch_offset r)
unfolding regs_ch ch_offset
regs_ch-file_of dir ch ch_en = refl
regs_ch-file_of dir ch doorbell = refl
regs_ch-file_of dir ch llp_lsb = refl
regs_ch-file_of dir ch llp_msb = refl
regs_ch-file_of dir ch cycle_sync = refl
regs_ch-file_of dir ch control1 = refl
regs_ch-file_of dir ch ch_stat = refl
regs_ch-file_of dir ch int_stat = refl
regs_ch-file_of dir ch int_setup = refl
regs_ch-file_of dir ch int_clear = refl
regs_ch-file_of dir ch msi_stop_lsb = refl
regs_ch-file_of dir ch msi_stop_msb = refl
regs_ch-file_of dir ch msi_abort_lsb = refl
regs_ch-file_of dir ch msi_abort_msb = refl
regs_ch-file_of dir ch msi_msgdata = refl
