-- ===== src/Hdma/Lli.antt =====
-- The size of `struct dw_hdma_v0_lli` of akida-dw-edma/dw-hdma-v0-regs.h, and the offsets of its
-- fields behind `control`.
use akida_dw_edma.Base.{ℕ}

abbrev pub size : ℕ
size = 24

abbrev pub transfer_size : ℕ
transfer_size = 4

abbrev pub sar : ℕ
sar = 8

abbrev pub dar : ℕ
dar = 16
