-- ===== src/Hdma/Flag.antt =====
-- `enum dw_hdma_control` of akida-dw-edma/dw-hdma-v0-core.c.
use akida_dw_edma.Base.{ℕ}

abbrev pub cb : ℕ
cb = 0x1

abbrev pub tcb : ℕ
tcb = 0x2

abbrev pub llp : ℕ
llp = 0x4

abbrev pub lie : ℕ
lie = 0x8

abbrev pub rie : ℕ
rie = 0x10

abbrev pub ccs : ℕ
ccs = 0x100

abbrev pub lle : ℕ
lle = 0x200
