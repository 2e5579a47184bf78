-- ===== src/V0.antt =====
-- akida-dw-edma/dw-edma-v0-core.c and dw-edma-v0-regs.h: the register interface of the eDMA.
pub mod Flag
pub mod Lli
pub mod LinkedList
pub mod Regs
pub mod Control
pub mod Interrupt
pub mod Debugfs
