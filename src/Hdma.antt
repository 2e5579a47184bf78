-- ===== src/Hdma.antt =====
-- akida-dw-edma/dw-hdma-v0-core.c and dw-hdma-v0-regs.h: the register interface of the HDMA.
pub mod Flag
pub mod Lli
pub mod LinkedList
pub mod Control
pub mod Status
pub mod Interrupt
pub mod Debugfs
