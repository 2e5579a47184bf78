-- ===== src/Backport.antt =====
-- kernel/5.4/akida-dw-edma: where the copy of the eDMA core for Linux 5.4 differs from the core.
pub mod Kernel
pub mod Setup
pub mod Probe
