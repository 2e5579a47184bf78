-- ===== src/Akida.antt =====
-- akida-pcie-core.c: the PCIe driver, its channels, its file operations and its probe.
pub mod Kernel
pub mod Channels
pub mod Pool
pub mod Transfer
pub mod Engine
pub mod File
pub mod Mmap
pub mod HostDdr
pub mod Probe
pub mod Regions
pub mod Iatu
pub mod Filter
