-- ===== src/Tests.antt =====
-- Runs of the definitions on concrete inputs, and the theorems at such inputs.
pub mod Data
pub mod Transfers
pub mod Channels
pub mod Engines
pub mod Device
pub mod Carried
pub mod Cores
pub mod Probes
pub mod Boards
pub mod Bindings
pub mod Backport
pub mod Files
