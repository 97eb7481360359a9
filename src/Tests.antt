-- ===== src/Tests.antt =====
-- The theorems at concrete inputs.
pub mod Math
pub mod Mem
pub mod Decoupled
pub mod Copy
pub mod Host
pub mod Probe
pub mod Ps
pub mod Maps
pub mod Startup
pub mod Sessions
pub mod Walk
pub mod Dma
