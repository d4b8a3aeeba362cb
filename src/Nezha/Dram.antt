-- ===== src/Nezha/Dram.antt =====
-- The initialisation of the DRAM, src/mainboard/sunxi/nezha/bt0/src/mctl.rs.
pub mod Bus
pub mod Registers
pub mod Params
pub mod Clock
pub mod Setup
pub mod Timing
pub mod Modes
pub mod Channel
pub mod Size
pub mod Scan
pub mod Init
pub mod Ends
pub mod Memory
pub mod Mirrors
pub mod Packing
pub mod Ranks
pub mod Probe
pub mod Reported
pub mod Capacity
pub mod Kept
pub mod Tested
