-- ===== src/D1/Smhc.antt =====
-- The SD/MMC host controller, src/soc/src/sunxi/d1/smhc.
pub mod Card
pub mod Idmac
pub mod Host
pub mod Commands
pub mod Cards
pub mod Blocks
pub mod Setup
