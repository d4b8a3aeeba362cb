-- ===== src/Nezha.antt =====
-- The mainboard src/mainboard/sunxi/nezha.
pub mod SbiPlatform
pub mod Dram
pub mod Flash
pub mod Loader
