-- ===== src/Visionfive2.antt =====
-- The VisionFive 2 board, src/mainboard/starfive/visionfive2/bt0/src.
pub mod Pll
