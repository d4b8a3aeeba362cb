-- ===== src/D1.antt =====
-- The Allwinner D1, src/soc/src/sunxi/d1.
pub mod Smhc
