-- ===== src/Tools.antt =====
-- The tools that run on the host: xtask/ and tools/
pub mod Nezha
pub mod Bin2Vmem
