-- ===== src/Sbi.antt =====
-- The supervisor binary interface of src/arch/src/riscv64/sbi.
pub mod Context
pub mod Csr
pub mod Riscv
pub mod Feature
pub mod Runtime
pub mod Execute
pub mod Pmp
pub mod Switch
