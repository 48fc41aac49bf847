-- ===== src/Tests.antt =====
-- The theorems at concrete inputs.
pub mod Samples
mod Caches
mod Privacy
mod Riscv
mod Texts
mod Machine
mod Programs
