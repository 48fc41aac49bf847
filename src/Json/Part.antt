-- ===== src/Json/Part.antt =====
-- src/json.cc: the parts of a report, one module for each.
pub mod Cpu
pub mod Cache
pub mod Memory
pub mod Pci
pub mod Gpu
pub mod Block
pub mod Net
pub mod Power
pub mod Os
pub mod Isa
pub mod Perf
pub mod Platform
