-- ===== src/Collect.antt =====
-- The collectors, one module for each source file.
pub mod Thermal
pub mod Block
pub mod Pci
pub mod Platform
pub mod Os
pub mod Net
pub mod Power
pub mod Memory
pub mod CpuFlags
pub mod Perf
pub mod Virtualization
pub mod Isa
pub mod CpuDirs
pub mod Cache
pub mod Gpu
pub mod Cpu
pub mod Collector
pub mod OneOff
pub mod Redaction
pub mod Hidden
pub mod Sound
pub mod Width
