-- ===== src/Report.antt =====
-- include/aview.hh: the data that the collectors fill and the writers print, one module for a part.
pub mod Field
pub mod Os
pub mod Cpu
pub mod Isa
pub mod Cache
pub mod Memory
pub mod Pci
pub mod Gpu
pub mod Perf
pub mod Block
pub mod Net
pub mod Power
pub mod Platform
pub mod System
pub mod Sound
pub mod Options
