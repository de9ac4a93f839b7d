-- ===== src/Collectors.antt =====
-- The collectors of internal/collector: on Linux those that read /proc, and that of the clock.
pub mod Cpu
pub mod Usage
pub mod Network
pub mod Interfaces
pub mod Memory
pub mod Disk
pub mod Clock
