-- ===== src/Kernel.antt =====
-- kernels.cu: the device code, and the host functions that launch it.
pub mod Memory
pub mod Grid
pub mod Simple
pub mod Striding
pub mod SplitWarp
pub mod Pattern
pub mod Launch
pub mod HostRead
pub mod Multicast
