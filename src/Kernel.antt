-- ===== src/Kernel.antt =====
-- project2/: the kernel modules, which replace system calls in the kernel's table.
pub mod ProcessInfo
pub mod Table
pub mod Handlers
mod Tests
