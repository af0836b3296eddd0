-- ===== src/Shell.antt =====
-- project1: a shell that runs commands and reports what they used. Its files are doit.cpp and
-- doit_processes.cpp.
pub mod Line
pub mod Jobs
pub mod Loop
pub mod Command
mod Tests
