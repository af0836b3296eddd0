-- ===== src/Strings.antt =====
-- project4/proj4.cpp: counts the strings of a file and measures the longest one.
pub mod Scan
pub mod Files
pub mod Reading
pub mod Threads
pub mod Joining
pub mod Main
mod Tests
