-- ===== src/Proc.antt =====
-- filesystem: integers that are read and written as text, through procfs and sysfs.
pub mod Text
pub mod File
pub mod Sysfs
pub mod Signal
pub mod Task
pub mod Entries
mod Tests
