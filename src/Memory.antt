-- ===== src/Memory.antt =====
-- memory: a dump of memory in hexadecimal, and the modules that allocate.
pub mod Dump
pub mod Rand
pub mod Slab
mod Tests
