-- ===== src/Timer.antt =====
-- timer: a timer that sets itself again and again, and one that each write sets.
pub mod Periodic
pub mod Driver
mod Tests
