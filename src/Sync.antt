-- ===== src/Sync.antt =====
-- synchronization: a semaphore that two modules share, and a thread that sleeps with a spinlock held.
pub mod Semaphore
pub mod Spin
mod Tests
