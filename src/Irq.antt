-- ===== src/Irq.antt =====
-- irq: handlers on interrupt lines and the work that they leave for later.
pub mod Lines
pub mod Tasklet
pub mod Single
mod Tests
