-- ===== src/Morse.antt =====
-- io_port/morse_io.c: a character driver that plays what is written to it on the PC speaker.
pub mod Code
pub mod Speaker
pub mod Write
pub mod Listen
pub mod Setup
mod Tests
