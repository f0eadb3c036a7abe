-- ===== src/Char.antt =====
-- The three character drivers of char_dev. Each keeps a buffer of ten pages, and a file that is
-- open on it has a position.
pub mod Buffer
pub mod Case
pub mod Udev
pub mod Dynamic
pub mod Count
pub mod Raw
pub mod Seek
pub mod Setup
mod Tests
