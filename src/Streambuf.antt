-- ===== src/Streambuf.antt =====
-- Buffered streams over a socket: streambuf.hpp.
pub mod Areas
pub mod Delivery
pub mod Reading
mod Examples
