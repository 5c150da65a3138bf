-- ===== src/Queue.antt =====
-- concurrent_queue.hpp: `basic_concurrent_queue`.
pub mod State
pub mod Push
pub mod Pop
pub mod History
pub mod Order
pub mod Bounds
pub mod Waits
mod Examples
