-- ===== src/SharedMutex.antt =====
-- shared_mutex.hpp: `shared_timed_mutex`.
pub mod State
pub mod Shared
pub mod Exclusive
pub mod Upgrade
pub mod Convert
pub mod System
pub mod Exclusion
pub mod Wakeups
pub mod Guard
pub mod Guards
mod Examples
