-- ===== src/Mutex.antt =====
-- mutex.hpp and mutex.cpp.
pub mod Outcome
pub mod Items
pub mod Plain
pub mod System
pub mod Recursive
pub mod Timed
pub mod RecursiveTimed
pub mod Nesting
mod Examples
