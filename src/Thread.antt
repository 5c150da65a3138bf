-- ===== src/Thread.antt =====
-- Green threads: thread_object.hpp and thread_object.cpp.
pub mod Object
pub mod Interrupt
pub mod Tss
pub mod Local
pub mod Strand
pub mod Joining
pub mod Guards
pub mod Handle
pub mod Group
mod Examples
