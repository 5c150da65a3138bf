-- ===== src/Future/Handles.antt =====
-- Promises and futures as handles on shared states (future/promise.hpp, future/future.hpp,
-- future/detail/shared_state.hpp): reference counts, moves, copies and destruction.
pub mod Heap
pub mod Calls
pub mod Program
pub mod Invariant
pub mod Ownership
mod Examples
