-- ===== src/Future.antt =====
-- The results of futures: future/detail/shared_state.hpp, promise.hpp, future.hpp,
-- packaged_task.hpp.
pub mod SharedState
pub mod Promise
pub mod Settled
pub mod Void
pub mod Ref
pub mod AtExit
pub mod Then
pub mod Task
pub mod Waiting
pub mod Handles
mod Examples
