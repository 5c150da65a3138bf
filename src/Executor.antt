-- ===== src/Executor.antt =====
-- future/async.hpp: `async_executor`, a queue of packaged tasks and the threads that run them, and
-- `async_function`.
pub mod Pool
pub mod Function
pub mod Invariant
pub mod Results
pub mod Shutdown
mod Examples
