-- ===== src/Future/Waiting.antt =====
-- `wait_for_any` and `wait_for_all` over several futures (future/future.hpp), by external waiters on
-- their shared states.
pub mod Settle
pub mod Any
pub mod AnyReturns
pub mod All
pub mod AllReturns
pub mod AllLoses
pub mod AsyncAll
pub mod AsyncAllReady
pub mod AsyncAny
pub mod AsyncAnyReady
mod Examples
mod AsyncExamples
