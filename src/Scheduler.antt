-- ===== src/Scheduler.antt =====
-- scheduler_object.hpp and scheduler_object.cpp. `mtx_` makes each function one step, and the loop of
-- `join` one; what `join` does behind it, it does without `mtx_`. The worker threads and the `io_service` are outside.
pub mod Shutdown
mod Examples
use boost_green_thread.Base.{
  ℕ, ◌+◌, Bool, true, false, not, ◌&&◌, ◌||◌, ltb, size_inc, size_dec, if◌then◌else◌,
}

pub record Scheduler : Type 0 where
  pub threads : ℕ  -- the length of `threads_`
  pub thread_count : ℕ  -- size_t
  pub started : Bool
  pub timer_armed : Bool  -- `on_check_timer` will be called
  pub io_stopped : Bool  -- `io_service_.stop()` has been called, and `reset()` has not since
  pub notified : Bool  -- `cv_.notify_one()` has been called

-- `scheduler_object()`
abbrev pub make : Scheduler
make = record {
  threads = 0;
  thread_count = 0;
  started = false;
  timer_armed = false;
  io_stopped = false;
  notified = false;
}

-- Both forms; the new thread is resumed.
unfoldable pub make_thread : Scheduler → Scheduler
make_thread s = record s { thread_count = size_inc s.thread_count; started = true }

unfoldable pub start : ℕ → Scheduler → Scheduler
start nthr s = if ltb 0 s.threads then s else record s { timer_armed = true; threads = nthr }

unfoldable pub add_thread : ℕ → Scheduler → Scheduler
add_thread nthr s = record s { threads = s.threads + nthr }

unfoldable pub worker_pool_size : Scheduler → ℕ
worker_pool_size s = s.threads

unfoldable pub on_thread_exit : Scheduler → Scheduler
on_thread_exit s = record s { thread_count = size_dec s.thread_count }

unfoldable pub on_check_timer : Scheduler → Scheduler
on_check_timer s =
    if ltb 0 s.thread_count || not s.started
    then record s { timer_armed = true }
    else record s { timer_armed = false; io_stopped = true; notified = true }

-- Whether `join` goes on waiting on `cv_`.
unfoldable pub join_waits : Scheduler → Bool
join_waits s = s.started && ltb 0 s.thread_count

-- Behind the wait, when all worker threads have ended.
unfoldable pub join_ends : Scheduler → Scheduler
join_ends s = record s { threads = 0; started = false; io_stopped = false }
