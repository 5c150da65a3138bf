-- ===== src/Executor/Examples.antt =====
-- The theorems on a pool with one thread and one task.
use boost_green_thread.Base.{ℕ}
use boost_green_thread.Future.SharedState
use boost_green_thread.Future.Task.{Ending, returned}
use boost_green_thread.Executor.Pool
use boost_green_thread.Executor.Pool.{
  running, Pool, waiting_task, init, submit, advance, run_task, shut,
}

abbrev sevens : ℕ → Ending ℕ ℕ
sevens _ = returned 7

abbrev one_running : Pool ℕ ℕ
one_running = advance 0 (submit 0 init)

abbrev all_done : Pool ℕ ℕ
all_done = advance 0 (shut (run_task (returned 7) 0 0 one_running))

-- The thread has fallen asleep when the queue is closed.
abbrev shut_asleep : Pool ℕ ℕ
shut_asleep = shut (advance 0 init)

abbrev left_late : Pool ℕ ℕ
left_late = advance 0 shut_asleep
