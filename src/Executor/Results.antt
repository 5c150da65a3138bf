-- ===== src/Executor/Results.antt =====
-- What becomes of the tasks.
use boost_green_thread.Base.{ℕ, false, ◌≡◌, contains}
use boost_green_thread.Future.SharedState.{SharedState, Verdict, gives, rethrows, thrown}
use boost_green_thread.Future.SharedState
use boost_green_thread.Future.Task.{Ending, returned, threw}
use boost_green_thread.Future.Task
use boost_green_thread.Executor.Pool.{running, Pool, waiting_task, Reach}
use boost_green_thread.Executor.Invariant.{Inv, Reach-Inv}

module _ {R E : Type 0} (n : ℕ) (endings : ℕ → Ending R E) where
  -- What the future of a task gives that ends so.
  abbrev pub outcome : Ending R E → Verdict R E
  outcome (returned v) = gives v
  outcome (threw e) = rethrows (thrown e)

  -- With fewer than 2 ^ 64 - 1 tasks waiting when one is added, no task runs twice, or in two
  -- threads: a task that a thread has taken has not been run, is no
  -- longer queued, and no other thread has it.
  pub task_run_once :
      {s : Pool R E} (w u k : ℕ)
      → Reach n endings s
      → s.workers w ≡ running k
      → s.workers u ≡ running k
      → (s.tasks k ≡ waiting_task) × (contains s.queue.items k ≡ false) × (w ≡ u)
  task_run_once w u k r e x =
      let v = Reach-Inv n endings r in
      ((Inv.active v w k e).2, (Inv.active v w k e).3, Inv.apart v w u k e x)
