-- ===== src/Executor/Shutdown.antt =====
-- The threads of a pool that is shut leave their loops.
use boost_green_thread.Base.{ℕ, zero, suc, ◌+◌, ◌*◌, ◌<◌, false, length, ◌≡◌, ◌≢◌}
use boost_green_thread.Future.Task.{Ending}
use boost_green_thread.Executor.Pool.{
  Worker, popping, waiting, running, ended, Pool, advance, run_task,
}

-- How many steps a thread that is awake makes at most before it is out of work, its last included.
abbrev pub weight : Worker → ℕ
weight popping = 1
weight (running _) = 2
weight waiting = 0
weight ended = 0

unfoldable pub total : ℕ → (ℕ → Worker) → ℕ
total zero ws = 0
total (suc n) ws = total n ws + weight (ws n)

module _ {R E : Type 0} (n : ℕ) (endings : ℕ → Ending R E) where
  -- The work that is left: each queued task is taken and run.
  abbrev pub load : Pool R E → ℕ
  load s = 2 * length s.queue.items + total n s.workers

  pub data Work (s : Pool R E) : Pool R E → Type 0 where
    advances : (w : ℕ) → w < n → s.workers w ≡ popping → Work s (advance w s)
    runs : (w k : ℕ) → w < n → s.workers w ≡ running k → Work s (run_task (endings k) w k s)

  -- `m` such steps, of any of the threads.
  pub data Working (s : Pool R E) : ℕ → Pool R E → Type 0 where
    idle : Working s 0 s
    more : {m : ℕ} {t u : Pool R E} → Working s m t → Work t u → Working s (suc m) u

  -- Nobody falls asleep on a closed queue.
  abbrev Awake : Pool R E → Type 0
  Awake s = (s.queue.opened ≡ false) × ((w : ℕ) → s.workers w ≢ waiting)
