-- ===== src/Condition/Monitor/Steps.antt =====
-- The steps of these threads with `condition_variable`: a waiting thread enters the queue while it
-- still has the mutex.
use boost_green_thread.Base.{ℕ, Bool, true, ◌≡◌, ◌⊎◌}
use boost_green_thread.Condition.Monitor.{
  outside, inside, deciding, queued, paused, Monitor, init, take, let_go, run_on, queue_up, look,
  assign, notify,
}

pub data Step (s : Monitor) : Monitor → Type 0 where
  enters : (i : ℕ) → s.pc i ≡ outside → Step s (take i s)
  leaves : (i : ℕ) → s.pc i ≡ inside → Step s (let_go outside i s)
  runs_on : (i : ℕ) → s.ready i ≡ true → Step s (run_on i s)
  looks : (i : ℕ) → s.pc i ≡ inside → Step s (look i s)
  queues : (i : ℕ) → s.pc i ≡ deciding → Step s (queue_up s.mutex queued i s)
  lets_go : (i : ℕ) → s.pc i ≡ queued → Step s (let_go paused i s)
  comes_back : (i : ℕ) → s.pc i ≡ paused → s.woken i ≡ true → Step s (take i s)
  assigns : (i : ℕ) (b : Bool) → s.pc i ≡ inside → Step s (assign b i s)
  notifies :
      (i : ℕ) → s.owes i ≡ true → (s.pc i ≡ inside) ⊎ (s.pc i ≡ outside) → Step s (notify i s)

pub data Reach : Monitor → Type 0 where
  start : Reach init
  later : {s t : Monitor} → Reach s → Step s t → Reach t
