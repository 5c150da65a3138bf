-- ===== src/Condition/Monitor/AnySteps.antt =====
-- The same threads with `condition_variable_any` (condition_variable.hpp): a waiting thread locks the
-- inner `mtx_`, unlocks the user's mutex, and only then enters the queue; notifications do not lock
-- `mtx_`.
use boost_green_thread.Base.{ℕ, Bool, true, none, some, ◌≡◌, ◌⊎◌}
use boost_green_thread.Mutex.Plain.{Mutex, unlocked, lock, unlock}
use boost_green_thread.Condition.Monitor.{
  Pc, outside, locking, inside, deciding, released, paused, Monitor, take, let_go, run_on, queue_up,
  look, assign, notify,
}
use boost_green_thread.Condition.Monitor

-- `m` belongs to the user; `inner` is `mtx_`. A thread that finds `mtx_` taken waits until it is free.
pub record AnyMonitor : Type 0 where
  pub m : Monitor
  pub inner : Mutex

abbrev pub init : AnyMonitor
init = record { m = Monitor.init; inner = unlocked }

-- `boost::unique_lock<mutex> lk(mtx_); guard.activate(m);`
unfoldable pub activate : ℕ → AnyMonitor → AnyMonitor
unfolding let_go lock
activate i s = record { m = let_go released i s.m; inner = (lock s.inner (some i)).state }

-- `cond_.wait(lk);` up to its pause, which gives `mtx_` up
unfoldable pub wait_inner : ℕ → AnyMonitor → AnyMonitor
unfolding queue_up unlock
wait_inner i s = record {
  m = queue_up s.inner paused i s.m;
  inner = (unlock s.inner (some i)).state;
}

-- `assigning`: whether threads may change the predicate.
pub data Step (assigning : Bool) (s : AnyMonitor) : AnyMonitor → Type 0 where
  enters : (i : ℕ) → s.m.pc i ≡ outside → Step assigning s (record s { m = take i s.m })
  leaves : (i : ℕ) → s.m.pc i ≡ inside → Step assigning s (record s { m = let_go outside i s.m })
  runs_on : (i : ℕ) → s.m.ready i ≡ true → Step assigning s (record s { m = run_on i s.m })
  looks : (i : ℕ) → s.m.pc i ≡ inside → Step assigning s (record s { m = look i s.m })
  activates : (i : ℕ) → s.m.pc i ≡ deciding → s.inner.owner ≡ none → Step assigning s (activate i s)
  queues : (i : ℕ) → s.m.pc i ≡ released → Step assigning s (wait_inner i s)
  comes_back :
      (i : ℕ)
      → s.m.pc i ≡ paused
      → s.m.woken i ≡ true
      → s.inner.owner ≡ none
      → Step assigning s (record s { m = take i s.m })
  assigns :
      (i : ℕ) (b : Bool)
      → assigning ≡ true
      → s.m.pc i ≡ inside
      → Step assigning s (record s { m = assign b i s.m })
  notifies :
      (i : ℕ)
      → s.m.owes i ≡ true
      → (s.m.pc i ≡ inside) ⊎ (s.m.pc i ≡ outside)
      → Step assigning s (record s { m = notify i s.m })

-- What can follow `s`.
pub data From (assigning : Bool) (s : AnyMonitor) : AnyMonitor → Type 0 where
  here : From assigning s s
  later : {t u : AnyMonitor} → From assigning s t → Step assigning t u → From assigning s u
