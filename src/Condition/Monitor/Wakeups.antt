-- ===== src/Condition/Monitor/Wakeups.antt =====
-- A thread that waits for a predicate is woken when it holds.
use boost_green_thread.Base.{ℕ, true, ◌≡◌, ◌⊎◌, inl, inr, arith}
use boost_green_thread.Condition.Invariant.{entry, notify_all_resumed}
use boost_green_thread.Condition.Monitor.{inside, queued, paused, Monitor, notify}
use boost_green_thread.Condition.Monitor.Steps.{Reach}
use boost_green_thread.Condition.Monitor.Invariant.{Inv, Reach-Inv}

-- No wakeup is lost between `mutex` and `condition_variable`: a thread that waits for a predicate
-- and has not been woken although it holds stands in the queue, and some thread that has made it hold
-- has still to call `notify_all`, which wakes the waiting thread.
pub monitor_wakes :
    {s : Monitor} (i : ℕ)
    → Reach s
    → (s.pc i ≡ queued) ⊎ (s.pc i ≡ paused)
    → s.pred ≡ true
    → (s.woken i ≡ true) ⊎ ((j : ℕ) × (s.owes j ≡ true) × ((notify j s).woken i ≡ true))
unfolding notify entry
monitor_wakes {s} i r w p =
    let v = Reach-Inv r in
    elim (Inv.told v p) [
      | inl nobody ↦ inl (ground (arith, Inv.at_queue v i))
      | inr (j, o) ↦
          inr
            (j, o, ground (arith, Inv.at_queue v i, notify_all_resumed s.queue i (Inv.distinct v)))
    ]

-- The critical section stays exclusive while threads wait in it and come back into it.
pub monitor_exclusion :
    {s : Monitor} (i j : ℕ) → Reach s → s.pc i ≡ inside → s.pc j ≡ inside → i ≡ j
monitor_exclusion {s} i j r e f =
    ground (arith, Inv.at_mutex (Reach-Inv r) i, Inv.at_mutex (Reach-Inv r) j)
