-- ===== src/Mutex/Timed/Delivery.antt =====
-- Exclusion, resumption and answers for threads that share one `timed_mutex`.
use boost_green_thread.Base.{
  ℕ, Bool, true, false, none, some, Option-cases, List-cases, ◌≡◌, ◌≢◌, ◌⊎◌, inl, inr, contains,
  arith,
}
use boost_green_thread.Mutex.Items.{entry}
use boost_green_thread.Mutex.Timed.{unlock, timeout_handler, try_lock_rel_result}
use boost_green_thread.Mutex.Timed.Waits.{
  blocked, waiting, inside, outside, armed, posted, System, runs, run_on, Reach,
}
use boost_green_thread.Mutex.Timed.Invariant.{Reach-Inv}

-- At most one thread is in the critical section, whatever timers expire or are cancelled, and
-- whoever is interrupted.
pub timed_exclusion :
    {b : Bool} {s : System} → Reach b s → (i j : ℕ) → s.pc i ≡ inside → s.pc j ≡ inside → i ≡ j
timed_exclusion r i j p q = ground (arith, (Reach-Inv r).place i, (Reach-Inv r).place j)

-- Each wait is resumed at most once: `unlock`, and a handler that has been posted, call `resume`
-- only on a thread that is suspended and has not been resumed yet.
pub resumed_once :
    {b : Bool} {s : System}
    → Reach b s
    → (i j : ℕ)
    → (contains (unlock s.mutex (some i)).resumed j ≡ true)
      ⊎ ((s.timer i ≡ posted) × (contains (timeout_handler s.mutex i).resumed j ≡ true))
    → (runs (s.pc j) ≡ false) × (s.ready j ≡ false)
unfolding unlock timeout_handler contains entry
resumed_once {s = s} r i j (inl h) = elim (List-cases s.mutex.suspended) [
  | inl none_waits ↦ ground (arith, place i, place j)
  | inr (f, rest, e) ↦ ground (arith, place i, place j, place f.thread)
]
  where
    open (Reach-Inv r) use {place}
resumed_once {s = s} r i j (inr h) = ground (arith, (Reach-Inv r).place i, (Reach-Inv r).place j)

-- No wait is forgotten: a thread in `try_lock_rel` has a timer that runs or a handler that is
-- posted, or it has been resumed; if it has been given the mutex, it no longer waits for the timer
-- to run out.
pub waiting_ends :
    {b : Bool} {s : System}
    → Reach b s
    → (i : ℕ) → s.pc i ≡ waiting
    → ((s.timer i ≡ posted) ⊎ (s.ready i ≡ true)) ⊎ ((s.timer i ≡ armed) × (s.mutex.owner ≢ some i))
waiting_ends r i p = ground (arith, (Reach-Inv r).place i)

-- Without interruptions: while a thread is suspended in `lock`, some thread owns the mutex that is in the critical section,
-- has been resumed, or has a posted handler that will resume it.
pub timed_progress :
    {s : System}
    → Reach false s
    → (i : ℕ) → s.pc i ≡ blocked
    → (j : ℕ) × (s.mutex.owner ≡ some j)
      × ((s.pc j ≡ inside) ⊎ (s.ready j ≡ true) ⊎ (s.timer j ≡ posted))
unfolding entry
timed_progress {s = s} r i e = elim (Option-cases s.mutex.owner) [
  | inl none_owns ↦ absurd (ground (arith, free none_owns, place i))
  | inr (j, owned) ↦ (j, owned, ground (arith, place j))
]
  where
    open (Reach-Inv r) use {place, free}

-- The answer of `try_lock_rel` is right: a resumed thread enters the critical section exactly if it
-- owns the mutex, and otherwise it is not left in the queue.
pub answer_truthful :
    {b : Bool} {s : System}
    → Reach b s
    → (i : ℕ) → s.ready i ≡ true
    → s.pc i ≡ waiting
    → (((run_on s i).pc i ≡ inside) × (s.mutex.owner ≡ some i))
      ⊎ (((run_on s i).pc i ≡ outside)
          × (s.mutex.owner ≢ some i)
          × (entry s.mutex.suspended i ≡ none))
unfolding run_on try_lock_rel_result
answer_truthful r i e p = ground (arith, (Reach-Inv r).place i)
