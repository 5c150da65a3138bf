-- ===== src/Mutex/Examples.antt =====
-- The theorems on mutexes at concrete states, and runs of the locks.
use boost_green_thread.Base.{
  ℕ, ◌≤◌, Bool, true, false, some, ◌≡◌, ◌≢◌, ◌⊎◌, inr, refl, contains, position,
}
use boost_green_thread.Mutex.System
use boost_green_thread.Mutex.System.Exclusion.{mutual_exclusion, blocked_progress, no_overtaking}
use boost_green_thread.Mutex.Timed
use boost_green_thread.Mutex.Timed.Waits
use boost_green_thread.Mutex.Timed.Delivery.{
  timed_exclusion, resumed_once, waiting_ends, timed_progress,
}

-- Thread 0 in the section; thread 1 queued behind it; the mutex handed to thread 1.
abbrev one_inside : System.System
one_inside = System.call_lock System.init 0

abbrev one_queued : System.System
one_queued = System.call_lock one_inside 1

abbrev handed : System.System
handed = System.call_unlock one_queued 0

one_inside-Reach : (b : Bool) → System.Reach b one_inside
one_inside-Reach b = System.later System.start (System.locks 0 refl)

one_queued-Reach : (b : Bool) → System.Reach b one_queued
unfolding System.call_lock
one_queued-Reach b = System.later (one_inside-Reach b) (System.locks 1 refl)

mutual_exclusion_example : ◌≡◌ {A = ℕ} 0 0
unfolding System.call_lock
mutual_exclusion_example = mutual_exclusion (one_queued-Reach true) 0 0 refl refl

blocked_progress_example :
    (j : ℕ) × (one_queued.mutex.owner ≡ some j)
    × ((one_queued.pc j ≡ System.inside) ⊎ (one_queued.ready j ≡ true))
unfolding System.call_lock
blocked_progress_example = blocked_progress (one_queued-Reach false) 1 refl

no_overtaking_example :
    ((contains handed.mutex.suspended 1 ≡ true)
      × (position handed.mutex.suspended 1 ≤ position one_queued.mutex.suspended 1))
    ⊎ ((handed.mutex.owner ≡ some 1)
        × (position one_queued.mutex.suspended 1 ≡ 0)
        × (handed.ready 1 ≡ true))
unfolding System.call_lock contains
no_overtaking_example = no_overtaking (one_queued-Reach true) (System.unlocks 0 refl) 1 refl

-- Thread 0 in the section, thread 1 in `try_lock_rel`, thread 2 in `lock`; then thread 0 unlocks.
abbrev timed_inside : Waits.System
timed_inside = Waits.call_lock Waits.init 0

abbrev timed_waiting : Waits.System
timed_waiting = Waits.call_try_lock_rel timed_inside 1

abbrev timed_queued : Waits.System
timed_queued = Waits.call_lock timed_waiting 2

abbrev timed_handed : Waits.System
timed_handed = Waits.call_unlock timed_queued 0

timed_queued-Reach : (b : Bool) → Waits.Reach b timed_queued
unfolding Waits.call_lock Waits.call_try_lock_rel
timed_queued-Reach b =
    Waits.later
      (Waits.later (Waits.later Waits.start (Waits.locks 0 refl)) (Waits.tries_rel 1 refl))
      (Waits.locks 2 refl)

timed_handed-Reach : (b : Bool) → Waits.Reach b timed_handed
unfolding Waits.call_lock Waits.call_try_lock_rel
timed_handed-Reach b = Waits.later (timed_queued-Reach b) (Waits.unlocks 0 refl)

timed_exclusion_example : ◌≡◌ {A = ℕ} 0 0
unfolding Waits.call_lock Waits.call_try_lock_rel
timed_exclusion_example = timed_exclusion (timed_queued-Reach true) 0 0 refl refl

resumed_once_example : (Waits.runs (timed_handed.pc 1) ≡ false) × (timed_handed.ready 1 ≡ false)
unfolding Waits.call_lock Waits.call_try_lock_rel Waits.call_unlock Timed.unlock
    Timed.timeout_handler contains
resumed_once_example = resumed_once (timed_handed-Reach true) 1 1 (inr (refl, refl))

waiting_ends_example :
    ((timed_handed.timer 1 ≡ Waits.posted) ⊎ (timed_handed.ready 1 ≡ true))
    ⊎ ((timed_handed.timer 1 ≡ Waits.armed) × (timed_handed.mutex.owner ≢ some 1))
unfolding Waits.call_lock Waits.call_try_lock_rel Waits.call_unlock Timed.unlock
waiting_ends_example = waiting_ends (timed_handed-Reach true) 1 refl

timed_progress_example :
    (j : ℕ) × (timed_handed.mutex.owner ≡ some j)
    × ((timed_handed.pc j ≡ Waits.inside)
        ⊎ (timed_handed.ready j ≡ true)
        ⊎ (timed_handed.timer j ≡ Waits.posted))
unfolding Waits.call_lock Waits.call_try_lock_rel Waits.call_unlock Timed.unlock
timed_progress_example = timed_progress (timed_handed-Reach false) 2 refl
