-- ===== src/Mutex/System/Exclusion.antt =====
-- Exclusion, progress and order for threads that share one `mutex`.
use boost_green_thread.Base.{
  ℕ, Bool, true, false, Option-cases, some, List, ◌∷◌, ◌≡◌, ◌≢◌, ◌⊎◌, ◌↔◌, inl, inr, ◌≤◌, contains,
  position, contains-append_one, position-append_one, arith,
}
use boost_green_thread.Mutex.Outcome.{keeps, throws, pauses, deadlock, no_perm}
use boost_green_thread.Mutex.Plain.{Mutex, lock, unlock, try_lock}
use boost_green_thread.Mutex.System.{
  outside, blocked, inside, System, call_lock, call_try_lock, call_unlock, run_on, Step, locks,
  tries, unlocks, wakes, interrupts, Reach, start, later,
}
use boost_green_thread.Mutex.System.Invariant.{Inv, Reach-Inv}

-- In every reachable state, interruptions included, at most one thread is in the critical section.
pub mutual_exclusion :
    {b : Bool} {s : System} → Reach b s → (i j : ℕ) → s.pc i ≡ inside → s.pc j ≡ inside → i ≡ j
mutual_exclusion {s} r i j p q = ground (arith, v.inside_owner i p, v.inside_owner j q)
  where
    v : Inv s
    v = Reach-Inv r

-- The owner is in the critical section or about to enter it.
abbrev Live : System → Type 0
Live s = (i : ℕ) → s.mutex.owner ≡ some i → (s.pc i ≡ inside) ⊎ (s.ready i ≡ true)

Step-Live : {s t : System} → Step false s t → Inv s → Live s → Live t
unfolding call_lock call_try_lock call_unlock run_on lock try_lock unlock contains
Step-Live (locks i r) v h j e = ground (arith, h j, v.ready_owner j)
Step-Live (tries i r) v h j e = ground (arith, h j, v.ready_owner j)
Step-Live (unlocks i r) v h j e = ground (arith, h j)
Step-Live (wakes i r) v h j e = ground (arith, h j, v.ready_owner i)
Step-Live (interrupts i b r) v h j e = ground arith

Reach-Live : {s : System} → Reach false s → Live s
Reach-Live start i e = cc
Reach-Live (later r st) i e = Step-Live st (Reach-Inv r) (Reach-Live r) i e

-- Without interruptions no wakeup is lost: while a thread is suspended in `lock`, some thread is in
-- the critical section or has been resumed to enter it, and that thread owns the mutex.
pub blocked_progress :
    {s : System}
    → Reach false s
    → (i : ℕ) → s.pc i ≡ blocked
    → (j : ℕ) × (s.mutex.owner ≡ some j) × ((s.pc j ≡ inside) ⊎ (s.ready j ≡ true))
unfolding contains
blocked_progress {s} r i e = elim (Option-cases s.mutex.owner) [
  | inl free ↦ absurd (ground (arith, v.known i e, v.free free, v.ready_owner i))
  | inr (j, owned) ↦ (j, owned, Reach-Live r j owned)
]
  where
    v : Inv s
    v = Reach-Inv r

-- First come, first served: a step leaves a queued thread in the queue with no more threads in
-- front of it than before, or makes it the owner, and then it was the first in the queue and is
-- resumed.
pub no_overtaking :
    {b : Bool} {s t : System}
    → Reach b s
    → Step b s t
    → (i : ℕ) → contains s.mutex.suspended i ≡ true
    → ((contains t.mutex.suspended i ≡ true)
        × (position t.mutex.suspended i ≤ position s.mutex.suspended i))
      ⊎ ((t.mutex.owner ≡ some i) × (position s.mutex.suspended i ≡ 0) × (t.ready i ≡ true))
unfolding call_lock call_try_lock call_unlock run_on lock try_lock unlock contains position
no_overtaking {s} r (locks i p) j q =
    ground
      (arith, contains-append_one s.mutex.suspended i j, position-append_one s.mutex.suspended i j)
no_overtaking r (tries i p) j q = ground arith
no_overtaking r (unlocks i p) j q = ground arith
no_overtaking r (wakes i e) j q = ground arith
no_overtaking r (interrupts i b e) j q = ground arith

-- While threads are queued, a step keeps the owner or hands the mutex to the first of the queue:
-- a thread that has just arrived cannot take it.
pub no_barging :
    {b : Bool} {s t : System}
    → Reach b s
    → Step b s t
    → (f : ℕ) (rest : List ℕ) → s.mutex.suspended ≡ f ∷ rest
    → (t.mutex.owner ≡ s.mutex.owner)
      ⊎ ((t.mutex.owner ≡ some f) × (t.mutex.suspended ≡ rest) × (t.ready f ≡ true))
unfolding call_lock call_try_lock call_unlock run_on lock try_lock unlock contains
no_barging r (locks i p) f rest q = ground (arith, (Reach-Inv r).free)
no_barging r (tries i p) f rest q = ground (arith, (Reach-Inv r).free)
no_barging r (unlocks i p) f rest q = ground arith
no_barging r (wakes i e) f rest q = ground arith
no_barging r (interrupts i b e) f rest q = ground arith

-- If `pause` throws when the new owner runs, `lock` fails and that thread, out of the critical
-- section, still owns the mutex: every other thread's `lock` suspends, its `try_lock` fails, and
-- its `unlock` is refused.
pub interrupted-lock_leaks :
    {s : System}
    → Reach true s
    → (i j : ℕ) → s.ready i ≡ true
    → i ≢ j
    → let t = run_on s i outside in
      (t.pc i ≡ outside)
      × ((lock t.mutex (some j)).next ≡ pauses)
      × (try_lock t.mutex (some j) ≡ (t.mutex, false))
      × (unlock t.mutex (some j) ≡ keeps t.mutex (throws no_perm))
unfolding run_on lock try_lock unlock
interrupted-lock_leaks r i j e n = ground (arith, (Reach-Inv r).ready_owner i)

-- Misuse is refused and changes nothing: a green thread's `lock` throws exactly if it is the owner,
-- and its `unlock` exactly if it is not, and then the mutex stays as it was.
pub misuse_keeps :
    (m : Mutex) (i : ℕ)
    → ((lock m (some i) ≡ keeps m (throws deadlock)) ↔ (m.owner ≡ some i))
      × ((unlock m (some i) ≡ keeps m (throws no_perm)) ↔ (m.owner ≢ some i))
unfolding lock unlock
misuse_keeps m i =
    ((λ e. ground arith, λ e. ground arith), (λ e q. ground arith, λ e. ground arith))
