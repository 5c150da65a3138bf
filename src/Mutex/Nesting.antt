-- ===== src/Mutex/Nesting.antt =====
-- The recursive mutexes against the plain ones: the level forgotten, and balanced nesting.
use boost_green_thread.Base.{ℕ, zero, suc, ◌+◌, ◌<◌, some, ◌≡◌, ◌≢◌, ◌⊎◌, ◌∙◌, ap, size_mod, arith}
use boost_green_thread.Mutex.Outcome.{Outcome, returns}
use boost_green_thread.Mutex.Plain.{Mutex}
use boost_green_thread.Mutex.Plain
use boost_green_thread.Mutex.Timed.{TimedMutex}
use boost_green_thread.Mutex.Timed
use boost_green_thread.Mutex.Recursive.{RecursiveMutex, lock, unlock}
use boost_green_thread.Mutex.RecursiveTimed.{RecursiveTimedMutex}
use boost_green_thread.Mutex.RecursiveTimed

-- The mutex without its level.
abbrev pub view : RecursiveMutex → Mutex
view m = record { owner = m.owner; suspended = m.suspended }

abbrev pub timed_view : RecursiveTimedMutex → TimedMutex
timed_view m = record { owner = m.owner; suspended = m.suspended }

-- `o` does to the view what `p` does, and resumes and cancels the same.
abbrev pub Refines : {R S : Type 0} → (R → S) → Outcome R → Outcome S → Type 0
Refines f o p =
    (f o.state ≡ p.state)
    × (o.next ≡ p.next)
    × (o.resumed ≡ p.resumed)
    × (o.cancelled ≡ p.cancelled)

-- While another thread or none owns it, `lock` does what `mutex::lock` does; the owner's `lock`
-- returns, with the level one higher and nothing else changed.
pub lock-Refines :
    (m : RecursiveMutex) (i : ℕ)
    → m.level + 1 < size_mod
    → ((m.owner ≢ some i) × Refines view (lock m (some i)) (Plain.lock (view m) (some i)))
      ⊎ ((m.owner ≡ some i)
          × ((lock m (some i)).state ≡ record m { level = m.level + 1 })
          × ((lock m (some i)).next ≡ returns))
unfolding lock Plain.lock
lock-Refines m i h = ground arith

-- `recursive_mutex::unlock` at level 1 or by a thread that is not the owner does what
-- `mutex::unlock` does, and leaves level 0 if the mutex is free and level 1 if it has been handed
-- over; deeper, it takes one level off and returns.
pub unlock-Refines :
    (m : RecursiveMutex) (i : ℕ)
    → 0 < m.level
    → m.level < size_mod
    → (((m.owner ≢ some i) ⊎ (m.level ≡ 1))
        × Refines view (unlock m (some i)) (Plain.unlock (view m) (some i)))
      ⊎ ((m.owner ≡ some i)
          × (record (unlock m (some i)).state { level = m.level } ≡ m)
          × ((unlock m (some i)).state.level + 1 ≡ m.level)
          × ((unlock m (some i)).next ≡ returns))
unfolding unlock Plain.unlock
unlock-Refines m i h k = ground arith

-- `recursive_timed_mutex::unlock` at level 1 or by a thread that is not the owner does what
-- `timed_mutex::unlock` does, and leaves level 0 if the mutex is free and level 1 if it has been
-- handed over; deeper, it takes one level off and returns.
pub timed-unlock-Refines :
    (m : RecursiveTimedMutex) (i : ℕ)
    → 0 < m.level
    → m.level < size_mod
    → (((m.owner ≢ some i) ⊎ (m.level ≡ 1))
        × Refines timed_view
            (RecursiveTimed.unlock m (some i))
            (Timed.unlock (timed_view m) (some i)))
      ⊎ ((m.owner ≡ some i)
          × (record (RecursiveTimed.unlock m (some i)).state { level = m.level } ≡ m)
          × ((RecursiveTimed.unlock m (some i)).state.level + 1 ≡ m.level)
          × ((RecursiveTimed.unlock m (some i)).next ≡ returns))
unfolding RecursiveTimed.unlock Timed.unlock
timed-unlock-Refines m i h k = ground arith

abbrev pub iterate : {A : Type 0} → ℕ → (A → A) → A → A
iterate zero f a = a
iterate (suc n) f a = iterate n f (f a)

abbrev pub lock_by : ℕ → RecursiveMutex → RecursiveMutex
lock_by i m = (lock m (some i)).state

abbrev pub unlock_by : ℕ → RecursiveMutex → RecursiveMutex
unlock_by i m = (unlock m (some i)).state

module _ (m : RecursiveMutex) (i : ℕ) (owned : m.owner ≡ some i) where
  abbrev at_level : ℕ → RecursiveMutex
  at_level l = record m { level = l }

  lock_by_owner : (l : ℕ) → l + 1 < size_mod → lock_by i (at_level l) ≡ at_level (l + 1)
  unfolding lock
  lock_by_owner l h = ground arith

  unlock_by_owner : (l : ℕ) → 0 < l → l + 1 < size_mod → unlock_by i (at_level (l + 1)) ≡ at_level l
  unfolding unlock
  unlock_by_owner l p h = ground arith

  iterate-lock_by :
      (n l : ℕ) → l + n < size_mod → iterate n (lock_by i) (at_level l) ≡ at_level (l + n)
  iterate-lock_by zero l h = ground arith
  iterate-lock_by (suc n) l h =
      ap (iterate n (lock_by i)) (lock_by_owner l (omega arith))
      ∙ iterate-lock_by n (l + 1) (omega arith)
      ∙ ap at_level (omega arith)

  iterate-unlock_by :
      (n l : ℕ) → 0 < l → l + n < size_mod → iterate n (unlock_by i) (at_level (l + n)) ≡ at_level l
  iterate-unlock_by zero l p h = ground arith
  iterate-unlock_by (suc n) l p h =
      ap (iterate n (unlock_by i)) (
        ap (λ (k : ℕ). unlock_by i (at_level k)) (omega arith)
        ∙ unlock_by_owner (l + n) (omega arith) (omega arith))
      ∙ iterate-unlock_by n l p (omega arith)

-- The owner's further `lock`s, taken back by as many `unlock`s, leave the mutex as it was, as long
-- as the level does not overflow.
pub nested_balance :
    (n : ℕ) (m : RecursiveMutex) (i : ℕ)
    → m.owner ≡ some i
    → 0 < m.level
    → m.level + n < size_mod
    → iterate n (unlock_by i) (iterate n (lock_by i) m) ≡ m
nested_balance n m i owned pos room =
    ap (iterate n (unlock_by i)) (iterate-lock_by m i owned n m.level room)
    ∙ iterate-unlock_by m i owned n m.level pos room
