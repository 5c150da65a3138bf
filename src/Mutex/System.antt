-- ===== src/Mutex/System.antt =====
-- Threads that share one `mutex`, interleaved in any order. A call of `lock`, `try_lock` or `unlock`
-- holds the spinlock from its start to `pause` or its end, so it is one step.
pub mod Invariant
pub mod Exclusion
use boost_green_thread.Base.{
  ℕ, Bool, true, false, some, List, ◌≡◌, refl, update, contains, if◌then◌else◌,
}
use boost_green_thread.Mutex.Outcome.{Next, Outcome, returns, answers, throws, pauses, yields}
use boost_green_thread.Mutex.Plain.{Mutex, unlocked, lock, unlock, try_lock}

-- Where a thread stands: out of the critical section, suspended in `lock`, or in the section.
pub data Pc : Type 0 where
  outside blocked inside : Pc

pub record System : Type 0 where
  pub mutex : Mutex
  pub pc : ℕ → Pc
  pub ready : ℕ → Bool  -- `resume` has been called on it, and it has not run since

abbrev pub init : System
init = record { mutex = unlocked; pc = λ _. outside; ready = λ _. false }

-- A call that throws leaves its caller where it was.
abbrev pub after_lock : Pc → Next → Pc
after_lock p returns = inside
after_lock p (answers _) = p
after_lock p (throws _) = p
after_lock p pauses = blocked
after_lock p (yields _) = p

abbrev pub after_unlock : Pc → Next → Pc
after_unlock p returns = outside
after_unlock p (answers _) = p
after_unlock p (throws _) = p
after_unlock p pauses = p
after_unlock p (yields _) = outside

abbrev pub posted : (ℕ → Bool) → List ℕ → ℕ → Bool
posted ready fs i = if contains fs i then true else ready i

abbrev pub runs : Pc → Bool
runs blocked = false
runs _ = true

-- The system after thread `i` has called `lock`, `try_lock` or `unlock`.
unfoldable pub call_lock : System → ℕ → System
unfolding lock
call_lock s i =
    let o = lock s.mutex (some i) in
    record s { mutex = o.state; pc = update s.pc i (after_lock (s.pc i) o.next) }

unfoldable pub call_try_lock : System → ℕ → System
unfolding try_lock
call_try_lock s i =
    let (m, held) = try_lock s.mutex (some i) in
    record s { mutex = m; pc = update s.pc i (if held then inside else s.pc i) }

unfoldable pub call_unlock : System → ℕ → System
unfolding unlock contains
call_unlock s i =
    let o = unlock s.mutex (some i) in
    record {
      mutex = o.state;
      pc = update s.pc i (after_unlock (s.pc i) o.next);
      ready = posted s.ready o.resumed;
    }

-- A resumed thread runs on, to the place `p`.
unfoldable pub run_on : System → ℕ → Pc → System
run_on s i p = record s { pc = update s.pc i p; ready = update s.ready i false }

-- `interruptible` says whether `pause` may throw `thread_interrupted` when its thread runs again.
-- That leaves `lock` by the exception, with the lock as `unlock` has handed it over.
pub data Step (interruptible : Bool) (s : System) : System → Type 0 where
  locks : (i : ℕ) → runs (s.pc i) ≡ true → Step interruptible s (call_lock s i)
  tries : (i : ℕ) → runs (s.pc i) ≡ true → Step interruptible s (call_try_lock s i)
  unlocks : (i : ℕ) → runs (s.pc i) ≡ true → Step interruptible s (call_unlock s i)
  wakes : (i : ℕ) → s.ready i ≡ true → Step interruptible s (run_on s i inside)
  interrupts :
      (i : ℕ) → interruptible ≡ true → s.ready i ≡ true → Step interruptible s (run_on s i outside)

pub data Reach (interruptible : Bool) : System → Type 0 where
  start : Reach interruptible init
  later : {s t : System} → Reach interruptible s → Step interruptible s t → Reach interruptible t
