-- ===== src/Mutex/Timed/Waits.antt =====
-- Threads that share one `timed_mutex`, their timers, and the handlers of these, interleaved in any
-- order. A timer expires at any time after it is armed; cancelled or expired, its handler runs once.
-- `pause` may throw `thread_interrupted` when its thread runs again.
use boost_green_thread.Base.{ℕ, Bool, true, false, some, List, ◌≡◌, update, contains, if◌then◌else◌}
use boost_green_thread.Mutex.Outcome.{Next, returns, answers, throws, pauses, yields}
use boost_green_thread.Mutex.Timed.{
  TimedMutex, unlocked, lock, unlock, try_lock, try_lock_rel, try_lock_rel_result, timeout_handler,
}

-- Out of the critical section, suspended in `lock`, suspended in `try_lock_rel`, in the section.
pub data Pc : Type 0 where
  outside blocked waiting inside : Pc

-- No timer, one that runs, one whose handler has been posted.
pub data Timer : Type 0 where
  off armed posted : Timer

-- The timer of `try_lock_rel` lies in its caller's frame, so it goes by its thread's number.
pub record System : Type 0 where
  pub mutex : TimedMutex
  pub pc : ℕ → Pc
  pub timer : ℕ → Timer
  pub ready : ℕ → Bool  -- `resume` has been called on it, and it has not run since

abbrev pub init : System
init = record { mutex = unlocked; pc = λ _. outside; timer = λ _. off; ready = λ _. false }

abbrev pub runs : Pc → Bool
runs blocked = false
runs waiting = false
runs _ = true

-- Where a call leaves its caller, that was at `p` and suspends at `q`.
abbrev pub after_lock : Pc → Pc → Next → Pc
after_lock p q returns = inside
after_lock p q (answers held) = if held then inside else p
after_lock p q (throws _) = p
after_lock p q pauses = q
after_lock p q (yields _) = p

abbrev pub after_unlock : Pc → Next → Pc
after_unlock p returns = outside
after_unlock p (yields _) = outside
after_unlock p _ = p

abbrev pub resumes : (ℕ → Bool) → List ℕ → ℕ → Bool
resumes ready fs i = if contains fs i then true else ready i

abbrev pub post : Timer → Timer
post off = off
post _ = posted

abbrev pub cancels : (ℕ → Timer) → List ℕ → ℕ → Timer
cancels timer ts i = if contains ts i then post (timer i) else timer i

abbrev pub arms : (ℕ → Timer) → ℕ → Next → ℕ → Timer
arms timer i pauses = update timer i armed
arms timer i _ = timer

unfoldable pub call_lock : System → ℕ → System
unfolding lock
call_lock s i =
    let o = lock s.mutex (some i) in
    record s { mutex = o.state; pc = update s.pc i (after_lock (s.pc i) blocked o.next) }

unfoldable pub call_try_lock : System → ℕ → System
unfolding try_lock
call_try_lock s i =
    let (m, held) = try_lock s.mutex (some i) in
    record s { mutex = m; pc = update s.pc i (if held then inside else s.pc i) }

unfoldable pub call_try_lock_rel : System → ℕ → System
unfolding try_lock_rel
call_try_lock_rel s i =
    let o = try_lock_rel s.mutex (some i) i in
    record s {
      mutex = o.state;
      pc = update s.pc i (after_lock (s.pc i) waiting o.next);
      timer = arms s.timer i o.next;
    }

unfoldable pub call_unlock : System → ℕ → System
unfolding unlock contains
call_unlock s i =
    let o = unlock s.mutex (some i) in
    record {
      mutex = o.state;
      pc = update s.pc i (after_unlock (s.pc i) o.next);
      timer = cancels s.timer o.cancelled;
      ready = resumes s.ready o.resumed;
    }

unfoldable pub expire : System → ℕ → System
expire s i = record s { timer = update s.timer i posted }

unfoldable pub run_handler : System → ℕ → System
unfolding timeout_handler contains
run_handler s i =
    let o = timeout_handler s.mutex i in
    record s { mutex = o.state; timer = update s.timer i off; ready = resumes s.ready o.resumed }

-- A resumed thread runs on behind its `pause`.
abbrev pub resumed_at : TimedMutex → ℕ → Pc → Pc
resumed_at m i waiting = if try_lock_rel_result m i then inside else outside
resumed_at m i _ = inside

unfoldable pub run_on : System → ℕ → System
unfolding try_lock_rel_result
run_on s i = record s {
  pc = update s.pc i (resumed_at s.mutex i (s.pc i));
  ready = update s.ready i false;
}

-- A resumed thread leaves `lock` or `try_lock_rel` by the exception out of `pause`, with the lock as
-- `unlock` has handed it over.
unfoldable pub interrupted : System → ℕ → System
interrupted s i = record s { pc = update s.pc i outside; ready = update s.ready i false }

-- `interruptible` says whether threads are interrupted.
pub data Step (interruptible : Bool) (s : System) : System → Type 0 where
  locks : (i : ℕ) → runs (s.pc i) ≡ true → Step interruptible s (call_lock s i)
  tries : (i : ℕ) → runs (s.pc i) ≡ true → Step interruptible s (call_try_lock s i)
  tries_rel : (i : ℕ) → runs (s.pc i) ≡ true → Step interruptible s (call_try_lock_rel s i)
  unlocks : (i : ℕ) → runs (s.pc i) ≡ true → Step interruptible s (call_unlock s i)
  expires : (i : ℕ) → s.timer i ≡ armed → Step interruptible s (expire s i)
  handles : (i : ℕ) → s.timer i ≡ posted → Step interruptible s (run_handler s i)
  wakes : (i : ℕ) → s.ready i ≡ true → Step interruptible s (run_on s i)
  interrupts :
      (i : ℕ) → interruptible ≡ true → s.ready i ≡ true → Step interruptible s (interrupted s i)

pub data Reach (interruptible : Bool) : System → Type 0 where
  start : Reach interruptible init
  later : {s t : System} → Reach interruptible s → Step interruptible s t → Reach interruptible t
