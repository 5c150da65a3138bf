-- ===== src/Condition/Monitor.antt =====
-- Threads that wait for a predicate with a condition variable, and threads that make it true, all
-- under one `mutex`: `wait(lock, pred)` of condition_variable.hpp, over `mutex` and
-- `condition_variable` as they are modelled.
pub mod Steps
pub mod Invariant
pub mod Wakeups
pub mod AnySteps
pub mod AnyInvariant
pub mod AnyLoses
mod Examples
use boost_green_thread.Base.{
  ℕ, Bool, true, false, none, some, List, [], ◌||◌, update, contains, if◌then◌else◌,
}
use boost_green_thread.Mutex.Outcome.{Next, returns, answers, throws, pauses, yields}
use boost_green_thread.Mutex.Plain.{Mutex, unlocked, lock, unlock}
use boost_green_thread.Condition.{Item, wait, notify_all}
use boost_green_thread.Condition

-- `outside`: without the mutex. `locking`: suspended in `mutex::lock`. `inside`: in the critical
-- section, about to test the predicate. `deciding`: the predicate was false. `queued`: in the queue of
-- the condition variable, still with the mutex. `released`: without the mutex, not yet in the queue.
-- `paused`: suspended by the condition variable.
pub data Pc : Type 0 where
  outside locking inside deciding queued released paused : Pc

-- The condition variable by its queue. `ready` and `woken`: `resume` has been called on a thread by
-- the mutex, by the condition variable. `owes`: a thread has made the predicate true and will notify.
pub record Monitor : Type 0 where
  pub mutex : Mutex
  pub queue : List Item
  pub pred : Bool
  pub pc : ℕ → Pc
  pub ready : ℕ → Bool
  pub woken : ℕ → Bool
  pub owes : ℕ → Bool

abbrev pub init : Monitor
init = record {
  mutex = unlocked;
  queue = [];
  pred = false;
  pc = λ _. outside;
  ready = λ _. false;
  woken = λ _. false;
  owes = λ _. false;
}

abbrev pub marks : (ℕ → Bool) → List ℕ → ℕ → Bool
marks f is i = if contains is i then true else f i

abbrev pub after_lock : Pc → Next → Pc
after_lock p returns = inside
after_lock p pauses = locking
after_lock p _ = p

abbrev pub after_unlock : Pc → Pc → Next → Pc
after_unlock p q returns = q
after_unlock p q (yields _) = q
after_unlock p q _ = p

-- `mutex::lock`, called by a thread or by the end of a `relock_guard`
unfoldable pub take : ℕ → Monitor → Monitor
unfolding lock
take i s =
    let o = lock s.mutex (some i) in
    record s {
      mutex = o.state;
      pc = update s.pc i (after_lock (s.pc i) o.next);
      woken = update s.woken i false;
    }

-- `mutex::unlock`, which leads to `p`
unfoldable pub let_go : Pc → ℕ → Monitor → Monitor
unfolding unlock contains
let_go p i s =
    let o = unlock s.mutex (some i) in
    record s {
      mutex = o.state;
      pc = update s.pc i (after_unlock (s.pc i) p o.next);
      ready = marks s.ready o.resumed;
    }

-- A thread that `unlock` has made the owner runs on.
unfoldable pub run_on : ℕ → Monitor → Monitor
run_on i s = record s { pc = update s.pc i inside; ready = update s.ready i false }

abbrev pub after_wait : Pc → Pc → Condition.Next → Pc
after_wait p q Condition.pauses = q
after_wait p q _ = p

-- `condition_variable::wait` up to its `relock_guard`, with the mutex `m`
unfoldable pub queue_up : Mutex → Pc → ℕ → Monitor → Monitor
unfolding wait
queue_up m p i s =
    let o = wait s.queue m 0 i in
    record s { queue = o.suspended; pc = update s.pc i (after_wait (s.pc i) p o.next) }

-- `while (!pred())`
unfoldable pub look : ℕ → Monitor → Monitor
look i s = record s { pc = update s.pc i (if s.pred then inside else deciding) }

-- Some other code in the critical section
unfoldable pub assign : Bool → ℕ → Monitor → Monitor
assign b i s = record s { pred = b; owes = update s.owes i (b || s.owes i) }

unfoldable pub notify : ℕ → Monitor → Monitor
unfolding notify_all contains
notify i s =
    let o = notify_all s.queue in
    record s { queue = o.suspended; woken = marks s.woken o.resumed; owes = update s.owes i false }
