-- ===== src/Condition/Waits.antt =====
-- Threads that wait on one condition variable, their timers, and the handlers of these, interleaved
-- in any order. A timer expires at any time after it is armed; cancelled or expired, its handler
-- runs once, and learns which. `cancel` has no effect on a timer whose handler is already posted.
use boost_green_thread.Base.{
  ℕ, Bool, true, false, Option, none, some, List, [], ◌≡◌, update, contains, if◌then◌else◌,
}
use boost_green_thread.Mutex.Plain.{Mutex}
use boost_green_thread.Condition.{
  Item, CvStatus, no_timeout, Next, pauses, Outcome, wait, wait_rel, timeout_handler, notify_one,
  notify_all,
}

-- Not waiting, in `wait`, in `wait_rel`.
pub data Pc : Type 0 where
  away waiting timed : Pc

-- No timer, one that runs, one that ran out, one that was cancelled.
pub data Timer : Type 0 where
  off armed expired cancelled : Timer

-- The timer of `wait_rel` lies in its caller's frame, so it goes by its thread's number.
pub record System : Type 0 where
  pub queue : List Item
  pub pc : ℕ → Pc
  pub timer : ℕ → Timer
  pub ready : ℕ → Bool  -- `resume` has been called on it, and it has not run since
  pub status : ℕ → CvStatus  -- `ret` of its wait
  pub notified : ℕ → Bool  -- a notification has taken its item off the queue

abbrev pub init : System
init = record {
  queue = [];
  pc = λ _. away;
  timer = λ _. off;
  ready = λ _. false;
  status = λ _. no_timeout;
  notified = λ _. false;
}

abbrev pub after_wait : Pc → Pc → Next → Pc
after_wait p q pauses = q
after_wait p q _ = p

abbrev pub arms : (ℕ → Timer) → ℕ → Next → ℕ → Timer
arms timer i pauses = update timer i armed
arms timer i _ = timer

abbrev pub cancel : Timer → Timer
cancel armed = cancelled
cancel t = t

abbrev pub cancels : (ℕ → Timer) → List ℕ → ℕ → Timer
cancels timer ts i = if contains ts i then cancel (timer i) else timer i

abbrev pub marks : (ℕ → Bool) → List ℕ → ℕ → Bool
marks f is i = if contains is i then true else f i

abbrev pub is_cancelled : Timer → Bool
is_cancelled cancelled = true
is_cancelled _ = false

abbrev pub or_keep : CvStatus → Option CvStatus → CvStatus
or_keep old none = old
or_keep old (some new) = new

unfoldable pub call_wait : System → Mutex → ℕ → ℕ → System
unfolding wait
call_wait s m a i =
    let o = wait s.queue m a i in
    record s {
      queue = o.suspended;
      pc = update s.pc i (after_wait (s.pc i) waiting o.next);
      notified = update s.notified i false;
    }

unfoldable pub call_wait_rel : System → Mutex → ℕ → ℕ → System
unfolding wait_rel
call_wait_rel s m a i =
    let o = wait_rel s.queue m a i i in
    record s {
      queue = o.suspended;
      pc = update s.pc i (after_wait (s.pc i) timed o.next);
      timer = arms s.timer i o.next;
      status = update s.status i no_timeout;
      notified = update s.notified i false;
    }

-- What a notification does to the threads.
abbrev pub spread : System → Outcome → System
spread s o = record s {
  queue = o.suspended;
  timer = cancels s.timer o.cancelled;
  ready = marks s.ready o.resumed;
  notified = marks (marks s.notified o.resumed) o.cancelled;
}

unfoldable pub call_notify_one : System → System
unfolding notify_one contains
call_notify_one s = spread s (notify_one s.queue)

unfoldable pub call_notify_all : System → System
unfolding notify_all contains
call_notify_all s = spread s (notify_all s.queue)

unfoldable pub expire : System → ℕ → System
expire s i = record s { timer = update s.timer i expired }

unfoldable pub run_handler : System → ℕ → System
unfolding timeout_handler contains
run_handler s i =
    let (o, ret) = timeout_handler s.queue i (is_cancelled (s.timer i)) in
    record s {
      queue = o.suspended;
      timer = update s.timer i off;
      ready = marks s.ready o.resumed;
      status = update s.status i (or_keep (s.status i) ret);
    }

unfoldable pub run_on : System → ℕ → System
run_on s i = record s { pc = update s.pc i away; ready = update s.ready i false }

abbrev pub posted : Timer → Bool
posted off = false
posted armed = false
posted _ = true

pub data Step (s : System) : System → Type 0 where
  waits : (m : Mutex) (a i : ℕ) → s.pc i ≡ away → Step s (call_wait s m a i)
  waits_rel : (m : Mutex) (a i : ℕ) → s.pc i ≡ away → Step s (call_wait_rel s m a i)
  notifies_one : Step s (call_notify_one s)
  notifies_all : Step s (call_notify_all s)
  expires : (i : ℕ) → s.timer i ≡ armed → Step s (expire s i)
  handles : (i : ℕ) → posted (s.timer i) ≡ true → Step s (run_handler s i)
  wakes : (i : ℕ) → s.ready i ≡ true → Step s (run_on s i)

pub data Reach : System → Type 0 where
  start : Reach init
  later : {s t : System} → Reach s → Step s t → Reach t
