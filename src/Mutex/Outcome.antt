-- ===== src/Mutex/Outcome.antt =====
-- What a call of a lock does to its caller, as seen when the spinlock `mtx_` is released.
use boost_green_thread.Base.{ℕ, Bool, List, [], ◌∷◌}

-- `lock_error`, with its two codes.
pub data LockError : Type 0 where
  deadlock no_perm : LockError

-- How a call goes on: it returns (`answers` where it has a value), throws, suspends its caller in
-- `pause`, or yields to a thread.
pub data Next : Type 0 where
  returns : Next
  answers : Bool → Next
  throws : LockError → Next
  pauses : Next
  yields : ℕ → Next

pub record Outcome (S : Type 0) : Type 0 where
  pub state : S
  pub next : Next
  pub resumed : List ℕ  -- the threads on which `resume` is called, in order
  pub cancelled : List ℕ  -- the timers on which `cancel` is called, in order

-- A call that resumes no thread and cancels no timer.
abbrev pub keeps : {S : Type 0} → S → Next → Outcome S
keeps s n = record { state = s; next = n; resumed = []; cancelled = [] }

-- The call hands the lock to `f`, resumes it and yields to it.
abbrev pub hands_over : {S : Type 0} → S → ℕ → Outcome S
hands_over s f = record { state = s; next = yields f; resumed = f ∷ []; cancelled = [] }

-- The call hands the lock to `f`, whose timer it cancels, and yields to it.
abbrev pub hands_over_timed : {S : Type 0} → S → ℕ → ℕ → Outcome S
hands_over_timed s f t = record { state = s; next = yields f; resumed = []; cancelled = t ∷ [] }
