-- ===== src/SharedMutex/State.antt =====
-- `state_data`, and what a stretch of code between two releases of `state_change` does.
use boost_green_thread.Base.{
  ℕ, Bool, true, false, not, ◌&&◌, ◌||◌, List, [], ◌∷◌, ltb, unsigned_inc, unsigned_dec,
}

pub record StateData : Type 0 where
  pub shared_count : ℕ  -- unsigned
  pub exclusive : Bool
  pub upgrade : Bool
  pub exclusive_waiting_blocked : Bool

-- `state_data()`
abbrev pub fresh : StateData
fresh = record {
  shared_count = 0;
  exclusive = false;
  upgrade = false;
  exclusive_waiting_blocked = false;
}

abbrev pub more_shared : StateData → Bool
more_shared s = ltb 0 s.shared_count

abbrev pub can_lock : StateData → Bool
can_lock s = not (more_shared s || s.exclusive)

abbrev pub can_lock_shared : StateData → Bool
can_lock_shared s = not (s.exclusive || s.exclusive_waiting_blocked)

abbrev pub can_lock_upgrade : StateData → Bool
can_lock_upgrade s = not (s.exclusive || s.exclusive_waiting_blocked || s.upgrade)

abbrev pub add_shared : StateData → StateData
add_shared s = record s { shared_count = unsigned_inc s.shared_count }

abbrev pub drop_shared : StateData → StateData
drop_shared s = record s { shared_count = unsigned_dec s.shared_count }

-- The tests of `assert_free`, `assert_locked`, `assert_lock_shared` and `assert_lock_upgraded`.
abbrev pub is_free : StateData → Bool
is_free s = not s.exclusive && not s.upgrade && not (more_shared s)

abbrev pub is_locked : StateData → Bool
is_locked s = s.exclusive && not (more_shared s) && not s.upgrade

abbrev pub is_lock_shared : StateData → Bool
is_lock_shared s = not s.exclusive && more_shared s

abbrev pub is_lock_upgraded : StateData → Bool
is_lock_upgraded s = not s.exclusive && s.upgrade && more_shared s

pub data Cond : Type 0 where
  shared_cond exclusive_cond upgrade_cond : Cond

pub data Notice : Type 0 where
  one all : Cond → Notice

-- The call ends, gives a Boolean, or waits on a condition variable.
pub data Verdict : Type 0 where
  done : Verdict
  answers : Bool → Verdict
  waits : Cond → Verdict

pub data CvStatus : Type 0 where
  no_timeout timeout : CvStatus

pub record Stretch : Type 0 where
  pub state : StateData
  pub verdict : Verdict
  pub notices : List Notice
  pub sound : Bool  -- every `assert` on the way holds

abbrev pub quietly : StateData → Verdict → Stretch
quietly s v = record { state = s; verdict = v; notices = []; sound = true }

abbrev pub release_waiters : List Notice
release_waiters = one exclusive_cond ∷ all shared_cond ∷ []
