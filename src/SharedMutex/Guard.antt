-- ===== src/SharedMutex/Guard.antt =====
-- `shared_lock`: a guard that has a mutex or not, and shared ownership of it or not.
use boost_green_thread.Base.{Bool, true, false, not, if◌then◌else◌}
use boost_green_thread.SharedMutex.State.{StateData, done, answers, waits, Stretch, CvStatus}
use boost_green_thread.SharedMutex.Shared.{
  lock_shared, try_lock_shared, try_lock_shared_until, try_lock_shared_until_woken, unlock_shared,
}

pub record SharedLock : Type 0 where
  pub has_mutex : Bool  -- whether `m` is not null
  pub is_locked : Bool

-- A call throws `operation_not_permitted` for a guard without a mutex, or
-- `resource_deadlock_would_occur`, returns, gives a Boolean, or waits in the mutex.
pub data Result : Type 0 where
  no_mutex deadlock returns pauses : Result
  gives : Bool → Result

-- `sound`: the asserts of the mutex hold.
pub record Outcome : Type 0 where
  pub guard : SharedLock
  pub state : StateData
  pub result : Result
  pub sound : Bool

abbrev pub keeps : SharedLock → StateData → Result → Outcome
keeps g s r = record { guard = g; state = s; result = r; sound = true }

-- `shared_lock()`, and the constructors that defer locking and adopt a lock
abbrev pub empty : SharedLock
empty = record { has_mutex = false; is_locked = false }

abbrev pub deferred : SharedLock
deferred = record { has_mutex = true; is_locked = false }

abbrev pub adopted : SharedLock
adopted = record { has_mutex = true; is_locked = true }

-- A call of the mutex: what it means for the guard.
abbrev pub through : SharedLock → Stretch → Outcome
through g r = elim r.verdict [
  | done ↦ record {
    guard = record g { is_locked = true };
    state = r.state;
    result = returns;
    sound = r.sound;
  }
  | answers b ↦ record {
    guard = record g { is_locked = b };
    state = r.state;
    result = gives b;
    sound = r.sound;
  }
  | waits _ ↦ record { guard = g; state = r.state; result = pauses; sound = r.sound }
]

-- The two tests of each call that locks
abbrev pub tested : SharedLock → StateData → Outcome → Outcome
tested g s o =
    if not g.has_mutex then keeps g s no_mutex else if g.is_locked then keeps g s deadlock else o

unfoldable pub lock : SharedLock → StateData → Outcome
unfolding lock_shared
lock g s = tested g s (through g (lock_shared s))

unfoldable pub try_lock : SharedLock → StateData → Outcome
unfolding try_lock_shared
try_lock g s = tested g s (through g (try_lock_shared s))

-- `try_lock_until`, which `try_lock_for` is too but for the clock
unfoldable pub try_lock_until : SharedLock → StateData → Outcome
unfolding try_lock_shared_until
try_lock_until g s = tested g s (through g (try_lock_shared_until s))

-- Behind a wait
unfoldable pub try_lock_until_woken : CvStatus → SharedLock → StateData → Outcome
unfolding try_lock_shared_until_woken
try_lock_until_woken c g s = through g (try_lock_shared_until_woken c s)

unfoldable pub unlock : SharedLock → StateData → Outcome
unfolding unlock_shared
unlock g s =
    if not g.has_mutex
    then keeps g s no_mutex
    else if not g.is_locked
    then keeps g s deadlock
    else record {
      guard = record g { is_locked = false };
      state = (unlock_shared s).state;
      result = returns;
      sound = (unlock_shared s).sound;
    }

-- `release`, which gives the mutex up as it is
unfoldable pub release : SharedLock → SharedLock
release g = empty

-- `~shared_lock`
unfoldable pub destroy : SharedLock → StateData → Outcome
unfolding unlock_shared
destroy g s =
    if g.is_locked
    then record {
      guard = empty;
      state = (unlock_shared s).state;
      result = returns;
      sound = (unlock_shared s).sound;
    }
    else keeps empty s returns
