-- ===== src/SharedMutex/Guards.antt =====
-- Any number of `shared_lock`s on one `shared_timed_mutex`, and a thread that locks it exclusively,
-- interleaved in any order.
pub mod Balance
use boost_green_thread.Base.{
  ℕ, zero, suc, ◌+◌, ◌-◌, ◌<◌, ◌≤◌, Bool, true, false, not, ◌≡◌, ◌⊎◌, refl, update, unsigned_mod,
  if◌then◌else◌, arith,
}
use boost_green_thread.Base.Tally.{tally, tally-le, tally-set, tally_none}
use boost_green_thread.SharedMutex.State.{
  StateData, fresh, Verdict, done, answers, waits, Stretch, CvStatus, no_timeout, timeout,
  is_lock_shared,
}
use boost_green_thread.SharedMutex.Exclusive
use boost_green_thread.SharedMutex.Guard.{SharedLock, Result, Outcome, empty, deferred, adopted}
use boost_green_thread.SharedMutex.Guard

-- The members of the guards; `loose` counts the shared ownerships that `release` has left to the
-- program, and `writer` says whether the mutex is locked exclusively.
pub record Program : Type 0 where
  pub state : StateData
  pub has_mutex : ℕ → Bool
  pub is_locked : ℕ → Bool
  pub loose : ℕ
  pub writer : Bool

abbrev pub init : Program
init = record {
  state = fresh;
  has_mutex = λ _. false;
  is_locked = λ _. false;
  loose = 0;
  writer = false;
}

abbrev pub guard : Program → ℕ → SharedLock
guard s i = record { has_mutex = s.has_mutex i; is_locked = s.is_locked i }

abbrev pub put : Program → ℕ → SharedLock → StateData → Program
put s i g d = record s {
  state = d;
  has_mutex = update s.has_mutex i g.has_mutex;
  is_locked = update s.is_locked i g.is_locked;
}

-- What guard `i` does to the mutex.
pub data Op : Type 0 where
  lock try_lock try_lock_until unlock destroy : Op
  try_lock_until_woken : CvStatus → Op

unfoldable pub call : Op → ℕ → Program → Outcome
unfolding Guard.lock Guard.try_lock Guard.try_lock_until Guard.try_lock_until_woken Guard.unlock
    Guard.destroy
call lock i s = Guard.lock (guard s i) s.state
call try_lock i s = Guard.try_lock (guard s i) s.state
call try_lock_until i s = Guard.try_lock_until (guard s i) s.state
call (try_lock_until_woken c) i s = Guard.try_lock_until_woken c (guard s i) s.state
call unlock i s = Guard.unlock (guard s i) s.state
call destroy i s = Guard.destroy (guard s i) s.state

unfoldable pub operate : Op → ℕ → Program → Program
unfolding call
operate op i s = put s i (call op i s).guard (call op i s).state

unfoldable pub release : ℕ → Program → Program
unfolding Guard.release
release i s = record (put s i (Guard.release (guard s i)) s.state) {
  loose = s.loose + (if s.is_locked i then 1 else 0);
}

-- The constructors that defer locking and adopt a lock, and the move constructor, of `j` from `i`
unfoldable pub bind : ℕ → Program → Program
bind i s = put s i deferred s.state

unfoldable pub adopt : ℕ → Program → Program
adopt i s = record (put s i adopted s.state) { loose = s.loose - 1 }

unfoldable pub move : ℕ → ℕ → Program → Program
move i j s = put (put s j (guard s i) s.state) i empty s.state

unfoldable pub swap : ℕ → ℕ → Program → Program
swap i j s = put (put s i (guard s j) s.state) j (guard s i) s.state

abbrev pub succeeds : Verdict → Bool
succeeds done = true
succeeds (answers b) = b
succeeds (waits _) = false

unfoldable pub write_lock : Program → Program
unfolding Exclusive.lock
write_lock s =
    let r = Exclusive.lock s.state in record s { state = r.state; writer = succeeds r.verdict }

unfoldable pub write_unlock : Program → Program
unfolding Exclusive.unlock
write_unlock s = record s { state = (Exclusive.unlock s.state).state; writer = false }

-- `n` guards; a guard that waits in `try_lock_until` does nothing else meanwhile.
pub data Step (n : ℕ) (s : Program) : Program → Type 0 where
  operates :
      (op : Op) (i : ℕ)
      → i < n
      → s.state.shared_count + 1 < unsigned_mod
      → ((c : CvStatus)
          → op ≡ try_lock_until_woken c
          → (s.has_mutex i ≡ true) × (s.is_locked i ≡ false))
      → Step n s (operate op i s)
  releases : (i : ℕ) → i < n → Step n s (release i s)
  binds : (i : ℕ) → i < n → s.has_mutex i ≡ false → Step n s (bind i s)
  adopts : (i : ℕ) → i < n → s.has_mutex i ≡ false → 0 < s.loose → Step n s (adopt i s)
  moves : (i j : ℕ) → i < n → j < n → s.has_mutex j ≡ false → Step n s (move i j s)
  swaps : (i j : ℕ) → i < n → j < n → Step n s (swap i j s)
  write_locks : s.writer ≡ false → Step n s (write_lock s)
  write_unlocks : s.writer ≡ true → Step n s (write_unlock s)

pub data Reach (n : ℕ) : Program → Type 0 where
  start : Reach n init
  later : {s t : Program} → Reach n s → Step n s t → Reach n t
