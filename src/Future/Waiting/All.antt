-- ===== src/Future/Waiting/All.antt =====
-- `wait_for_all`: its counter, the waiters that it puts on the futures, and the threads that settle
-- these, interleaved in any order. A waiter counts and then notifies, without the mutex that the
-- caller holds while it looks at the counter and until it stands in the queue of `cv`.
use boost_green_thread.Base.{
  ℕ, suc, ◌<◌, Bool, true, false, ◌||◌, ◌≡◌, ◌==◌, contains, update, size_inc, if◌then◌else◌,
}
use boost_green_thread.Future.SharedState.{SharedState, Outcome}
use boost_green_thread.Future.SharedState
use boost_green_thread.Future.Waiting.Settle.{Settle, settle, called_until}

-- The caller registers waiters, up to the future `k`, and then takes turns of `cv.wait(lk, pred)`:
-- it looks at the counter, and if that falls short it enters the queue of `cv` and suspends.
pub data Pc : Type 0 where
  registering : (k : ℕ) → Pc
  checking deciding waiting returned : Pc

-- `due i`: the waiter on future `i` has been called and has not yet counted. `telling i`: it has
-- counted and will notify. `ran i`: it has counted.
pub record System {ℓ} (R E : Type ℓ) : Type ℓ where
  pub futures : ℕ → SharedState R E
  pub due : ℕ → Bool
  pub telling : ℕ → Bool
  pub ran : ℕ → Bool
  pub acquired : ℕ  -- size_t
  pub pc : Pc

abbrev pub wake : Pc → Pc
wake waiting = checking
wake p = p

module _ {ℓ} {R E : Type ℓ} where
  abbrev pub init : (ℕ → SharedState R E) → System R E
  init fs = record {
    futures = fs;
    due = λ _. false;
    telling = λ _. false;
    ran = λ _. false;
    acquired = 0;
    pc = registering 0;
  }

  -- `all_waiter::setup` for the future `k`; on a ready future the waiter runs at once, in the caller.
  unfoldable pub setup : ℕ → System R E → System R E
  unfolding SharedState.add_external_waiter contains
  setup k s =
      let o = SharedState.add_external_waiter k (s.futures k) in
      record s {
        futures = update s.futures k o.state;
        acquired = if contains o.called k then size_inc s.acquired else s.acquired;
        ran = if contains o.called k then update s.ran k true else s.ran;
        pc = registering (suc k);
      }

  -- `throws i j` says whether waiter `j` on future `i` throws; a waiter behind it is not called.
  unfoldable pub settled : (ℕ → ℕ → Bool) → ℕ → Settle R E → System R E → System R E
  unfolding contains called_until SharedState.set_value SharedState.set_exception
      SharedState.owner_destroyed
  settled throws i c s =
      let o = settle c (s.futures i) in
      record s {
        futures = update s.futures i o.state;
        due = if contains (called_until (throws i) o.called) i then update s.due i true else s.due;
      }

  -- `++acquired`. The form over futures notifies if that makes `count`, the form over iterators, for
  -- which `each` is true, always.
  unfoldable pub waiter_counts : Bool → ℕ → ℕ → System R E → System R E
  waiter_counts each count i s = record s {
    due = update s.due i false;
    ran = update s.ran i true;
    acquired = size_inc s.acquired;
    telling = if each || size_inc s.acquired == count then update s.telling i true else s.telling;
  }

  -- `cv.notify_all();`
  unfoldable pub waiter_notifies : ℕ → System R E → System R E
  waiter_notifies i s = record s { telling = update s.telling i false; pc = wake s.pc }

  -- `while (!pred())`
  unfoldable pub check : ℕ → System R E → System R E
  check count s = record s { pc = if s.acquired == count then returned else deciding }

  pub data Step (throws : ℕ → ℕ → Bool) (each : Bool) (n : ℕ) (s : System R E)
      : System R E → Type ℓ where
    registers : (k : ℕ) → s.pc ≡ registering k → k < n → Step throws each n s (setup k s)
    begins : s.pc ≡ registering n → Step throws each n s (record s { pc = checking })
    settles : (i : ℕ) (c : Settle R E) → i < n → Step throws each n s (settled throws i c s)
    counts : (i : ℕ) → s.due i ≡ true → Step throws each n s (waiter_counts each n i s)
    notifies : (i : ℕ) → s.telling i ≡ true → Step throws each n s (waiter_notifies i s)
    checks : s.pc ≡ checking → Step throws each n s (check n s)
    queues : s.pc ≡ deciding → Step throws each n s (record s { pc = waiting })

  -- What can follow `s`.
  pub data From (throws : ℕ → ℕ → Bool) (each : Bool) (n : ℕ) (s : System R E)
      : System R E → Type ℓ where
    here : From throws each n s s
    later :
        {t u : System R E}
        → From throws each n s t
        → Step throws each n t u
        → From throws each n s u

  -- The futures may be ready from the start, but no waiter of this call is on them.
  abbrev pub Clean : (ℕ → SharedState R E) → Type 0
  Clean fs = (i : ℕ) → contains (fs i).ext_waiters i ≡ false
