-- ===== src/Future/Waiting/AsyncAll.antt =====
-- `async_wait_for_all` (future/promise.hpp): `async_all_state`, its waiters on the futures, and the
-- threads that settle these, interleaved in any order. `++acquired` is atomic; what a waiter does
-- behind it, it does at any later time.
use boost_green_thread.Base.{
  ℕ, suc, ◌<◌, Bool, true, false, ◌≡◌, ◌≢◌, leb, contains, update, size_inc, if◌then◌else◌,
}
use boost_green_thread.Future.SharedState.{SharedState, Outcome, fresh}
use boost_green_thread.Future.SharedState
use boost_green_thread.Future.Waiting.Settle.{Settle, settle, called_until}
use boost_green_thread.Future.Void.{VoidState, VoidOutcome}
use boost_green_thread.Future.Void

-- The waiter on future `i` has been called (`due`), has counted (`ran`), and has found that it will
-- set the value (`telling`); `last` is the one that counted last. `failed` says whether `set_value` of
-- the promise `p` has thrown, and `result` is what `p` leads to.
pub record System (R E : Type 0) : Type 0 where
  pub futures : ℕ → SharedState R E
  pub registered : ℕ
  pub due : ℕ → Bool
  pub ran : ℕ → Bool
  pub telling : ℕ → Bool
  pub last : ℕ
  pub acquired : ℕ  -- size_t
  pub result : VoidState E
  pub failed : Bool

module _ {R E : Type 0} where
  abbrev pub init : (ℕ → SharedState R E) → System R E
  init fs = record {
    futures = fs;
    registered = 0;
    due = λ _. false;
    ran = λ _. false;
    telling = λ _. false;
    last = 0;
    acquired = 0;
    result = Void.fresh;
    failed = false;
  }

  -- `async_all_waiter::setup` for the next future; on a ready future the waiter is called at once.
  unfoldable pub setup : System R E → System R E
  unfolding SharedState.add_external_waiter contains
  setup s =
      let k = s.registered in
      let o = SharedState.add_external_waiter k (s.futures k) in
      record s {
        futures = update s.futures k o.state;
        registered = suc k;
        due = if contains o.called k then update s.due k true else s.due;
      }

  -- Another caller adds the waiter `j` to future `i`; on a ready future it runs in that caller.
  unfoldable pub attached : ℕ → ℕ → System R E → System R E
  unfolding SharedState.add_external_waiter
  attached i j s = record s {
    futures = update s.futures i (SharedState.add_external_waiter j (s.futures i)).state;
  }

  -- `throws i j` says whether waiter `j` on future `i` throws; a waiter behind it is not called.
  unfoldable pub settled : (ℕ → ℕ → Bool) → ℕ → Settle R E → System R E → System R E
  unfolding contains called_until SharedState.set_value SharedState.set_exception
      SharedState.owner_destroyed
  settled throws i c s =
      let o = settle c (s.futures i) in
      record s {
        futures = update s.futures i o.state;
        due = if contains (called_until (throws i) o.called) i then update s.due i true else s.due;
      }

  -- `if(++acquired>=count_)`
  unfoldable pub count : ℕ → ℕ → System R E → System R E
  count n i s = record s {
    due = update s.due i false;
    ran = update s.ran i true;
    telling = if leb n (size_inc s.acquired) then update s.telling i true else s.telling;
    last = i;
    acquired = size_inc s.acquired;
  }

  -- `p.set_value();`
  unfoldable pub tell : ℕ → System R E → System R E
  unfolding Void.set_value
  tell i s = record s {
    telling = update s.telling i false;
    result = (Void.set_value s.result).state;
    failed = if (Void.set_value s.result).notified then s.failed else true;
  }

  pub data Step (throws : ℕ → ℕ → Bool) (n : ℕ) (s : System R E) : System R E → Type 0 where
    registers : s.registered < n → Step throws n s (setup s)
    settles : (i : ℕ) (c : Settle R E) → i < n → Step throws n s (settled throws i c s)
    attaches : (i j : ℕ) → i ≢ j → throws i j ≡ false → Step throws n s (attached i j s)
    counts : (i : ℕ) → s.due i ≡ true → Step throws n s (count n i s)
    tells : (i : ℕ) → s.telling i ≡ true → Step throws n s (tell i s)

  -- The futures may be ready from the start, but no waiter of this call is on them, and
  -- those that are on them do not throw, nor do those that others add later.
  pub data Reach (throws : ℕ → ℕ → Bool) (n : ℕ) : System R E → Type 0 where
    start :
        (fs : ℕ → SharedState R E)
        → ((i : ℕ) → contains (fs i).ext_waiters i ≡ false)
        → ((i j : ℕ) → contains (fs i).ext_waiters j ≡ true → throws i j ≡ false)
        → Reach throws n (init fs)
    later : {s t : System R E} → Reach throws n s → Step throws n s t → Reach throws n t
