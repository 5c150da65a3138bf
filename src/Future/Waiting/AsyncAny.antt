-- ===== src/Future/Waiting/AsyncAny.antt =====
-- `async_wait_for_any` (future/promise.hpp): `async_any_state`, its waiters on the futures, and the
-- threads that settle these, interleaved in any order. A waiter tests `is_set_`, then sets it, then
-- sets the value of the promise, and others may run in between.
use boost_green_thread.Base.{
  ℕ, suc, ◌<◌, Bool, true, false, ◌≡◌, ◌≢◌, contains, update, if◌then◌else◌,
}
use boost_green_thread.Future.SharedState.{SharedState, Outcome, fresh}
use boost_green_thread.Future.SharedState
use boost_green_thread.Future.Waiting.Settle.{Settle, settle, called_until}

-- The waiter on future `i` has been called (`due`), has found `is_set_` false (`decided`), has set it
-- (`marked`; `marker` is the last that has), and has thrown out of `set_value` (`threw`). `result` is
-- what the promise `p` leads to.
pub record System (R E : Type 0) : Type 0 where
  pub futures : ℕ → SharedState R E
  pub registered : ℕ
  pub due : ℕ → Bool
  pub decided : ℕ → Bool
  pub marked : ℕ → Bool
  pub marker : ℕ
  pub is_set : Bool
  pub result : SharedState ℕ E
  pub threw : ℕ → Bool

module _ {R E : Type 0} where
  abbrev pub init : (ℕ → SharedState R E) → System R E
  init fs = record {
    futures = fs;
    registered = 0;
    due = λ _. false;
    decided = λ _. false;
    marked = λ _. false;
    marker = 0;
    is_set = false;
    result = fresh;
    threw = λ _. false;
  }

  -- `async_any_waiter::setup` for the next future; on a ready future the waiter is called at once.
  unfoldable pub setup : System R E → System R E
  unfolding SharedState.add_external_waiter contains
  setup s =
      let k = s.registered in
      let o = SharedState.add_external_waiter k (s.futures k) in
      record s {
        futures = update s.futures k o.state;
        registered = suc k;
        due = if contains o.called k then update s.due k true else s.due;
      }

  -- Another caller adds the waiter `j` to future `i`; on a ready future it runs in that caller.
  unfoldable pub attached : ℕ → ℕ → System R E → System R E
  unfolding SharedState.add_external_waiter
  attached i j s = record s {
    futures = update s.futures i (SharedState.add_external_waiter j (s.futures i)).state;
  }

  -- `throws i j` says whether waiter `j` on future `i` throws; a waiter behind it is not called.
  unfoldable pub settled : (ℕ → ℕ → Bool) → ℕ → Settle R E → System R E → System R E
  unfolding contains called_until SharedState.set_value SharedState.set_exception
      SharedState.owner_destroyed
  settled throws i c s =
      let o = settle c (s.futures i) in
      record s {
        futures = update s.futures i o.state;
        due = if contains (called_until (throws i) o.called) i then update s.due i true else s.due;
      }

  -- `if(is_set_) return;`
  unfoldable pub test : ℕ → System R E → System R E
  test i s = record s {
    due = update s.due i false;
    decided = update s.decided i (if s.is_set then false else true);
  }

  -- `is_set_=true;`
  unfoldable pub mark : ℕ → System R E → System R E
  mark i s = record s {
    decided = update s.decided i false;
    marked = update s.marked i true;
    marker = i;
    is_set = true;
  }

  -- `p.set_value(v);`
  unfoldable pub tell : ℕ → System R E → System R E
  unfolding SharedState.set_value
  tell i s = record s {
    marked = update s.marked i false;
    result = (SharedState.set_value i s.result).state;
    threw = if (SharedState.set_value i s.result).notified then s.threw else update s.threw i true;
  }

  pub data Step (throws : ℕ → ℕ → Bool) (n : ℕ) (s : System R E) : System R E → Type 0 where
    registers : s.registered < n → Step throws n s (setup s)
    settles : (i : ℕ) (c : Settle R E) → i < n → Step throws n s (settled throws i c s)
    attaches : (i j : ℕ) → i ≢ j → throws i j ≡ false → Step throws n s (attached i j s)
    tests : (i : ℕ) → s.due i ≡ true → Step throws n s (test i s)
    marks : (i : ℕ) → s.decided i ≡ true → Step throws n s (mark i s)
    tells : (i : ℕ) → s.marked i ≡ true → Step throws n s (tell i s)

  -- The futures may be ready from the start, but no waiter of this call is on them, and
  -- those that are on them do not throw, nor do those that others add later.
  pub data Reach (throws : ℕ → ℕ → Bool) (n : ℕ) : System R E → Type 0 where
    start :
        (fs : ℕ → SharedState R E)
        → ((i : ℕ) → contains (fs i).ext_waiters i ≡ false)
        → ((i j : ℕ) → contains (fs i).ext_waiters j ≡ true → throws i j ≡ false)
        → Reach throws n (init fs)
    later : {s t : System R E} → Reach throws n s → Step throws n s t → Reach throws n t
