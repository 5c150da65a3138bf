-- ===== src/Future/Waiting/Any.antt =====
-- `wait_for_any`: `any_state`, the waiters that it puts on the futures, and the threads that settle
-- these, interleaved in any order. `any_state::mtx` makes `set_value` and a turn of `wait` one step
-- each; a waiter that a settled future calls runs at any later time.
use boost_green_thread.Base.{
  ℕ, suc, ◌<◌, Bool, true, false, Option, none, some, ◌≡◌, ◌≢◌, contains, update, if◌then◌else◌,
}
use boost_green_thread.Future.SharedState.{SharedState, Outcome, fresh}
use boost_green_thread.Future.SharedState
use boost_green_thread.Future.Waiting.Settle.{Settle, settle, called_until}

-- A future goes by its place among the arguments.
pub record AnyState : Type 0 where
  pub flag : Bool
  pub ret : ℕ

unfoldable pub set_value : ℕ → AnyState → AnyState
set_value v a = record { flag = true; ret = v }

-- A turn of the loop of `wait`; none if it waits.
unfoldable pub wait : AnyState → Option ℕ
wait a = if a.flag then some a.ret else none

-- The caller registers waiters, up to the future `k`, then takes turns of `any_state::wait`.
pub data Pc : Type 0 where
  registering : (k : ℕ) → Pc
  checking waiting : Pc
  returned : ℕ → Pc

-- `due i`: the waiter on future `i` has been called and has not yet run.
pub record System {ℓ} (R E : Type ℓ) : Type ℓ where
  pub futures : ℕ → SharedState R E
  pub due : ℕ → Bool
  pub any : AnyState
  pub pc : Pc

abbrev pub wake : Pc → Pc
wake waiting = checking
wake p = p

module _ {ℓ} {R E : Type ℓ} where
  abbrev pub init : (ℕ → SharedState R E) → System R E
  init fs = record {
    futures = fs;
    due = λ _. false;
    any = record { flag = false; ret = 0 };
    pc = registering 0;
  }

  -- `any_waiter::setup` for the future `k`; on a ready future the waiter runs at once.
  unfoldable pub setup : ℕ → System R E → System R E
  unfolding SharedState.add_external_waiter contains set_value
  setup k s =
      let o = SharedState.add_external_waiter k (s.futures k) in
      record s {
        futures = update s.futures k o.state;
        any = if contains o.called k then set_value k s.any else s.any;
        pc = registering (suc k);
      }

  -- Another caller adds the waiter `j` to future `i`; on a ready future it runs in that caller.
  unfoldable pub attached : ℕ → ℕ → System R E → System R E
  unfolding SharedState.add_external_waiter
  attached i j s = record s {
    futures = update s.futures i (SharedState.add_external_waiter j (s.futures i)).state;
  }

  -- `throws i j` says whether waiter `j` on future `i` throws; a waiter behind it is not called.
  unfoldable pub settled : (ℕ → ℕ → Bool) → ℕ → Settle R E → System R E → System R E
  unfolding contains called_until SharedState.set_value SharedState.set_exception
      SharedState.owner_destroyed
  settled throws i c s =
      let o = settle c (s.futures i) in
      record s {
        futures = update s.futures i o.state;
        due = if contains (called_until (throws i) o.called) i then update s.due i true else s.due;
      }

  -- `s->set_value(N);` with its notification.
  unfoldable pub waiter_runs : ℕ → System R E → System R E
  unfolding set_value
  waiter_runs i s = record s { due = update s.due i false; any = set_value i s.any; pc = wake s.pc }

  unfoldable pub check : System R E → System R E
  unfolding wait
  check s = record s { pc = elim (wait s.any) [ none ↦ waiting | some r ↦ returned r ] }

  -- `n` is the number of futures.
  pub data Step (throws : ℕ → ℕ → Bool) (n : ℕ) (s : System R E) : System R E → Type ℓ where
    registers : (k : ℕ) → s.pc ≡ registering k → k < n → Step throws n s (setup k s)
    begins : s.pc ≡ registering n → Step throws n s (record s { pc = checking })
    settles : (i : ℕ) (c : Settle R E) → i < n → Step throws n s (settled throws i c s)
    attaches : (i j : ℕ) → i ≢ j → throws i j ≡ false → Step throws n s (attached i j s)
    runs : (i : ℕ) → s.due i ≡ true → Step throws n s (waiter_runs i s)
    checks : s.pc ≡ checking → Step throws n s (check s)

  -- The futures may be ready from the start, but no waiter of this call is on them, and
  -- those that are on them do not throw, nor do those that others add later.
  pub data Reach (throws : ℕ → ℕ → Bool) (n : ℕ) : System R E → Type ℓ where
    start :
        (fs : ℕ → SharedState R E)
        → ((i : ℕ) → contains (fs i).ext_waiters i ≡ false)
        → ((i j : ℕ) → contains (fs i).ext_waiters j ≡ true → throws i j ≡ false)
        → Reach throws n (init fs)
    later : {s t : System R E} → Reach throws n s → Step throws n s t → Reach throws n t
