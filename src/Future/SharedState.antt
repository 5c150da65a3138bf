-- ===== src/Future/SharedState.antt =====
-- `shared_state<R>`. `mtx_` makes a call one step, but for the waits; `E` is the type of the
-- exceptions that users throw, and a number names an external waiter.
use boost_green_thread.Base.{
  ℕ, Bool, true, false, Option, none, some, List, [], ◌∷◌, ◌++◌, if◌then◌else◌,
}

-- What an `exception_ptr` in a shared state holds.
pub data Exn {ℓ} (E : Type ℓ) : Type ℓ where
  broken_promise : Exn E
  thrown : E → Exn E

pub record SharedState {ℓ} (R E : Type ℓ) : Type ℓ where
  pub ready : Bool
  pub value : Option R
  pub except : Option (Exn E)
  pub ext_waiters : List ℕ

pub data FutureStatus : Type 0 where
  is_ready timed_out : FutureStatus

pub data CvStatus : Type 0 where
  no_timeout timeout : CvStatus

-- How a call ends: it returns, gives the result, rethrows, throws `promise_already_satisfied`,
-- reports a status, waits on `waiters_`, or reads an optional that holds nothing.
pub data Verdict {ℓ} (R E : Type ℓ) : Type ℓ where
  done : Verdict R E
  gives : R → Verdict R E
  rethrows : Exn E → Verdict R E
  already_satisfied : Verdict R E
  reports : FutureStatus → Verdict R E
  waits : Verdict R E
  empty_value : Verdict R E

pub record Outcome {ℓ} (R E : Type ℓ) : Type ℓ where
  pub state : SharedState R E
  pub verdict : Verdict R E
  pub notified : Bool  -- `waiters_.notify_all()` has been called
  pub called : List ℕ  -- the external waiters that run, in order

module _ {ℓ} {R E : Type ℓ} where
  abbrev pub keeps : SharedState R E → Verdict R E → Outcome R E
  keeps s v = record { state = s; verdict = v; notified = false; called = [] }

  -- `shared_state()`
  abbrev pub fresh : SharedState R E
  fresh = record { ready = false; value = none; except = none; ext_waiters = [] }

  unfoldable pub mark_ready_and_notify : SharedState R E → Outcome R E
  mark_ready_and_notify s = record {
    state = record s { ready = true };
    verdict = done;
    notified = true;
    called = s.ext_waiters;
  }

  unfoldable pub set_value : R → SharedState R E → Outcome R E
  unfolding mark_ready_and_notify
  set_value v s =
      if s.ready
      then keeps s already_satisfied
      else mark_ready_and_notify (record s { value = some v })

  unfoldable pub set_exception : Exn E → SharedState R E → Outcome R E
  unfolding mark_ready_and_notify
  set_exception e s =
      if s.ready
      then keeps s already_satisfied
      else mark_ready_and_notify (record s { except = some e })

  unfoldable pub owner_destroyed : SharedState R E → Outcome R E
  unfolding set_exception
  owner_destroyed s = if s.ready then keeps s done else set_exception broken_promise s

  abbrev pub value_get : Option R → Verdict R E
  value_get none = empty_value
  value_get (some v) = gives v

  -- `wait_` and what follows it; the next turn, behind the wait, is the same.
  unfoldable pub get : SharedState R E → Outcome R E
  get s =
      if s.ready
      then keeps s (elim s.except [ some e ↦ rethrows e | none ↦ value_get s.value ])
      else keeps s waits

  unfoldable pub wait : SharedState R E → Outcome R E
  wait s = if s.ready then keeps s done else keeps s waits

  unfoldable pub wait_for : SharedState R E → Outcome R E
  wait_for s = if s.ready then keeps s (reports is_ready) else keeps s waits

  -- Behind a wait.
  unfoldable pub wait_for_woken : CvStatus → SharedState R E → Outcome R E
  unfolding wait_for
  wait_for_woken timeout s =
      if s.ready then keeps s (reports is_ready) else keeps s (reports timed_out)
  wait_for_woken no_timeout s = wait_for s

  unfoldable pub wait_until : SharedState R E → Outcome R E
  wait_until s = if s.ready then keeps s (reports is_ready) else keeps s waits

  unfoldable pub wait_until_woken : CvStatus → SharedState R E → Outcome R E
  unfolding wait_until
  wait_until_woken timeout s =
      if s.ready then keeps s (reports is_ready) else keeps s (reports timed_out)
  wait_until_woken no_timeout s = wait_until s

  unfoldable pub add_external_waiter : ℕ → SharedState R E → Outcome R E
  add_external_waiter f s =
      if s.ready
      then record { state = s; verdict = done; notified = false; called = f ∷ [] }
      else keeps (record s { ext_waiters = s.ext_waiters ++ f ∷ [] }) done

  unfoldable pub reset : SharedState R E → SharedState R E
  reset s = record s { ready = false }
