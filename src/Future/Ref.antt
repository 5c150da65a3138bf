-- ===== src/Future/Ref.antt =====
-- `shared_state<R &>`: a shared state that holds a pointer to an object; objects go by numbers.
pub mod Agrees
pub mod Handles
pub mod Alike
pub mod Programs
mod Examples
use boost_green_thread.Base.{
  ℕ, Bool, true, false, Option, none, some, List, [], ◌∷◌, ◌++◌, if◌then◌else◌,
}
use boost_green_thread.Future.SharedState.{
  Exn, broken_promise, Verdict, done, gives, empty_value, rethrows, already_satisfied, reports,
  is_ready, timed_out, waits, CvStatus, no_timeout, timeout,
}

pub record RefState (E : Type 0) : Type 0 where
  pub ready : Bool
  pub value : Option ℕ  -- `value_`, none for null
  pub except : Option (Exn E)
  pub ext_waiters : List ℕ

pub record RefOutcome (E : Type 0) : Type 0 where
  pub state : RefState E
  pub verdict : Verdict ℕ E
  pub notified : Bool
  pub called : List ℕ

module _ {E : Type 0} where
  abbrev pub keeps : RefState E → Verdict ℕ E → RefOutcome E
  keeps s v = record { state = s; verdict = v; notified = false; called = [] }

  -- `shared_state()`
  abbrev pub fresh : RefState E
  fresh = record { ready = false; value = none; except = none; ext_waiters = [] }

  unfoldable pub mark_ready_and_notify : RefState E → RefOutcome E
  mark_ready_and_notify s = record {
    state = record s { ready = true };
    verdict = done;
    notified = true;
    called = s.ext_waiters;
  }

  unfoldable pub set_value : ℕ → RefState E → RefOutcome E
  unfolding mark_ready_and_notify
  set_value v s =
      if s.ready
      then keeps s already_satisfied
      else mark_ready_and_notify (record s { value = some v })

  unfoldable pub set_exception : Exn E → RefState E → RefOutcome E
  unfolding mark_ready_and_notify
  set_exception e s =
      if s.ready
      then keeps s already_satisfied
      else mark_ready_and_notify (record s { except = some e })

  unfoldable pub owner_destroyed : RefState E → RefOutcome E
  unfolding set_exception
  owner_destroyed s = if s.ready then keeps s done else set_exception broken_promise s

  -- `* value_`, of a pointer that may be null
  abbrev pub dereferenced : Option ℕ → Verdict ℕ E
  dereferenced none = empty_value
  dereferenced (some v) = gives v

  -- One turn of `wait_`, and what follows it; the next turn, behind the wait, is the same.
  unfoldable pub get : RefState E → RefOutcome E
  get s =
      if s.ready
      then keeps s (elim s.except [ some e ↦ rethrows e | none ↦ dereferenced s.value ])
      else keeps s waits

  unfoldable pub wait : RefState E → RefOutcome E
  wait s = if s.ready then keeps s done else keeps s waits

  unfoldable pub wait_for : RefState E → RefOutcome E
  wait_for s = if s.ready then keeps s (reports is_ready) else keeps s waits

  -- Behind a wait.
  unfoldable pub wait_for_woken : CvStatus → RefState E → RefOutcome E
  unfolding wait_for
  wait_for_woken timeout s =
      if s.ready then keeps s (reports is_ready) else keeps s (reports timed_out)
  wait_for_woken no_timeout s = wait_for s

  unfoldable pub wait_until : RefState E → RefOutcome E
  wait_until s = if s.ready then keeps s (reports is_ready) else keeps s waits

  unfoldable pub wait_until_woken : CvStatus → RefState E → RefOutcome E
  unfolding wait_until
  wait_until_woken timeout s =
      if s.ready then keeps s (reports is_ready) else keeps s (reports timed_out)
  wait_until_woken no_timeout s = wait_until s

  unfoldable pub add_external_waiter : ℕ → RefState E → RefOutcome E
  add_external_waiter f s =
      if s.ready
      then record { state = s; verdict = done; notified = false; called = f ∷ [] }
      else keeps (record s { ext_waiters = s.ext_waiters ++ f ∷ [] }) done

  unfoldable pub reset : RefState E → RefState E
  reset s = record s { ready = false }
