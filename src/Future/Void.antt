-- ===== src/Future/Void.antt =====
-- `shared_state<void>`: a shared state that holds no value.
pub mod Agrees
pub mod Handles
pub mod Alike
pub mod Programs
use boost_green_thread.Base.{
  ℕ, Bool, true, false, Option, none, some, List, [], ◌∷◌, ◌++◌, if◌then◌else◌,
}
use boost_green_thread.Future.SharedState.{
  Exn, broken_promise, Verdict, done, rethrows, already_satisfied, reports, is_ready, timed_out,
  waits, CvStatus, no_timeout, timeout,
}

pub record VoidState {ℓ} (E : Type ℓ) : Type ℓ where
  pub ready : Bool
  pub except : Option (Exn E)
  pub ext_waiters : List ℕ

pub record VoidOutcome {ℓ} (E : Type ℓ) : Type ℓ where
  pub state : VoidState E
  pub verdict : Verdict (Unit {ℓ}) E
  pub notified : Bool
  pub called : List ℕ

module _ {ℓ} {E : Type ℓ} where
  abbrev pub keeps : VoidState E → Verdict (Unit {ℓ}) E → VoidOutcome E
  keeps s v = record { state = s; verdict = v; notified = false; called = [] }

  -- `shared_state()`
  abbrev pub fresh : VoidState E
  fresh = record { ready = false; except = none; ext_waiters = [] }

  unfoldable pub mark_ready_and_notify : VoidState E → VoidOutcome E
  mark_ready_and_notify s = record {
    state = record s { ready = true };
    verdict = done;
    notified = true;
    called = s.ext_waiters;
  }

  unfoldable pub set_value : VoidState E → VoidOutcome E
  unfolding mark_ready_and_notify
  set_value s = if s.ready then keeps s already_satisfied else mark_ready_and_notify s

  unfoldable pub set_exception : Exn E → VoidState E → VoidOutcome E
  unfolding mark_ready_and_notify
  set_exception e s =
      if s.ready
      then keeps s already_satisfied
      else mark_ready_and_notify (record s { except = some e })

  unfoldable pub owner_destroyed : VoidState E → VoidOutcome E
  unfolding set_exception
  owner_destroyed s = if s.ready then keeps s done else set_exception broken_promise s

  -- One turn of `wait_`, and what follows it; the next turn, behind the wait, is the same.
  unfoldable pub get : VoidState E → VoidOutcome E
  get s =
      if s.ready
      then keeps s (elim s.except [ some e ↦ rethrows e | none ↦ done ])
      else keeps s waits

  unfoldable pub wait : VoidState E → VoidOutcome E
  wait s = if s.ready then keeps s done else keeps s waits

  unfoldable pub wait_for : VoidState E → VoidOutcome E
  wait_for s = if s.ready then keeps s (reports is_ready) else keeps s waits

  -- Behind a wait.
  unfoldable pub wait_for_woken : CvStatus → VoidState E → VoidOutcome E
  unfolding wait_for
  wait_for_woken timeout s =
      if s.ready then keeps s (reports is_ready) else keeps s (reports timed_out)
  wait_for_woken no_timeout s = wait_for s

  unfoldable pub wait_until : VoidState E → VoidOutcome E
  wait_until s = if s.ready then keeps s (reports is_ready) else keeps s waits

  unfoldable pub wait_until_woken : CvStatus → VoidState E → VoidOutcome E
  unfolding wait_until
  wait_until_woken timeout s =
      if s.ready then keeps s (reports is_ready) else keeps s (reports timed_out)
  wait_until_woken no_timeout s = wait_until s

  unfoldable pub add_external_waiter : ℕ → VoidState E → VoidOutcome E
  add_external_waiter f s =
      if s.ready
      then record { state = s; verdict = done; notified = false; called = f ∷ [] }
      else keeps (record s { ext_waiters = s.ext_waiters ++ f ∷ [] }) done

  unfoldable pub reset : VoidState E → VoidState E
  reset s = record s { ready = false }
