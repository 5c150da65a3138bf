-- ===== src/Future/Promise.antt =====
-- `promise<R>` and `future<R>` over one shared state. A moved-from or empty promise has no state.
use boost_green_thread.Base.{Bool, true, false, if◌then◌else◌}
use boost_green_thread.Future.SharedState.{SharedState, Exn, Outcome, Verdict, fresh}
use boost_green_thread.Future.SharedState

-- `obtained_` and `future_` of the promise, `state_` of the one future, and what they point to.
pub record Channel {ℓ} (R E : Type ℓ) : Type ℓ where
  pub obtained : Bool
  pub attached : Bool
  pub valid : Bool
  pub shared : SharedState R E

pub data Result {ℓ} (R E : Type ℓ) : Type ℓ where
  future_already_retrieved : Result R E
  promise_uninitialized : Result R E
  future_uninitialized : Result R E
  returns : Result R E
  passes : Verdict R E → Result R E

module _ {ℓ} {R E : Type ℓ} where
  -- `promise()`
  abbrev pub make : Channel R E
  make = record { obtained = false; attached = true; valid = false; shared = fresh }

  abbrev through : Channel R E → Outcome R E → Channel R E × Result R E
  through c o = (record c { shared = o.state }, passes o.verdict)

  unfoldable pub get_future : Channel R E → Channel R E × Result R E
  get_future c =
      if c.obtained
      then (c, future_already_retrieved)
      else if c.attached
      then (record c { obtained = true; valid = true }, returns)
      else (c, promise_uninitialized)

  unfoldable pub set_value : R → Channel R E → Channel R E × Result R E
  unfolding SharedState.set_value
  set_value v c =
      if c.attached
      then through c (SharedState.set_value v c.shared)
      else (c, promise_uninitialized)

  unfoldable pub set_exception : Exn E → Channel R E → Channel R E × Result R E
  unfolding SharedState.set_exception
  set_exception e c =
      if c.attached
      then through c (SharedState.set_exception e c.shared)
      else (c, promise_uninitialized)

  -- `~promise()`
  unfoldable pub destroy : Channel R E → Channel R E
  unfolding SharedState.owner_destroyed
  destroy c =
      if c.attached
      then record c { attached = false; shared = (SharedState.owner_destroyed c.shared).state }
      else c

  -- `future::get`, which gives its pointer up before it waits.
  unfoldable pub get : Channel R E → Channel R E × Result R E
  unfolding SharedState.get
  get c =
      if c.valid
      then (record c { valid = false }, passes (SharedState.get c.shared).verdict)
      else (c, future_uninitialized)
