-- ===== src/Future/Task.antt =====
-- `packaged_task` and `task_object` over a shared state. A task function with its arguments is
-- known by how it ends.
use boost_green_thread.Base.{
  Bool, true, false, none, if◌then◌else◌, ◌≡◌, arith, ◌⊎◌, inl, inr, refl,
}
use boost_green_thread.Future.SharedState.{
  SharedState, Exn, thrown, Outcome, Verdict, done, gives, rethrows, fresh,
}
use boost_green_thread.Future.SharedState

-- `obtained_`, whether `task_` is not null, and the shared state in the task.
pub record Task {ℓ} (R E : Type ℓ) : Type ℓ where
  pub obtained : Bool
  pub attached : Bool
  pub shared : SharedState R E

pub data Ending {ℓ} (R E : Type ℓ) : Type ℓ where
  returned : R → Ending R E
  threw : E → Ending R E

pub Ending-cases {ℓ} :
    {R E : Type ℓ} (a : Ending R E) → ((v : R) × (a ≡ returned v)) ⊎ ((e : E) × (a ≡ threw e))
Ending-cases (returned v) = inl (v, refl)
Ending-cases (threw e) = inr (e, refl)

pub data Result {ℓ} (R E : Type ℓ) : Type ℓ where
  future_already_retrieved : Result R E
  packaged_task_uninitialized : Result R E
  returns : Result R E
  passes : Verdict R E → Result R E

module _ {ℓ} {R E : Type ℓ} where
  -- `packaged_task(fn)`
  abbrev pub make : Task R E
  make = record { obtained = false; attached = true; shared = fresh }

  -- `task_object::run`. When `set_value` throws, the state is ready; the handler's `set_exception`
  -- then throws the same out of `run`.
  unfoldable pub run : Ending R E → SharedState R E → Outcome R E
  unfolding SharedState.set_value SharedState.set_exception
  run (returned v) s = SharedState.set_value v s
  run (threw e) s = SharedState.set_exception (thrown e) s

  -- The future that is returned points to the task's shared state.
  unfoldable pub get_future : Task R E → Task R E × Result R E
  get_future t =
      if t.obtained
      then (t, future_already_retrieved)
      else if t.attached
      then (record t { obtained = true }, returns)
      else (t, packaged_task_uninitialized)

  -- `operator()`
  unfoldable pub call : Ending R E → Task R E → Task R E × Result R E
  unfolding run
  call a t =
      if t.attached
      then (record t { shared = (run a t.shared).state }, passes (run a t.shared).verdict)
      else (t, packaged_task_uninitialized)

  unfoldable pub reset : Task R E → Task R E × Result R E
  unfolding SharedState.reset
  reset t =
      if t.attached
      then (record t { obtained = false; shared = SharedState.reset t.shared }, returns)
      else (t, packaged_task_uninitialized)

  -- `~packaged_task()`: the shared state that the futures are left with.
  unfoldable pub destroy : Task R E → SharedState R E
  unfolding SharedState.owner_destroyed
  destroy t = if t.attached then (SharedState.owner_destroyed t.shared).state else t.shared

  -- What a future gives for a second run that returns `v`.
  abbrev pub second_result : Ending R E → R → Verdict R E
  second_result (returned _) v = gives v
  second_result (threw e) v = rethrows (thrown e)

  -- A task that has run once, is reset and runs again and returns: each call is accepted, and a new
  -- future can be taken, whose `get` gives the second value if the first run returned too. If the
  -- first run threw, `reset` has left its exception behind, and `get` rethrows it.
  pub reset_keeps_exception :
      (t : Task R E) (a : Ending R E) (v : R)
      → t.attached ≡ true
      → t.shared.ready ≡ false
      → t.shared.except ≡ none
      → let once = (call a t).0 in
        let again = (reset once).0 in
        let twice = (call (returned v) again).0 in
        ((call a t).1 ≡ passes done)
        × ((call (returned v) again).1 ≡ passes done)
        × ((get_future twice).1 ≡ returns)
        × ((SharedState.get twice.shared).verdict ≡ second_result a v)
  unfolding call reset get_future SharedState.get
  reset_keeps_exception t (returned u) v p q n = ground arith
  reset_keeps_exception t (threw e) v p q n = ground arith
