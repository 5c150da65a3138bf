-- ===== src/Future/Handles/Calls.antt =====
-- What a program sees of its promises and futures: the calls on the variables of a store one after
-- another, with the result of each.
use boost_green_thread.Base.{ℕ, Bool, true, false, Option, none, some, List, [], ◌∷◌}
use boost_green_thread.Future.SharedState.{SharedState, Exn, Verdict, CvStatus}
use boost_green_thread.Future.SharedState
use boost_green_thread.Future.Promise.{
  Result, future_already_retrieved, promise_uninitialized, future_uninitialized, returns, passes,
}
use boost_green_thread.Future.Waiting.Settle.{value, exception}
use boost_green_thread.Future.Handles.Heap.{
  Kind, Store, create, get_future, move_construct, move_assign, copy_construct, copy_assign, swap,
  destroy, provide,
}

-- A call on the variables `a` and `b`. `gets a b` is `future::get` of `a`, with the temporary `b` that
-- takes its pointer; the turns of `get` behind a wait are those of `shared_gets` on the temporary.
pub data Call {ℓ} (R E : Type ℓ) : Type ℓ where
  creates : (a : ℕ) → Call R E
  gets_future moves copies copy_assigns swaps shares gets : (a b : ℕ) → Call R E
  move_assigns : (k : Kind) (a b : ℕ) → Call R E
  destroys : (k : Kind) (a : ℕ) → Call R E
  sets_value : (a : ℕ) → R → Call R E
  sets_exception : (a : ℕ) → Exn E → Call R E
  tests shared_gets waits waits_for waits_until : (a : ℕ) → Call R E
  waits_for_woken waits_until_woken : CvStatus → (a : ℕ) → Call R E

-- What a call shows: how it ends, or whether a variable has a state.
pub data Seen {ℓ} (R E : Type ℓ) : Type ℓ where
  ends : Result R E → Seen R E
  is_valid : Bool → Seen R E

abbrev pub has_state : Option ℕ → Bool
has_state none = false
has_state (some _) = true

module _ {ℓ} {R E : Type ℓ} where
  -- `valid`, `operator safe_bool` and `operator!`
  unfoldable pub valid : ℕ → Store R E → Bool
  valid a s = has_state (s.state a)

  abbrev get_future_result : Bool → Option ℕ → Result R E
  get_future_result true p = future_already_retrieved
  get_future_result false none = promise_uninitialized
  get_future_result false (some p) = returns

  -- A call through the pointer of variable `a`, which throws where this is null.
  unfoldable pub through : Result R E → (SharedState R E → Verdict R E) → ℕ → Store R E → Result R E
  through otherwise f a s = elim (s.state a) [
    | none ↦ otherwise
    | some p ↦ passes (f (s.heap.shared p))
  ]

  -- `future::share`
  unfoldable pub share : ℕ → ℕ → Store R E → Store R E × Result R E
  unfolding move_construct
  share a b s = elim (s.state a) [
    | none ↦ (s, future_uninitialized)
    | some p ↦ (move_construct a b s, returns)
  ]

  -- `shared_future::get`
  unfoldable pub shared_get : ℕ → Store R E → Result R E
  unfolding through SharedState.get
  shared_get a s = through future_uninitialized (λ t. (SharedState.get t).verdict) a s

  -- `future::get`
  unfoldable pub get : ℕ → ℕ → Store R E → Store R E × Result R E
  unfolding move_construct shared_get
  get a b s = elim (s.state a) [
    | none ↦ (s, future_uninitialized)
    | some p ↦ (move_construct a b s, shared_get b (move_construct a b s))
  ]

  unfoldable pub wait : ℕ → Store R E → Result R E
  unfolding through SharedState.wait
  wait a s = through future_uninitialized (λ t. (SharedState.wait t).verdict) a s

  unfoldable pub wait_for : ℕ → Store R E → Result R E
  unfolding through SharedState.wait_for
  wait_for a s = through future_uninitialized (λ t. (SharedState.wait_for t).verdict) a s

  unfoldable pub wait_until : ℕ → Store R E → Result R E
  unfolding through SharedState.wait_until
  wait_until a s = through future_uninitialized (λ t. (SharedState.wait_until t).verdict) a s

  unfoldable pub step : Call R E → Store R E → Store R E × Seen R E
  unfolding create get_future move_construct move_assign copy_construct copy_assign swap destroy
      provide valid through share shared_get get wait wait_for wait_until SharedState.wait_for_woken
      SharedState.wait_until_woken SharedState.set_value SharedState.set_exception
  step (creates a) s = (create a s, ends returns)
  step (gets_future a b) s = (get_future a b s, ends (get_future_result (s.obtained a) (s.state a)))
  step (moves a b) s = (move_construct a b s, ends returns)
  step (copies a b) s = (copy_construct a b s, ends returns)
  step (copy_assigns a b) s = (copy_assign a b s, ends returns)
  step (swaps a b) s = (swap a b s, ends returns)
  step (shares a b) s = let r = share a b s in (r.0, ends r.1)
  step (gets a b) s = let r = get a b s in (r.0, ends r.1)
  step (move_assigns k a b) s = (move_assign k a b s, ends returns)
  step (destroys k a) s = (destroy k a s, ends returns)
  step (sets_value a v) s = (
    provide a (value v) s,
    ends (through promise_uninitialized (λ t. (SharedState.set_value v t).verdict) a s),
  )
  step (sets_exception a e) s = (
    provide a (exception e) s,
    ends (through promise_uninitialized (λ t. (SharedState.set_exception e t).verdict) a s),
  )
  step (tests a) s = (s, is_valid (valid a s))
  step (shared_gets a) s = (s, ends (shared_get a s))
  step (waits a) s = (s, ends (wait a s))
  step (waits_for a) s = (s, ends (wait_for a s))
  step (waits_until a) s = (s, ends (wait_until a s))
  step (waits_for_woken c a) s =
      (s, ends (through future_uninitialized (λ t. (SharedState.wait_for_woken c t).verdict) a s))
  step (waits_until_woken c a) s =
      (s, ends (through future_uninitialized (λ t. (SharedState.wait_until_woken c t).verdict) a s))

  unfoldable pub history : List (Call R E) → Store R E → List (Seen R E)
  history [] s = []
  history (c ∷ cs) s = let r = step c s in r.1 ∷ history cs r.0
