-- ===== src/Future/Settled.antt =====
-- A shared state is settled once, keeps its result, and calls each external waiter once.
use boost_green_thread.Base.{
  ℕ, true, false, none, List, [], ◌∷◌, ◌++◌, append-nil, append_assoc, ◌≡◌, refl, ◌⊎◌, inr, arith,
}
use boost_green_thread.Future.SharedState
use boost_green_thread.Future.SharedState.{
  SharedState, Exn, broken_promise, thrown, Outcome, Verdict, CvStatus, done, gives, rethrows,
  already_satisfied, waits, fresh,
}
use boost_green_thread.Future.Promise

pub data Op {ℓ} (R E : Type ℓ) : Type ℓ where
  set_value : R → Op R E
  set_exception : Exn E → Op R E
  owner_destroyed get wait wait_for wait_until : Op R E
  wait_for_woken wait_until_woken : CvStatus → Op R E
  add_external_waiter : ℕ → Op R E

module _ {ℓ} {R E : Type ℓ} where
  unfoldable pub apply : Op R E → SharedState R E → Outcome R E
  unfolding SharedState.set_value SharedState.set_exception SharedState.owner_destroyed
      SharedState.get SharedState.wait SharedState.wait_for SharedState.wait_for_woken
      SharedState.wait_until SharedState.wait_until_woken SharedState.add_external_waiter
  apply (Op.set_value v) s = SharedState.set_value v s
  apply (Op.set_exception e) s = SharedState.set_exception e s
  apply Op.owner_destroyed s = SharedState.owner_destroyed s
  apply Op.get s = SharedState.get s
  apply Op.wait s = SharedState.wait s
  apply Op.wait_for s = SharedState.wait_for s
  apply (Op.wait_for_woken c) s = SharedState.wait_for_woken c s
  apply Op.wait_until s = SharedState.wait_until s
  apply (Op.wait_until_woken c) s = SharedState.wait_until_woken c s
  apply (Op.add_external_waiter f) s = SharedState.add_external_waiter f s

  unfoldable pub run : List (Op R E) → SharedState R E → SharedState R E
  run [] s = s
  run (op ∷ ops) s = run ops (apply op s).state

  -- The external waiters that run, and those that are added, in the order of the calls.
  unfoldable pub calls : List (Op R E) → SharedState R E → List ℕ
  calls [] s = []
  calls (op ∷ ops) s = (apply op s).called ++ calls ops (apply op s).state

  abbrev pub adds : Op R E → List ℕ
  adds (Op.add_external_waiter f) = f ∷ []
  adds _ = []

  abbrev pub added : List (Op R E) → List ℕ
  added [] = []
  added (op ∷ ops) = adds op ++ added ops

  apply_ready :
      (op : Op R E) (s : SharedState R E)
      → s.ready ≡ true
      → ((apply op s).state ≡ s) × ((apply op s).called ≡ adds op)
  unfolding apply
  apply_ready (Op.set_value v) s e = ground arith
  apply_ready op s e = ground arith

  -- Once it is ready, no sequence of calls changes a shared state: the second `set_value` or
  -- `set_exception` is refused, and `get` gives the same result or exception again and again.
  pub settled_once :
      (ops : List (Op R E)) (s : SharedState R E) (v : R)
      → s.ready ≡ true
      → (run ops s ≡ s)
        × ((SharedState.set_value v (run ops s)).verdict ≡ already_satisfied)
        × ((SharedState.get (run ops s)).verdict ≡ (SharedState.get s).verdict)
  unfolding run SharedState.set_value
  settled_once [] s v e = ground arith
  settled_once (op ∷ ops) s v e =
      ground (arith, apply_ready op s e, settled_once ops (apply op s).state v)

  -- While nothing has been stored, `get` waits; what is stored first, a value, an exception, or
  -- `broken_promise` by the owner's end, is what `get` then gives or rethrows.
  pub first_result_given :
      (s : SharedState R E) (v : R) (e : Exn E)
      → s.ready ≡ false
      → s.value ≡ none
      → s.except ≡ none
      → ((SharedState.get s).verdict ≡ waits)
        × ((SharedState.get (SharedState.set_value v s).state).verdict ≡ gives v)
        × ((SharedState.get (SharedState.set_exception e s).state).verdict ≡ rethrows e)
        × ((SharedState.get (SharedState.owner_destroyed s).state).verdict
            ≡ rethrows broken_promise)
  unfolding SharedState.set_value SharedState.set_exception SharedState.owner_destroyed
      SharedState.get
  first_result_given s v e p q r = ground arith

  -- How far the waiters are: `before` have been added to `s` and `ran` of them have run.
  abbrev Progress : SharedState R E → List ℕ → List ℕ → Type 0
  Progress s before ran =
      ((s.ready ≡ true) × (ran ≡ before))
      ⊎ ((s.ready ≡ false) × (ran ≡ []) × (s.ext_waiters ≡ before))

  apply-Progress :
      (op : Op R E) (s : SharedState R E) (before ran : List ℕ)
      → Progress s before ran
      → Progress (apply op s).state (before ++ adds op) (ran ++ (apply op s).called)
  unfolding apply
  apply-Progress (Op.set_value v) s before ran p = ground (arith, append-nil before, append-nil ran)
  apply-Progress op s before ran p = ground (arith, append-nil before, append-nil ran)

  Progress-run :
      (ops : List (Op R E)) (s : SharedState R E) (before ran : List ℕ)
      → Progress s before ran
      → Progress (run ops s) (before ++ added ops) (ran ++ calls ops s)
  unfolding run calls
  Progress-run [] s before ran p = ground (arith, append-nil before, append-nil ran)
  Progress-run (op ∷ ops) s before ran p =
      rw
        (
          ← append_assoc before (adds op) (added ops),
          ← append_assoc ran (apply op s).called (calls ops (apply op s).state),
        )
        (Progress-run ops (apply op s).state (before ++ adds op) (ran ++ (apply op s).called)
          (apply-Progress op s before ran p))

  -- Over any sequence of calls on a new shared state, each external waiter runs exactly once, in the
  -- order in which they were added, as soon as the state is ready, and none runs before.
  pub waiters_run_once :
      (ops : List (Op R E))
      → let s = run ops fresh in
        ((s.ready ≡ true) × (calls ops fresh ≡ added ops))
        ⊎ ((s.ready ≡ false) × (calls ops fresh ≡ []) × (s.ext_waiters ≡ added ops))
  waiters_run_once ops = Progress-run ops fresh [] [] (inr (refl, refl, refl))

  -- A promise that ends without a result breaks the future: `get` on the future that was taken from
  -- it rethrows `broken_promise`, once; a second `get_future` or `get` throws.
  pub broken_promise_reported :
      (c : Promise.Channel R E)
      → c.attached ≡ true
      → c.obtained ≡ false
      → c.shared.ready ≡ false
      → let taken = (Promise.get_future c).0 in
        let ended = Promise.destroy taken in
        ((Promise.get ended).1 ≡ Promise.passes (rethrows broken_promise))
        × ((Promise.get (Promise.get ended).0).1 ≡ Promise.future_uninitialized)
        × ((Promise.get_future taken).1 ≡ Promise.future_already_retrieved)
  unfolding Promise.get_future Promise.destroy Promise.get
  broken_promise_reported c a o r = ground arith
