-- ===== src/Future/Void/Programs.antt =====
-- Programs over `promise<void>`, `future<void>` and `shared_future<void>` against the same programs over
-- the general classes, at a type of one value.
use boost_green_thread.Base.{
  ℕ, false, none, List, [], ◌∷◌, ◌≡◌, refl, arith, update, Bool-cases, inl, inr, ap, Option-cases,
}
use boost_green_thread.Future.SharedState.{SharedState, Verdict}
use boost_green_thread.Future.SharedState
use boost_green_thread.Future.Settled.{Op}
use boost_green_thread.Future.Handles.Program.{init}
use boost_green_thread.Future.Handles.Calls.{
  Call, creates, gets_future, moves, copies, copy_assigns, swaps, shares, gets, move_assigns,
  destroys, sets_value, sets_exception, tests, shared_gets, waits, waits_for, waits_until,
  waits_for_woken, waits_until_woken, Seen, step, history,
}
use boost_green_thread.Future.Void.Agrees
use boost_green_thread.Future.Void.Agrees.{Agree, step-Agree, as_void, calls}
use boost_green_thread.Future.Void.Handles.{VoidHeap, VoidStore}
use boost_green_thread.Future.Void.Handles
use boost_green_thread.Future.Void.Alike.{
  void_step, void_history, seen_void, general, Matches, Alike, update-Matches, fresh-Agree,
  verdicts, through-Alike, drop-Alike, copied-Alike,
}

module _ {ℓ} {E : Type ℓ} where
  step-Alike :
      (c : Call (Unit {ℓ}) E) (f : ℕ → SharedState (Unit {ℓ}) E) (s : VoidStore E)
      → Matches f s.heap.shared
      → Alike (step c (general f s)) (void_step c s)
  unfolding step void_step Agrees.step Agrees.void_step
  step-Alike (creates a) f s m =
      (update f s.heap.next SharedState.fresh, refl, update-Matches s.heap.next fresh-Agree m, refl)
  step-Alike (gets_future a b) f s m = elim (Bool-cases (s.obtained a)) [
    | inl e ↦ (f, rw e refl, rw e m, rw e refl)
    | inr e ↦ elim (Option-cases (s.state a)) [
      | inl q ↦ (f, rw (e, q) refl, rw (e, q) m, rw (e, q) refl)
      | inr (p, q) ↦ (f, rw (e, q) refl, rw (e, q) m, rw (e, q) refl)
    ]
  ]
  step-Alike (moves a b) f s m = (f, refl, m, refl)
  step-Alike (copies a b) f s m = (f, ground arith, ground (arith, m), refl)
  step-Alike (copy_assigns a b) f s m =
      let (e, m') = copied-Alike (s.state a) (s.state b) f s.heap m in
      (
        f,
        ap (λ h. record { heap = h; state = update s.state b (s.state a); obtained = s.obtained })
            e,
        m',
        refl,
      )
  step-Alike (swaps a b) f s m = (f, refl, m, refl)
  step-Alike (shares a b) f s m = (f, ground arith, ground (arith, m), ground arith)
  step-Alike (gets a b) f s m = elim (Option-cases (s.state a)) [
    | inl q ↦ (f, ground (arith, q), ground (arith, q, m), ground (arith, q))
    | inr (p, q) ↦
        (f, ground (arith, q), ground (arith, q, m), ground (arith, q, (verdicts Op.get (m p)).0))
  ]
  step-Alike (move_assigns k a b) f s m =
      let (f', e, m') = drop-Alike k (update s.state a none b) f s.heap m in
      (
        f',
        ap
            (λ h. record {
              heap = h;
              state = update (update s.state a none) b (s.state a);
              obtained = update (update s.obtained a false) b (s.obtained a);
            })
            e,
        m',
        refl,
      )
  step-Alike (destroys k a) f s m =
      let (f', e, m') = drop-Alike k (s.state a) f s.heap m in
      (
        f',
        ap
            (λ h. record {
              heap = h;
              state = update s.state a none;
              obtained = update s.obtained a false;
            })
            e,
        m',
        refl,
      )
  step-Alike (sets_value a v) f s m = elim (Option-cases (s.state a)) [
    | inl q ↦ (f, ground (arith, q), ground (arith, q, m), ground (arith, q))
    | inr (p, q) ↦
        let same = verdicts (Op.set_value v) (m p) in
        let set : (Handles.set_value a s).0.heap.shared
            ≡ update s.heap.shared p
                (Agrees.void_step (calls (Op.set_value v)) (s.heap.shared p)).state =
          ground (arith, q) in
        (
          update f p (SharedState.set_value v (f p)).state,
          ground (arith, q),
          rw set (update-Matches p same.1 m),
          ground (arith, q, same.0),
        )
  ]
  step-Alike (sets_exception a e) f s m = elim (Option-cases (s.state a)) [
    | inl q ↦ (f, ground (arith, q), ground (arith, q, m), ground (arith, q))
    | inr (p, q) ↦
        let same = verdicts (Op.set_exception e) (m p) in
        let set : (Handles.set_exception a e s).0.heap.shared
            ≡ update s.heap.shared p
                (Agrees.void_step (calls (Op.set_exception e)) (s.heap.shared p)).state =
          ground (arith, q) in
        (
          update f p (SharedState.set_exception e (f p)).state,
          ground (arith, q),
          rw set (update-Matches p same.1 m),
          ground (arith, q, same.0),
        )
  ]
  step-Alike (tests a) f s m = (f, refl, m, refl)
  step-Alike (shared_gets a) f s m = (f, refl, m, through-Alike Op.get a s m)
  step-Alike (waits a) f s m = (f, refl, m, through-Alike Op.wait a s m)
  step-Alike (waits_for a) f s m = (f, refl, m, through-Alike Op.wait_for a s m)
  step-Alike (waits_until a) f s m = (f, refl, m, through-Alike Op.wait_until a s m)
  step-Alike (waits_for_woken c a) f s m = (f, refl, m, through-Alike (Op.wait_for_woken c) a s m)
  step-Alike (waits_until_woken c a) f s m =
      (f, refl, m, through-Alike (Op.wait_until_woken c) a s m)

  abbrev pub seen : List (Seen (Unit {ℓ}) E) → List (Seen (Unit {ℓ}) E)
  seen [] = []
  seen (x ∷ xs) = seen_void x ∷ seen xs

  history-Alike :
      (cs : List (Call (Unit {ℓ}) E)) (f : ℕ → SharedState (Unit {ℓ}) E) (s : VoidStore E)
      → Matches f s.heap.shared
      → seen (history cs (general f s)) ≡ void_history cs s
  unfolding history void_history
  history-Alike [] f s m = refl
  history-Alike (c ∷ cs) f s m =
      let (f', e, m', same) = step-Alike c f s m in
      rw (e, same, history-Alike cs f' (void_step c s).0 m') refl

  -- Programs over `promise<void>`, `future<void>` and `shared_future<void>` and over the general classes
  -- at a type of one value cannot be told apart: whatever calls are made on whatever variables, moves,
  -- copies, assignments and destruction included, each call ends in the same way, with the same
  -- exception if it throws one, and `valid` answers the same.
  pub void_programs_agree :
      (cs : List (Call (Unit {ℓ}) E)) → seen (history cs init) ≡ void_history cs Handles.init
  void_programs_agree cs = history-Alike cs (λ _. SharedState.fresh) Handles.init (λ p. fresh-Agree)
