-- ===== src/Future/AtExit/Delivers.antt =====
-- What a thread leaves behind for its exit is set then.
use boost_green_thread.Base.{
  ℕ, Bool, true, false, none, some, List, [], ◌∷◌, ◌≡◌, ◌≢◌, ◌⊎◌, inl, inr, refl, arith, Bool-cases,
}
use boost_green_thread.Future.SharedState.{SharedState, Exn, Verdict, gives, rethrows}
use boost_green_thread.Future.SharedState
use boost_green_thread.Future.AtExit
use boost_green_thread.Future.AtExit.{
  Cleanup, value, moved_value, exception, call, System, Ended, finished, std_terminate,
  null_pointer, perform, run_cleanups, exit, Act, sets_value_at_exit, sets_moved_value_at_exit,
  sets_exception_at_exit, calls_at_exit, sets_value, sets_exception, destroys, act, run,
}
use boost_green_thread.Future.AtExit.Left.{
  nobody, is_for, any_for, outcome, promised, readies, can_run, settable, init-Inv, left, run-queue,
  Inv,
}

module _ {R E : Type 0} where
  perform-Inv : (f : Cleanup R E) (s : System R E) → Inv s → Inv (perform f s).0
  unfolding perform
  perform-Inv (value none v) s w = w
  perform-Inv (value (some i) v) s w = record { clear = λ j q. ground (arith, w.clear j) }
  perform-Inv (moved_value none v) s w = w
  perform-Inv (moved_value (some i) v) s w = record { clear = λ j q. ground (arith, w.clear j) }
  perform-Inv (exception none e) s w = w
  perform-Inv (exception (some i) e) s w = record { clear = λ j q. ground (arith, w.clear j) }
  perform-Inv (call f) s w = record { clear = w.clear }

  -- One clean-up function: it ends well exactly if it can set its state, and changes only that.
  perform_one :
      (f : Cleanup R E) (fs : List (Cleanup R E)) (s : System R E) (i : ℕ)
      → Inv s
      → can_run f fs (readies s) ≡ true
      → ((perform f s).1 ≡ finished)
        × ((perform f s).0.objects ≡ s.objects)
        × (((is_for i f ≡ false) × ((perform f s).0.channel i ≡ s.channel i))
            ⊎ ((is_for i f ≡ true)
                × (any_for i fs ≡ false)
                × (some (SharedState.get ((perform f s).0.channel i).shared).verdict ≡ outcome f)))
  unfolding perform SharedState.get
  perform_one (value none v) fs s i w q = ground arith
  perform_one (value (some j) v) fs s i w q = ground (arith, w.clear j)
  perform_one (moved_value none v) fs s i w q = ground arith
  perform_one (moved_value (some j) v) fs s i w q = ground (arith, w.clear j)
  perform_one (exception none e) fs s i w q = ground arith
  perform_one (exception (some j) e) fs s i w q = ground (arith, w.clear j)
  perform_one (call f) fs s i w q = ground arith

  -- Whether all can be set is a matter of their own states.
  settable-cong :
      (fs : List (Cleanup R E)) (r t : ℕ → Bool)
      → ((i : ℕ) → any_for i fs ≡ true → r i ≡ t i)
      → settable fs r ≡ settable fs t
  settable-cong [] r t h = refl
  settable-cong (value none v ∷ fs) r t h =
      ground (arith, settable-cong fs r t (λ j q. h j (ground (arith, q))))
  settable-cong (value (some i) v ∷ fs) r t h =
      ground (arith, settable-cong fs r t (λ j q. h j (ground (arith, q))), h i)
  settable-cong (moved_value none v ∷ fs) r t h =
      ground (arith, settable-cong fs r t (λ j q. h j (ground (arith, q))))
  settable-cong (moved_value (some i) v ∷ fs) r t h =
      ground (arith, settable-cong fs r t (λ j q. h j (ground (arith, q))), h i)
  settable-cong (exception none e ∷ fs) r t h =
      ground (arith, settable-cong fs r t (λ j q. h j (ground (arith, q))))
  settable-cong (exception (some i) e ∷ fs) r t h =
      ground (arith, settable-cong fs r t (λ j q. h j (ground (arith, q))), h i)
  settable-cong (call f ∷ fs) r t h =
      ground (arith, settable-cong fs r t (λ j q. h j (ground (arith, q))))

  settable_next :
      (f : Cleanup R E) (fs : List (Cleanup R E)) (s : System R E)
      → Inv s
      → can_run f fs (readies s) ≡ true
      → settable fs (readies (perform f s).0) ≡ settable fs (readies s)
  settable_next f fs s w q =
      settable-cong fs (readies (perform f s).0) (readies s)
        (λ i a. ground (arith, a, perform_one f fs s i w q))

  run-exact :
      (fs : List (Cleanup R E)) (s : System R E) (i : ℕ)
      → Inv s
      → settable fs (readies s) ≡ true
      → ((run_cleanups fs s).1 ≡ finished)
        × ((run_cleanups fs s).0.objects ≡ s.objects)
        × (((any_for i fs ≡ false) × ((run_cleanups fs s).0.channel i ≡ s.channel i))
            ⊎ ((any_for i fs ≡ true)
                × (some (SharedState.get ((run_cleanups fs s).0.channel i).shared).verdict
                    ≡ promised i fs)))
  unfolding run_cleanups SharedState.get
  run-exact [] s i w q = ground arith
  run-exact (f ∷ fs) s i w q =
      let can : can_run f fs (readies s) ≡ true = ground (arith, q) in
      let rest : settable fs (readies s) ≡ true = ground (arith, q, can) in
      let one = perform_one f fs s i w can in
      let next =
        run-exact fs (perform f s).0 i (perform-Inv f s w) (rw (settable_next f fs s w can) rest) in
      ground (arith, one, next)

  -- A state that is ready cannot be set.
  pub settable_ready :
      (fs : List (Cleanup R E)) (r : ℕ → Bool) (i : ℕ)
      → any_for i fs ≡ true
      → r i ≡ true
      → settable fs r ≡ false
  settable_ready [] r i a q = ground (arith, a)
  settable_ready (value none v ∷ fs) r i a q = ground arith
  settable_ready (value (some j) v ∷ fs) r i a q = ground (arith, settable_ready fs r i)
  settable_ready (moved_value none v ∷ fs) r i a q = ground arith
  settable_ready (moved_value (some j) v ∷ fs) r i a q = ground (arith, settable_ready fs r i)
  settable_ready (exception none e ∷ fs) r i a q = ground arith
  settable_ready (exception (some j) e ∷ fs) r i a q = ground (arith, settable_ready fs r i)
  settable_ready (call f ∷ fs) r i a q = ground (arith, settable_ready fs r i)

  -- One that cannot run goes wrong itself, or leaves another one that cannot.
  perform-stops :
      (f : Cleanup R E) (fs : List (Cleanup R E)) (s : System R E)
      → can_run f fs (readies s) ≡ false
      → ((perform f s).1 ≢ finished) ⊎ (settable fs (readies (perform f s).0) ≡ false)
  unfolding perform
  perform-stops (value none v) fs s q = inl (ground arith)
  perform-stops (value (some j) v) fs s q =
      ground (arith, settable_ready fs (readies (perform (value (some j) v) s).0) j)
  perform-stops (moved_value none v) fs s q = inl (ground arith)
  perform-stops (moved_value (some j) v) fs s q =
      ground (arith, settable_ready fs (readies (perform (moved_value (some j) v) s).0) j)
  perform-stops (exception none e) fs s q = inl (ground arith)
  perform-stops (exception (some j) e) fs s q =
      ground (arith, settable_ready fs (readies (perform (exception (some j) e) s).0) j)
  perform-stops (call f) fs s q = ground (arith, q)

  pub run-stops :
      (fs : List (Cleanup R E)) (s : System R E)
      → Inv s
      → settable fs (readies s) ≡ false
      → (run_cleanups fs s).1 ≢ finished
  unfolding run_cleanups
  run-stops [] s w q = ground (arith, q)
  run-stops (f ∷ fs) s w q = elim (Bool-cases (can_run f fs (readies s))) [
    | inl can ↦
        let rest : settable fs (readies s) ≡ false = ground (arith, q, can) in
        ground (
          arith,
          run-stops fs (perform f s).0 (perform-Inv f s w) (rw (settable_next f fs s w can) rest),
        )
    | inr cannot ↦
        ground
          (arith, perform-stops f fs s cannot, run-stops fs (perform f s).0 (perform-Inv f s w))
  ]

  -- What a thread sets at its exit: after any sequence of calls on new promises, the exit ends as it
  -- should exactly if each state that it is to set exists, is not ready, and is to be set once. Then
  -- every future that was promised a value or an exception gives it, no other state has changed, and no
  -- object that holds a value has been freed. Otherwise the process terminates, or a null pointer is
  -- used.
  pub exit_delivers :
      (acts : List (Act R E)) (i : ℕ)
      → let s = run acts AtExit.init in
        let fs = left acts nobody in
        ((settable fs (readies s) ≡ true)
          × ((exit s).1 ≡ finished)
          × ((exit s).0.objects ≡ s.objects)
          × (((any_for i fs ≡ false) × ((exit s).0.channel i ≡ s.channel i))
              ⊎ ((any_for i fs ≡ true)
                  × (some (SharedState.get ((exit s).0.channel i).shared).verdict
                      ≡ promised i fs))))
        ⊎ ((settable fs (readies s) ≡ false) × ((exit s).1 ≢ finished))
  unfolding exit
  exit_delivers acts i =
      let s = run acts AtExit.init in
      let fs = left acts nobody in
      let queue : s.cleanup_queue ≡ fs = run-queue acts nobody AtExit.init (λ j. refl) in
      let t = record s { cleanup_queue = [] } in
      let w : Inv t = record { clear = (init-Inv acts).clear } in
      rw queue (elim (Bool-cases (settable fs (readies s))) [
        | inl q ↦ let (a, b, c) = run-exact fs t i w q in inl (q, a, b, c)
        | inr q ↦ inr (q, run-stops fs t w q)
      ])
