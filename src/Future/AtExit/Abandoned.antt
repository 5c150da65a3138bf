-- ===== src/Future/AtExit/Abandoned.antt =====
-- A promise that ends before the thread that was to set its value at its exit.
use boost_green_thread.Base.{refl, ℕ, true, false, some, List, [], ◌∷◌, ◌++◌, ◌≡◌, ◌≢◌, arith}
use boost_green_thread.Future.SharedState.{broken_promise, rethrows}
use boost_green_thread.Future.SharedState
use boost_green_thread.Future.AtExit.{
  Cleanup, value, System, finished, exit, Act, sets_value_at_exit, destroys, act, run,
}
use boost_green_thread.Future.AtExit
use boost_green_thread.Future.AtExit.Left.{any_for, readies, Inv, init-Inv}
use boost_green_thread.Future.AtExit.Delivers.{settable_ready, run-stops}

module _ {R E : Type 0} where
  any_for-last :
      (fs : List (Cleanup R E)) (i : ℕ) (v : R) → any_for i (fs ++ value (some i) v ∷ []) ≡ true
  any_for-last [] i v = ground arith
  any_for-last (f ∷ fs) i v = ground (arith, any_for-last fs i v)

  run-append :
      (acts more : List (Act R E)) (s : System R E) → run (acts ++ more) s ≡ run more (run acts s)
  unfolding run
  run-append [] more s = refl
  run-append (a ∷ acts) more s = run-append acts more (act a s)

  -- A promise that a thread destroys before it ends, after `set_value_at_thread_exit` and before any
  -- value, as a local variable of the thread is: its future gives `broken_promise`, and the clean-up at
  -- the exit does not end as it should, since setting the value then throws.
  pub destroyed_early :
      (acts : List (Act R E)) (i : ℕ) (v : R)
      → ((run acts AtExit.init).channel i).attached ≡ true
      → ((run acts AtExit.init).channel i).shared.ready ≡ false
      → let t = run (acts ++ sets_value_at_exit true i v ∷ destroys i ∷ []) AtExit.init in
        ((SharedState.get (t.channel i).shared).verdict ≡ rethrows broken_promise)
        × ((exit t).1 ≢ finished)
  unfolding run act exit SharedState.get
  destroyed_early acts i v a q =
      let s = run acts AtExit.init in
      let t = act (destroys i) (act (sets_value_at_exit true i v) s) in
      let set : any_for i t.cleanup_queue ≡ true =
        ground (arith, a, any_for-last s.cleanup_queue i v) in
      let ready : (t.channel i).shared.ready ≡ true = ground (arith, a, q) in
      let u = record t { cleanup_queue = [] } in
      let w : Inv u = record { clear = λ j r. ground (arith, (init-Inv acts).clear j, a, q) } in
      rw (run-append acts (sets_value_at_exit true i v ∷ destroys i ∷ []) AtExit.init) (
        ground (arith, a, q),
        run-stops t.cleanup_queue u w (settable_ready t.cleanup_queue (readies t) i set ready),
      )
