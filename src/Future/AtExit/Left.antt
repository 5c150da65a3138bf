-- ===== src/Future/AtExit/Left.antt =====
-- What the acts of a thread leave for its exit, and when that can be done.
use boost_green_thread.Base.{
  ℕ, Bool, true, false, Option, none, some, List, [], ◌∷◌, ◌≡◌, refl, arith, ◌==◌, if◌then◌else◌,
  append-nil, update, append_assoc, sym, ◌++◌,
}
use boost_green_thread.Future.SharedState.{Verdict, gives, rethrows}
use boost_green_thread.Future.AtExit
use boost_green_thread.Future.AtExit.{
  Cleanup, value, moved_value, exception, call, System, Ended, finished, std_terminate,
  null_pointer, perform, run_cleanups, exit, Act, sets_value_at_exit, sets_moved_value_at_exit,
  sets_exception_at_exit, calls_at_exit, sets_value, sets_exception, destroys, act, run,
}

abbrev pub is_some : Option ℕ → ℕ → Bool
is_some none i = false
is_some (some j) i = j == i

abbrev pub pointer : (ℕ → Bool) → ℕ → Option ℕ
pointer gone i = if gone i then none else some i

abbrev pub nobody : ℕ → Bool
nobody _ = false

module _ {R E : Type 0} where
  -- The clean-up function is for promise `i`.
  abbrev pub is_for : ℕ → Cleanup R E → Bool
  is_for i (value t v) = is_some t i
  is_for i (moved_value t v) = is_some t i
  is_for i (exception t e) = is_some t i
  is_for i (call f) = false

  abbrev pub any_for : ℕ → List (Cleanup R E) → Bool
  any_for i [] = false
  any_for i (f ∷ fs) = if is_for i f then true else any_for i fs

  abbrev pub outcome : Cleanup R E → Option (Verdict R E)
  outcome (value t v) = some (gives v)
  outcome (moved_value t v) = some (gives v)
  outcome (exception t e) = some (rethrows e)
  outcome (call f) = none

  -- What the future of promise `i` is to give, by the first clean-up function for it
  abbrev pub promised : ℕ → List (Cleanup R E) → Option (Verdict R E)
  promised i [] = none
  promised i (f ∷ fs) = if is_for i f then outcome f else promised i fs

  abbrev pub readies : System R E → ℕ → Bool
  readies s i = (s.channel i).shared.ready

  abbrev pub can_set : Option ℕ → List (Cleanup R E) → (ℕ → Bool) → Bool
  can_set none fs ready = false
  can_set (some i) fs ready = if ready i then false else if any_for i fs then false else true

  abbrev pub can_run : Cleanup R E → List (Cleanup R E) → (ℕ → Bool) → Bool
  can_run (value t v) fs ready = can_set t fs ready
  can_run (moved_value t v) fs ready = can_set t fs ready
  can_run (exception t e) fs ready = can_set t fs ready
  can_run (call f) fs ready = true

  -- Each clean-up function that sets a state has one that is not ready, and no other is for the same.
  abbrev pub settable : List (Cleanup R E) → (ℕ → Bool) → Bool
  settable [] ready = true
  settable (f ∷ fs) ready = if can_run f fs ready then settable fs ready else false

  -- A state that is not ready holds no exception.
  pub record Inv (s : System R E) : Type 0 where
    pub clear : (i : ℕ) → (s.channel i).shared.ready ≡ false → (s.channel i).shared.except ≡ none

  pub act-Inv : (a : Act R E) (s : System R E) → Inv s → Inv (act a s)
  unfolding act
  act-Inv (sets_value_at_exit g i v) s w = record { clear = λ j q. ground (arith, w.clear j) }
  act-Inv (sets_moved_value_at_exit g i v) s w = record { clear = λ j q. ground (arith, w.clear j) }
  act-Inv (sets_exception_at_exit g i e) s w = record { clear = λ j q. ground (arith, w.clear j) }
  act-Inv (calls_at_exit g f) s w = record { clear = λ j q. ground (arith, w.clear j) }
  act-Inv (sets_value i v) s w = record { clear = λ j q. ground (arith, w.clear j) }
  act-Inv (sets_exception i e) s w = record { clear = λ j q. ground (arith, w.clear j) }
  act-Inv (destroys i) s w = record { clear = λ j q. ground (arith, w.clear j) }

  pub run-Inv : (acts : List (Act R E)) (s : System R E) → Inv s → Inv (run acts s)
  unfolding run
  run-Inv [] s w = w
  run-Inv (a ∷ acts) s w = run-Inv acts (act a s) (act-Inv a s w)

  pub init-Inv : (acts : List (Act R E)) → Inv (run acts AtExit.init)
  init-Inv acts = run-Inv acts AtExit.init (record { clear = λ i q. refl })

  abbrev pub kept : Bool → Cleanup R E → List (Cleanup R E) → List (Cleanup R E)
  kept green f fs = if green then f ∷ fs else fs

  -- What acts leave for the exit, in their order, when the promises `gone` have been destroyed. Calls
  -- outside a green thread leave nothing.
  abbrev pub left : List (Act R E) → (ℕ → Bool) → List (Cleanup R E)
  left [] gone = []
  left (sets_value_at_exit g i v ∷ acts) gone = kept g (value (pointer gone i) v) (left acts gone)
  left (sets_moved_value_at_exit g i v ∷ acts) gone =
      kept g (moved_value (pointer gone i) v) (left acts gone)
  left (sets_exception_at_exit g i e ∷ acts) gone =
      kept g (exception (pointer gone i) e) (left acts gone)
  left (calls_at_exit g f ∷ acts) gone = kept g (call f) (left acts gone)
  left (sets_value i v ∷ acts) gone = left acts gone
  left (sets_exception i e ∷ acts) gone = left acts gone
  left (destroys i ∷ acts) gone = left acts (update gone i true)

  abbrev pub Gone : (ℕ → Bool) → System R E → Type 0
  Gone gone s = (i : ℕ) → (s.channel i).attached ≡ (if gone i then false else true)

  pub queue-kept :
      (g : Bool) (q : List (Cleanup R E)) (f : Cleanup R E) (fs : List (Cleanup R E))
      → (if g then q ++ f ∷ [] else q) ++ fs ≡ q ++ kept g f fs
  queue-kept true q f fs = append_assoc q (f ∷ []) fs
  queue-kept false q f fs = refl

  pub run-queue :
      (acts : List (Act R E)) (gone : ℕ → Bool) (s : System R E)
      → Gone gone s
      → (run acts s).cleanup_queue ≡ s.cleanup_queue ++ left acts gone
  unfolding run act
  run-queue [] gone s w = sym (append-nil s.cleanup_queue)
  run-queue (sets_value_at_exit g i v ∷ acts) gone s w = ground (
    arith,
    run-queue acts gone (act (sets_value_at_exit g i v) s) (λ j. ground (arith, w j)),
    w i,
    queue-kept g s.cleanup_queue (value (pointer gone i) v) (left acts gone),
  )
  run-queue (sets_moved_value_at_exit g i v ∷ acts) gone s w = ground (
    arith,
    run-queue acts gone (act (sets_moved_value_at_exit g i v) s) (λ j. ground (arith, w j)),
    w i,
    queue-kept g s.cleanup_queue (moved_value (pointer gone i) v) (left acts gone),
  )
  run-queue (sets_exception_at_exit g i e ∷ acts) gone s w = ground (
    arith,
    run-queue acts gone (act (sets_exception_at_exit g i e) s) (λ j. ground (arith, w j)),
    w i,
    queue-kept g s.cleanup_queue (exception (pointer gone i) e) (left acts gone),
  )
  run-queue (calls_at_exit g f ∷ acts) gone s w = ground (
    arith,
    run-queue acts gone (act (calls_at_exit g f) s) (λ j. ground (arith, w j)),
    queue-kept g s.cleanup_queue (call f) (left acts gone),
  )
  run-queue (sets_value i v ∷ acts) gone s w =
      ground (arith, run-queue acts gone (act (sets_value i v) s) (λ j. ground (arith, w j)))
  run-queue (sets_exception i e ∷ acts) gone s w =
      ground (arith, run-queue acts gone (act (sets_exception i e) s) (λ j. ground (arith, w j)))
  run-queue (destroys i ∷ acts) gone s w =
      ground
        (arith, run-queue acts (update gone i true) (act (destroys i) s) (λ j. ground (arith, w j)))
