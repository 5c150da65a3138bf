-- ===== src/Future/Ref/Agrees.antt =====
-- `shared_state<R &>` against `shared_state<R *>`.
use boost_green_thread.Base.{ℕ, Bool, true, none, List, [], ◌∷◌, ◌≡◌, ◌≢◌, refl, arith}
use boost_green_thread.Future.SharedState.{SharedState, Outcome, Verdict, done, empty_value, keeps}
use boost_green_thread.Future.SharedState
use boost_green_thread.Future.Settled.{Op, apply}
use boost_green_thread.Future.Ref.{RefState, RefOutcome}
use boost_green_thread.Future.Ref

-- A call of either: one that the promise or a future makes, or `reset`.
pub data Call (E : Type 0) : Type 0 where
  calls : Op ℕ E → Call E
  resets : Call E

-- What a call shows: its verdict, whether it notifies, and the external waiters that run.
pub record Seen (E : Type 0) : Type 0 where
  pub verdict : Verdict ℕ E
  pub notified : Bool
  pub called : List ℕ

module _ {E : Type 0} where
  unfoldable pub step : Call E → SharedState ℕ E → Outcome ℕ E
  unfolding apply SharedState.reset
  step (calls op) s = apply op s
  step resets s = keeps (SharedState.reset s) done

  unfoldable pub ref_step : Call E → RefState E → RefOutcome E
  unfolding Ref.set_value Ref.set_exception Ref.owner_destroyed Ref.get Ref.wait Ref.wait_for
      Ref.wait_for_woken Ref.wait_until Ref.wait_until_woken Ref.add_external_waiter Ref.reset
  ref_step (calls (Op.set_value v)) s = Ref.set_value v s
  ref_step (calls (Op.set_exception e)) s = Ref.set_exception e s
  ref_step (calls Op.owner_destroyed) s = Ref.owner_destroyed s
  ref_step (calls Op.get) s = Ref.get s
  ref_step (calls Op.wait) s = Ref.wait s
  ref_step (calls Op.wait_for) s = Ref.wait_for s
  ref_step (calls (Op.wait_for_woken c)) s = Ref.wait_for_woken c s
  ref_step (calls Op.wait_until) s = Ref.wait_until s
  ref_step (calls (Op.wait_until_woken c)) s = Ref.wait_until_woken c s
  ref_step (calls (Op.add_external_waiter f)) s = Ref.add_external_waiter f s
  ref_step resets s = Ref.keeps (Ref.reset s) done

  abbrev pub seen : Outcome ℕ E → Seen E
  seen o = record { verdict = o.verdict; notified = o.notified; called = o.called }

  abbrev pub ref_seen : RefOutcome E → Seen E
  ref_seen o = record { verdict = o.verdict; notified = o.notified; called = o.called }

  unfoldable pub history : List (Call E) → SharedState ℕ E → List (Seen E)
  history [] s = []
  history (c ∷ cs) s = seen (step c s) ∷ history cs (step c s).state

  unfoldable pub ref_history : List (Call E) → RefState E → List (Seen E)
  ref_history [] s = []
  ref_history (c ∷ cs) s = ref_seen (ref_step c s) ∷ ref_history cs (ref_step c s).state

  abbrev pub general : RefState E → SharedState ℕ E
  general s = record {
    ready = s.ready;
    value = s.value;
    except = s.except;
    ext_waiters = s.ext_waiters;
  }

  -- A ready state has an exception or points to an object.
  abbrev pub Points : RefState E → Type 0
  Points s = (s.ready ≡ true) → (s.except ≡ none) → (s.value ≢ none)

  step-same :
      (c : Call E) (s : RefState E)
      → Points s
      → (seen (step c (general s)) ≡ ref_seen (ref_step c s))
        × ((step c (general s)).state ≡ general (ref_step c s).state)
        × ((ref_seen (ref_step c s)).verdict ≢ empty_value)
        × Points (ref_step c s).state
  unfolding step ref_step
  step-same c s p =
      (ground (arith, p), ground (arith, p), ground (arith, p), λ r e. ground (arith, p, r, e))

  -- The states are the same, up to the class.
  pub record Agree (g : SharedState ℕ E) (s : RefState E) : Type 0 where
    pub same_state : g ≡ general s
    pub points : Points s

  pub step-Agree :
      (c : Call E) (g : SharedState ℕ E) (s : RefState E)
      → Agree g s
      → (seen (step c g) ≡ ref_seen (ref_step c s)) × Agree (step c g).state (ref_step c s).state
  step-Agree c g s a =
      let (same, state, full, next) = step-same c s a.points in
      rw a.same_state (same, record { same_state = state; points = next })

  abbrev pub Dereferences : List (Seen E) → Type 0
  Dereferences [] = Unit {0}
  Dereferences (x ∷ xs) = (x.verdict ≢ empty_value) × Dereferences xs

  history-same :
      (cs : List (Call E)) (s : RefState E)
      → Points s
      → (history cs (general s) ≡ ref_history cs s) × Dereferences (ref_history cs s)
  unfolding history ref_history
  history-same [] s p = (refl, tt)
  history-same (c ∷ cs) s p =
      let (same, state, full, next) = step-same c s p in
      let (rest, all) = history-same cs (ref_step c s).state next in
      (rw (same, state, rest) refl, (full, all))

  -- `shared_state<R &>` and `shared_state<R *>` cannot be told apart: over any sequence of calls on new
  -- states, `reset` included, each call gives the same verdict, notifies in the same cases and runs the
  -- same external waiters; and no `get` reads a null pointer.
  pub ref_agrees :
      (cs : List (Call E))
      → (history cs SharedState.fresh ≡ ref_history cs Ref.fresh)
        × Dereferences (ref_history cs Ref.fresh)
  ref_agrees cs = history-same cs Ref.fresh (λ r e. ground arith)
