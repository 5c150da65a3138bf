-- ===== src/Future/Void/Agrees.antt =====
-- `shared_state<void>` against `shared_state<R>` at a type `R` of one value.
use boost_green_thread.Base.{ℕ, Bool, true, none, some, List, [], ◌∷◌, ◌≡◌, refl, arith}
use boost_green_thread.Future.SharedState.{SharedState, Exn, Outcome, Verdict, done, gives, keeps}
use boost_green_thread.Future.SharedState
use boost_green_thread.Future.Settled.{Op, apply}
use boost_green_thread.Future.Void.{VoidState, VoidOutcome}
use boost_green_thread.Future.Void

-- A call of either: one that the promise or a future makes, or `reset`.
pub data Call {ℓ} (E : Type ℓ) : Type ℓ where
  calls : Op (Unit {ℓ}) E → Call E
  resets : Call E

-- What a call shows: its verdict, whether it notifies, and the external waiters that run.
pub record Seen {ℓ} (E : Type ℓ) : Type ℓ where
  pub verdict : Verdict (Unit {ℓ}) E
  pub notified : Bool
  pub called : List ℕ

module _ {ℓ} {E : Type ℓ} where
  unfoldable pub step : Call E → SharedState (Unit {ℓ}) E → Outcome (Unit {ℓ}) E
  unfolding apply SharedState.reset
  step (calls op) s = apply op s
  step resets s = keeps (SharedState.reset s) done

  unfoldable pub void_step : Call E → VoidState E → VoidOutcome E
  unfolding Void.set_value Void.set_exception Void.owner_destroyed Void.get Void.wait Void.wait_for
      Void.wait_for_woken Void.wait_until Void.wait_until_woken Void.add_external_waiter Void.reset
  void_step (calls (Op.set_value _)) s = Void.set_value s
  void_step (calls (Op.set_exception e)) s = Void.set_exception e s
  void_step (calls Op.owner_destroyed) s = Void.owner_destroyed s
  void_step (calls Op.get) s = Void.get s
  void_step (calls Op.wait) s = Void.wait s
  void_step (calls Op.wait_for) s = Void.wait_for s
  void_step (calls (Op.wait_for_woken c)) s = Void.wait_for_woken c s
  void_step (calls Op.wait_until) s = Void.wait_until s
  void_step (calls (Op.wait_until_woken c)) s = Void.wait_until_woken c s
  void_step (calls (Op.add_external_waiter f)) s = Void.add_external_waiter f s
  void_step resets s = Void.keeps (Void.reset s) done

  -- `get` of a future without a value returns where that of another gives it.
  abbrev pub as_void : Verdict (Unit {ℓ}) E → Verdict (Unit {ℓ}) E
  as_void (gives _) = done
  as_void v = v

  abbrev pub seen : Outcome (Unit {ℓ}) E → Seen E
  seen o = record { verdict = as_void o.verdict; notified = o.notified; called = o.called }

  abbrev pub void_seen : VoidOutcome E → Seen E
  void_seen o = record { verdict = o.verdict; notified = o.notified; called = o.called }

  unfoldable pub history : List (Call E) → SharedState (Unit {ℓ}) E → List (Seen E)
  history [] s = []
  history (c ∷ cs) s = seen (step c s) ∷ history cs (step c s).state

  unfoldable pub void_history : List (Call E) → VoidState E → List (Seen E)
  void_history [] s = []
  void_history (c ∷ cs) s = void_seen (void_step c s) ∷ void_history cs (void_step c s).state

  -- The states agree, and a ready state without an exception holds the value.
  pub record Agree (g : SharedState (Unit {ℓ}) E) (s : VoidState E) : Type ℓ where
    pub same_ready : g.ready ≡ s.ready
    pub same_except : g.except ≡ s.except
    pub same_waiters : g.ext_waiters ≡ s.ext_waiters
    pub held : g.ready ≡ true → g.except ≡ none → g.value ≡ some tt

  pub step-Agree :
      (c : Call E) (g : SharedState (Unit {ℓ}) E) (s : VoidState E)
      → Agree g s
      → (seen (step c g) ≡ void_seen (void_step c s)) × Agree (step c g).state (void_step c s).state
  unfolding step void_step
  step-Agree (calls (Op.set_value v)) g s a = (
    ground (arith, a.same_ready, a.same_except, a.same_waiters, a.held),
    record {
      same_ready = ground (arith, a.same_ready, a.same_except, a.same_waiters);
      same_except = ground (arith, a.same_ready, a.same_except, a.same_waiters);
      same_waiters = ground (arith, a.same_ready, a.same_except, a.same_waiters);
      held = λ r e. ground (arith, a.same_ready, a.held);
    },
  )
  step-Agree c g s a = (
    ground (arith, a.same_ready, a.same_except, a.same_waiters, a.held),
    record {
      same_ready = ground (arith, a.same_ready, a.same_except, a.same_waiters);
      same_except = ground (arith, a.same_ready, a.same_except, a.same_waiters);
      same_waiters = ground (arith, a.same_ready, a.same_except, a.same_waiters);
      held = λ r e. ground (arith, a.same_ready, a.held);
    },
  )

  history-Agree :
      (cs : List (Call E)) (g : SharedState (Unit {ℓ}) E) (s : VoidState E)
      → Agree g s
      → history cs g ≡ void_history cs s
  unfolding history void_history
  history-Agree [] g s a = refl
  history-Agree (c ∷ cs) g s a =
      let (same, next) = step-Agree c g s a in
      rw (same, history-Agree cs (step c g).state (void_step c s).state next) refl

  -- `shared_state<void>` and `shared_state<R>` at a type of one value cannot be told apart: over any
  -- sequence of calls on new states, `reset` included, each call gives the same verdict, notifies in
  -- the same cases and runs the same external waiters.
  pub void_agrees : (cs : List (Call E)) → history cs SharedState.fresh ≡ void_history cs Void.fresh
  void_agrees cs = history-Agree cs SharedState.fresh Void.fresh (record {
    same_ready = refl;
    same_except = refl;
    same_waiters = refl;
    held = λ r e. ground arith;
  })
