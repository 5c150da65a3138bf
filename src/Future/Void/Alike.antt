-- ===== src/Future/Void/Alike.antt =====
-- Calls on the variables of `promise<void>`, `future<void>` and `shared_future<void>`, and stores that
-- match those of the general classes.
use boost_green_thread.Base.{
  ℕ, Option, none, some, List, [], ◌∷◌, ◌≡◌, refl, arith, update, ◌==◌, Bool-cases, inl, inr,
  Option-cases,
}
use boost_green_thread.Future.SharedState.{SharedState, Verdict}
use boost_green_thread.Future.SharedState
use boost_green_thread.Future.Promise.{returns, passes, future_uninitialized}
use boost_green_thread.Future.Settled.{Op}
use boost_green_thread.Future.Handles.Heap.{Kind, promise, future, shared_future, Heap, Store}
use boost_green_thread.Future.Handles.Heap
use boost_green_thread.Future.Handles.Calls
use boost_green_thread.Future.Handles.Calls.{
  Call, creates, gets_future, moves, copies, copy_assigns, swaps, shares, gets, move_assigns,
  destroys, sets_value, sets_exception, tests, shared_gets, waits, waits_for, waits_until,
  waits_for_woken, waits_until_woken, Seen, ends, is_valid, step, history,
}
use boost_green_thread.Future.Void.{VoidState}
use boost_green_thread.Future.Void
use boost_green_thread.Future.Void.Agrees
use boost_green_thread.Future.Void.Agrees.{Agree, step-Agree, as_void, calls}
use boost_green_thread.Future.Void.Handles.{VoidHeap, VoidStore}
use boost_green_thread.Future.Void.Handles

module _ {ℓ} {E : Type ℓ} where
  unfoldable pub void_step : Call (Unit {ℓ}) E → VoidStore E → VoidStore E × Seen (Unit {ℓ}) E
  unfolding Handles.create Handles.get_future Handles.move_construct Handles.move_assign
      Handles.copy_construct Handles.copy_assign Handles.swap Handles.destroy Handles.set_value
      Handles.set_exception Handles.valid Handles.share Handles.shared_get Handles.get Handles.wait
      Handles.wait_for Handles.wait_until Handles.through Void.wait_for_woken Void.wait_until_woken
  void_step (creates a) s = (Handles.create a s, ends returns)
  void_step (gets_future a b) s = let r = Handles.get_future a b s in (r.0, ends r.1)
  void_step (moves a b) s = (Handles.move_construct a b s, ends returns)
  void_step (copies a b) s = (Handles.copy_construct a b s, ends returns)
  void_step (copy_assigns a b) s = (Handles.copy_assign a b s, ends returns)
  void_step (swaps a b) s = (Handles.swap a b s, ends returns)
  void_step (shares a b) s = let r = Handles.share a b s in (r.0, ends r.1)
  void_step (gets a b) s = let r = Handles.get a b s in (r.0, ends r.1)
  void_step (move_assigns k a b) s = (Handles.move_assign k a b s, ends returns)
  void_step (destroys k a) s = (Handles.destroy k a s, ends returns)
  void_step (sets_value a _) s = let r = Handles.set_value a s in (r.0, ends r.1)
  void_step (sets_exception a e) s = let r = Handles.set_exception a e s in (r.0, ends r.1)
  void_step (tests a) s = (s, is_valid (Handles.valid a s))
  void_step (shared_gets a) s = (s, ends (Handles.shared_get a s))
  void_step (waits a) s = (s, ends (Handles.wait a s))
  void_step (waits_for a) s = (s, ends (Handles.wait_for a s))
  void_step (waits_until a) s = (s, ends (Handles.wait_until a s))
  void_step (waits_for_woken c a) s =
      (s, ends (Handles.through (λ t. (Void.wait_for_woken c t).verdict) a s))
  void_step (waits_until_woken c a) s =
      (s, ends (Handles.through (λ t. (Void.wait_until_woken c t).verdict) a s))

  unfoldable pub void_history : List (Call (Unit {ℓ}) E) → VoidStore E → List (Seen (Unit {ℓ}) E)
  void_history [] s = []
  void_history (c ∷ cs) s = let r = void_step c s in r.1 ∷ void_history cs r.0

  -- The general `get` gives the value where `get` of `void` returns.
  abbrev pub seen_void : Seen (Unit {ℓ}) E → Seen (Unit {ℓ}) E
  seen_void (ends (passes v)) = ends (passes (as_void v))
  seen_void (ends r) = ends r
  seen_void (is_valid b) = is_valid b

  -- The store of the general classes with the states `f` for those of `s`
  abbrev pub general_heap : (ℕ → SharedState (Unit {ℓ}) E) → VoidHeap E → Heap (Unit {ℓ}) E
  general_heap f h = record { next = h.next; shared = f; use_count = h.use_count; freed = h.freed }

  abbrev pub general : (ℕ → SharedState (Unit {ℓ}) E) → VoidStore E → Store (Unit {ℓ}) E
  general f s = record { heap = general_heap f s.heap; state = s.state; obtained = s.obtained }

  abbrev pub Matches : (ℕ → SharedState (Unit {ℓ}) E) → (ℕ → VoidState E) → Type ℓ
  Matches f h = (p : ℕ) → Agree (f p) (h p)

  -- Both go to stores that match, and show the same.
  abbrev pub Alike :
      Store (Unit {ℓ}) E × Seen (Unit {ℓ}) E → VoidStore E × Seen (Unit {ℓ}) E → Type ℓ
  Alike r v =
      (f : ℕ → SharedState (Unit {ℓ}) E) × (r.0 ≡ general f v.0)
      × Matches f v.0.heap.shared
      × (seen_void r.1 ≡ v.1)

  pub update-Matches :
      {f : ℕ → SharedState (Unit {ℓ}) E} {h : ℕ → VoidState E} (p : ℕ)
      {x : SharedState (Unit {ℓ}) E} {y : VoidState E}
      → Agree x y
      → Matches f h
      → Matches (update f p x) (update h p y)
  update-Matches p a m q = elim (Bool-cases (p == q)) [ inl e ↦ rw e a | inr e ↦ rw e (m q) ]

  pub fresh-Agree : Agree {E = E} SharedState.fresh Void.fresh
  fresh-Agree = record {
    same_ready = refl;
    same_except = refl;
    same_waiters = refl;
    held = λ r e. ground arith;
  }

  -- One call on states that agree
  pub verdicts :
      (c : Op (Unit {ℓ}) E) {g : SharedState (Unit {ℓ}) E} {s : VoidState E}
      → Agree g s
      → (as_void (Agrees.step (calls c) g).verdict ≡ (Agrees.void_step (calls c) s).verdict)
        × Agree (Agrees.step (calls c) g).state (Agrees.void_step (calls c) s).state
  verdicts c {g} {s} a =
      let (same, next) = step-Agree (calls c) g s a in (ground (arith, same), next)

  -- A call that only reads, through the pointer of a variable
  pub through-Alike :
      (c : Op (Unit {ℓ}) E) (a : ℕ) {f : ℕ → SharedState (Unit {ℓ}) E} (s : VoidStore E)
      → Matches f s.heap.shared
      → seen_void (
          ends (
            Calls.through future_uninitialized
              (λ t. (Agrees.step (calls c) t).verdict)
              a
              (general f s)))
        ≡ ends (Handles.through (λ t. (Agrees.void_step (calls c) t).verdict) a s)
  unfolding Calls.through Handles.through
  through-Alike c a s m = elim (Option-cases (s.state a)) [
    | inl q ↦ ground (arith, q)
    | inr (p, q) ↦ ground (arith, q, (verdicts c (m p)).0)
  ]

  pub drop-Alike :
      (k : Kind) (v : Option ℕ) (f : ℕ → SharedState (Unit {ℓ}) E) (h : VoidHeap E)
      → Matches f h.shared
      → (f' : ℕ → SharedState (Unit {ℓ}) E) × (Heap.drop_value k v (general_heap f h)
          ≡ general_heap f' (Handles.drop_value k v h))
        × Matches f' (Handles.drop_value k v h).shared
  unfolding Heap.drop_value Handles.drop_value Agrees.step Agrees.void_step
  drop-Alike promise none f h m = (f, refl, m)
  drop-Alike promise (some p) f h m = (
    update f p (SharedState.owner_destroyed (f p)).state,
    refl,
    update-Matches p (verdicts Op.owner_destroyed (m p)).1 m,
  )
  drop-Alike future none f h m = (f, refl, m)
  drop-Alike future (some p) f h m = (f, refl, m)
  drop-Alike shared_future none f h m = (f, refl, m)
  drop-Alike shared_future (some p) f h m = (f, refl, m)

  pub copied-Alike :
      (u v : Option ℕ) (f : ℕ → SharedState (Unit {ℓ}) E) (h : VoidHeap E)
      → Matches f h.shared
      → (Heap.release v (Heap.add_ref u (general_heap f h))
          ≡ general_heap f (Handles.release v (Handles.add_ref u h)))
        × Matches f (Handles.release v (Handles.add_ref u h)).shared
  unfolding Heap.release Heap.add_ref Handles.release Handles.add_ref
  copied-Alike none none f h m = (refl, m)
  copied-Alike none (some q) f h m = (refl, m)
  copied-Alike (some p) none f h m = (refl, m)
  copied-Alike (some p) (some q) f h m = (refl, m)
