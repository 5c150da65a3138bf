-- ===== src/Future/Void/Handles.antt =====
-- `promise<void>` (future/promise.hpp), `future<void>` and `shared_future<void>` (future/future.hpp) as
-- counted pointers to `shared_state<void>`, in the way of Future.Handles.
use boost_green_thread.Base.{
  ℕ, suc, Bool, true, false, Option, none, some, ◌==◌, update, size_inc, size_dec, if◌then◌else◌,
}
use boost_green_thread.Future.SharedState.{Exn, Verdict}
use boost_green_thread.Future.Promise.{
  Result, future_already_retrieved, promise_uninitialized, future_uninitialized, returns, passes,
}
use boost_green_thread.Future.Handles.Heap.{Kind, promise, future, shared_future}
use boost_green_thread.Future.Handles.Calls.{has_state}
use boost_green_thread.Future.Void.{VoidState, VoidOutcome, fresh}
use boost_green_thread.Future.Void

pub record VoidHeap {ℓ} (E : Type ℓ) : Type ℓ where
  pub next : ℕ
  pub shared : ℕ → VoidState E
  pub use_count : ℕ → ℕ  -- size_t
  pub freed : ℕ → Bool

pub record VoidStore {ℓ} (E : Type ℓ) : Type ℓ where
  pub heap : VoidHeap E
  pub state : ℕ → Option ℕ
  pub obtained : ℕ → Bool

module _ {ℓ} {E : Type ℓ} where
  abbrev pub init : VoidStore E
  init = record {
    heap = record { next = 0; shared = λ _. fresh; use_count = λ _. 0; freed = λ _. false };
    state = λ _. none;
    obtained = λ _. false;
  }

  unfoldable pub add_ref : Option ℕ → VoidHeap E → VoidHeap E
  add_ref none h = h
  add_ref (some p) h = record h { use_count = update h.use_count p (size_inc (h.use_count p)) }

  unfoldable pub release : Option ℕ → VoidHeap E → VoidHeap E
  release none h = h
  release (some p) h =
      let c = size_dec (h.use_count p) in
      record h {
        use_count = update h.use_count p c;
        freed = if c == 0 then update h.freed p true else h.freed;
      }

  -- `~promise` before it gives its pointer up
  unfoldable pub abandon : Option ℕ → VoidHeap E → VoidHeap E
  unfolding Void.owner_destroyed
  abandon none h = h
  abandon (some p) h = record h {
    shared = update h.shared p (Void.owner_destroyed (h.shared p)).state;
  }

  -- `~promise`, `~future` and `~shared_future`
  unfoldable pub drop_value : Kind → Option ℕ → VoidHeap E → VoidHeap E
  unfolding abandon release
  drop_value promise v h = release v (abandon v h)
  drop_value future v h = release v h
  drop_value shared_future v h = release v h

  unfoldable pub create : ℕ → VoidStore E → VoidStore E
  unfolding add_ref
  create a s =
      let p = s.heap.next in
      record s {
        heap = add_ref (some p) (record s.heap {
          next = suc p;
          shared = update s.heap.shared p fresh;
          use_count = update s.heap.use_count p 0;
          freed = update s.heap.freed p false;
        });
        state = update s.state a (some p);
        obtained = update s.obtained a false;
      }

  unfoldable pub get_future : ℕ → ℕ → VoidStore E → VoidStore E × Result (Unit {ℓ}) E
  unfolding add_ref
  get_future a b s = if s.obtained a then (s, future_already_retrieved) else elim (s.state a) [
    | none ↦ (s, promise_uninitialized)
    | some p ↦ (
      record {
        heap = add_ref (some p) s.heap;
        state = update s.state b (some p);
        obtained = update s.obtained a true;
      },
      returns,
    )
  ]

  unfoldable pub move_construct : ℕ → ℕ → VoidStore E → VoidStore E
  move_construct a b s = record s {
    state = update (update s.state b (s.state a)) a none;
    obtained = update (update s.obtained b (s.obtained a)) a false;
  }

  unfoldable pub move_assign : Kind → ℕ → ℕ → VoidStore E → VoidStore E
  unfolding drop_value
  move_assign k a b s =
      let taken = update s.state a none in
      let flags = update s.obtained a false in
      record {
        heap = drop_value k (taken b) s.heap;
        state = update taken b (s.state a);
        obtained = update flags b (s.obtained a);
      }

  unfoldable pub copy_construct : ℕ → ℕ → VoidStore E → VoidStore E
  unfolding add_ref
  copy_construct a b s = record s {
    heap = add_ref (s.state a) s.heap;
    state = update s.state b (s.state a);
  }

  -- `std::move` of a constant does not move, so this copies.
  unfoldable pub copy_assign : ℕ → ℕ → VoidStore E → VoidStore E
  unfolding add_ref release
  copy_assign a b s = record s {
    heap = release (s.state b) (add_ref (s.state a) s.heap);
    state = update s.state b (s.state a);
  }

  unfoldable pub swap : ℕ → ℕ → VoidStore E → VoidStore E
  swap a b s = record s {
    state = update (update s.state a (s.state b)) b (s.state a);
    obtained = update (update s.obtained a (s.obtained b)) b (s.obtained a);
  }

  unfoldable pub destroy : Kind → ℕ → VoidStore E → VoidStore E
  unfolding drop_value
  destroy k a s = record s {
    heap = drop_value k (s.state a) s.heap;
    state = update s.state a none;
    obtained = update s.obtained a false;
  }

  -- A call of `promise` through its pointer
  unfoldable pub provide :
      (VoidState E → VoidOutcome E) → ℕ → VoidStore E → VoidStore E × Result (Unit {ℓ}) E
  provide f a s = elim (s.state a) [
    | none ↦ (s, promise_uninitialized)
    | some p ↦ (
      record s {
        heap = record s.heap { shared = update s.heap.shared p (f (s.heap.shared p)).state };
      },
      passes (f (s.heap.shared p)).verdict,
    )
  ]

  unfoldable pub set_value : ℕ → VoidStore E → VoidStore E × Result (Unit {ℓ}) E
  unfolding provide Void.set_value
  set_value a s = provide Void.set_value a s

  unfoldable pub set_exception : ℕ → Exn E → VoidStore E → VoidStore E × Result (Unit {ℓ}) E
  unfolding provide Void.set_exception
  set_exception a e s = provide (Void.set_exception e) a s

  unfoldable pub valid : ℕ → VoidStore E → Bool
  valid a s = has_state (s.state a)

  -- A call of `future` or `shared_future` through its pointer
  unfoldable pub through :
      (VoidState E → Verdict (Unit {ℓ}) E) → ℕ → VoidStore E → Result (Unit {ℓ}) E
  through f a s = elim (s.state a) [
    | none ↦ future_uninitialized
    | some p ↦ passes (f (s.heap.shared p))
  ]

  unfoldable pub share : ℕ → ℕ → VoidStore E → VoidStore E × Result (Unit {ℓ}) E
  unfolding move_construct
  share a b s = elim (s.state a) [
    | none ↦ (s, future_uninitialized)
    | some p ↦ (move_construct a b s, returns)
  ]

  unfoldable pub shared_get : ℕ → VoidStore E → Result (Unit {ℓ}) E
  unfolding through Void.get
  shared_get a s = through (λ t. (Void.get t).verdict) a s

  unfoldable pub get : ℕ → ℕ → VoidStore E → VoidStore E × Result (Unit {ℓ}) E
  unfolding move_construct shared_get
  get a b s = elim (s.state a) [
    | none ↦ (s, future_uninitialized)
    | some p ↦ (move_construct a b s, shared_get b (move_construct a b s))
  ]

  unfoldable pub wait : ℕ → VoidStore E → Result (Unit {ℓ}) E
  unfolding through Void.wait
  wait a s = through (λ t. (Void.wait t).verdict) a s

  unfoldable pub wait_for : ℕ → VoidStore E → Result (Unit {ℓ}) E
  unfolding through Void.wait_for
  wait_for a s = through (λ t. (Void.wait_for t).verdict) a s

  unfoldable pub wait_until : ℕ → VoidStore E → Result (Unit {ℓ}) E
  unfolding through Void.wait_until
  wait_until a s = through (λ t. (Void.wait_until t).verdict) a s
