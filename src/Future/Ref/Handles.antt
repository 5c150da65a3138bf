-- ===== src/Future/Ref/Handles.antt =====
-- `promise<R &>` (future/promise.hpp), `future<R &>` and `shared_future<R &>` (future/future.hpp) as
-- counted pointers to `shared_state<R &>`, in the way of Future.Handles.
use boost_green_thread.Base.{
  ℕ, suc, Bool, true, false, Option, none, some, ◌==◌, update, size_inc, size_dec, if◌then◌else◌,
}
use boost_green_thread.Future.SharedState.{Exn, Verdict}
use boost_green_thread.Future.Promise.{
  Result, future_already_retrieved, promise_uninitialized, future_uninitialized, returns, passes,
}
use boost_green_thread.Future.Handles.Heap.{Kind, promise, future, shared_future}
use boost_green_thread.Future.Handles.Calls.{has_state}
use boost_green_thread.Future.Ref.{RefState, RefOutcome, fresh}
use boost_green_thread.Future.Ref

pub record RefHeap (E : Type 0) : Type 0 where
  pub next : ℕ
  pub shared : ℕ → RefState E
  pub use_count : ℕ → ℕ  -- size_t
  pub freed : ℕ → Bool

pub record RefStore (E : Type 0) : Type 0 where
  pub heap : RefHeap E
  pub state : ℕ → Option ℕ
  pub obtained : ℕ → Bool

module _ {E : Type 0} where
  abbrev pub init : RefStore E
  init = record {
    heap = record { next = 0; shared = λ _. fresh; use_count = λ _. 0; freed = λ _. false };
    state = λ _. none;
    obtained = λ _. false;
  }

  unfoldable pub add_ref : Option ℕ → RefHeap E → RefHeap E
  add_ref none h = h
  add_ref (some p) h = record h { use_count = update h.use_count p (size_inc (h.use_count p)) }

  unfoldable pub release : Option ℕ → RefHeap E → RefHeap E
  release none h = h
  release (some p) h =
      let c = size_dec (h.use_count p) in
      record h {
        use_count = update h.use_count p c;
        freed = if c == 0 then update h.freed p true else h.freed;
      }

  -- `~promise` before it gives its pointer up
  unfoldable pub abandon : Option ℕ → RefHeap E → RefHeap E
  unfolding Ref.owner_destroyed
  abandon none h = h
  abandon (some p) h = record h {
    shared = update h.shared p (Ref.owner_destroyed (h.shared p)).state;
  }

  -- `~promise`, `~future` and `~shared_future`
  unfoldable pub drop_value : Kind → Option ℕ → RefHeap E → RefHeap E
  unfolding abandon release
  drop_value promise v h = release v (abandon v h)
  drop_value future v h = release v h
  drop_value shared_future v h = release v h

  unfoldable pub create : ℕ → RefStore E → RefStore E
  unfolding add_ref
  create a s =
      let p = s.heap.next in
      record s {
        heap = add_ref (some p) (record s.heap {
          next = suc p;
          shared = update s.heap.shared p fresh;
          use_count = update s.heap.use_count p 0;
          freed = update s.heap.freed p false;
        });
        state = update s.state a (some p);
        obtained = update s.obtained a false;
      }

  unfoldable pub get_future : ℕ → ℕ → RefStore E → RefStore E × Result ℕ E
  unfolding add_ref
  get_future a b s = if s.obtained a then (s, future_already_retrieved) else elim (s.state a) [
    | none ↦ (s, promise_uninitialized)
    | some p ↦ (
      record {
        heap = add_ref (some p) s.heap;
        state = update s.state b (some p);
        obtained = update s.obtained a true;
      },
      returns,
    )
  ]

  unfoldable pub move_construct : ℕ → ℕ → RefStore E → RefStore E
  move_construct a b s = record s {
    state = update (update s.state b (s.state a)) a none;
    obtained = update (update s.obtained b (s.obtained a)) a false;
  }

  unfoldable pub move_assign : Kind → ℕ → ℕ → RefStore E → RefStore E
  unfolding drop_value
  move_assign k a b s =
      let taken = update s.state a none in
      let flags = update s.obtained a false in
      record {
        heap = drop_value k (taken b) s.heap;
        state = update taken b (s.state a);
        obtained = update flags b (s.obtained a);
      }

  unfoldable pub copy_construct : ℕ → ℕ → RefStore E → RefStore E
  unfolding add_ref
  copy_construct a b s = record s {
    heap = add_ref (s.state a) s.heap;
    state = update s.state b (s.state a);
  }

  unfoldable pub copy_assign : ℕ → ℕ → RefStore E → RefStore E
  unfolding add_ref release
  copy_assign a b s = record s {
    heap = release (s.state b) (add_ref (s.state a) s.heap);
    state = update s.state b (s.state a);
  }

  unfoldable pub swap : ℕ → ℕ → RefStore E → RefStore E
  swap a b s = record s {
    state = update (update s.state a (s.state b)) b (s.state a);
    obtained = update (update s.obtained a (s.obtained b)) b (s.obtained a);
  }

  unfoldable pub destroy : Kind → ℕ → RefStore E → RefStore E
  unfolding drop_value
  destroy k a s = record s {
    heap = drop_value k (s.state a) s.heap;
    state = update s.state a none;
    obtained = update s.obtained a false;
  }

  -- A call of `promise` through its pointer
  unfoldable pub provide : (RefState E → RefOutcome E) → ℕ → RefStore E → RefStore E × Result ℕ E
  provide f a s = elim (s.state a) [
    | none ↦ (s, promise_uninitialized)
    | some p ↦ (
      record s {
        heap = record s.heap { shared = update s.heap.shared p (f (s.heap.shared p)).state };
      },
      passes (f (s.heap.shared p)).verdict,
    )
  ]

  unfoldable pub set_value : ℕ → ℕ → RefStore E → RefStore E × Result ℕ E
  unfolding provide Ref.set_value
  set_value a v s = provide (Ref.set_value v) a s

  unfoldable pub set_exception : ℕ → Exn E → RefStore E → RefStore E × Result ℕ E
  unfolding provide Ref.set_exception
  set_exception a e s = provide (Ref.set_exception e) a s

  unfoldable pub valid : ℕ → RefStore E → Bool
  valid a s = has_state (s.state a)

  -- A call of `future` or `shared_future` through its pointer
  unfoldable pub through : (RefState E → Verdict ℕ E) → ℕ → RefStore E → Result ℕ E
  through f a s = elim (s.state a) [
    | none ↦ future_uninitialized
    | some p ↦ passes (f (s.heap.shared p))
  ]

  unfoldable pub share : ℕ → ℕ → RefStore E → RefStore E × Result ℕ E
  unfolding move_construct
  share a b s = elim (s.state a) [
    | none ↦ (s, future_uninitialized)
    | some p ↦ (move_construct a b s, returns)
  ]

  unfoldable pub shared_get : ℕ → RefStore E → Result ℕ E
  unfolding through Ref.get
  shared_get a s = through (λ t. (Ref.get t).verdict) a s

  unfoldable pub get : ℕ → ℕ → RefStore E → RefStore E × Result ℕ E
  unfolding move_construct shared_get
  get a b s = elim (s.state a) [
    | none ↦ (s, future_uninitialized)
    | some p ↦ (move_construct a b s, shared_get b (move_construct a b s))
  ]

  unfoldable pub wait : ℕ → RefStore E → Result ℕ E
  unfolding through Ref.wait
  wait a s = through (λ t. (Ref.wait t).verdict) a s

  unfoldable pub wait_for : ℕ → RefStore E → Result ℕ E
  unfolding through Ref.wait_for
  wait_for a s = through (λ t. (Ref.wait_for t).verdict) a s

  unfoldable pub wait_until : ℕ → RefStore E → Result ℕ E
  unfolding through Ref.wait_until
  wait_until a s = through (λ t. (Ref.wait_until t).verdict) a s
