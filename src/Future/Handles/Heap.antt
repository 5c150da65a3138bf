-- ===== src/Future/Handles/Heap.antt =====
-- The shared states that promises allocate, with their `use_count_`, and the pointers to them.
use boost_green_thread.Base.{
  ℕ, suc, Bool, true, false, Option, none, some, ◌==◌, update, size_inc, size_dec, if◌then◌else◌,
}
use boost_green_thread.Future.SharedState.{SharedState, fresh}
use boost_green_thread.Future.SharedState
use boost_green_thread.Future.Waiting.Settle.{Settle, settle}

-- What a variable is: `promise`, `future` or `shared_future`.
pub data Kind : Type 0 where
  promise future shared_future : Kind

-- Addresses are given out in order; `freed` says for which `deallocate_future` has been called.
pub record Heap {ℓ} (R E : Type ℓ) : Type ℓ where
  pub next : ℕ
  pub shared : ℕ → SharedState R E
  pub use_count : ℕ → ℕ  -- size_t
  pub freed : ℕ → Bool

-- `state_` or `future_` of each variable, and `obtained_` of each promise.
pub record Store {ℓ} (R E : Type ℓ) : Type ℓ where
  pub heap : Heap R E
  pub state : ℕ → Option ℕ
  pub obtained : ℕ → Bool

module _ {ℓ} {R E : Type ℓ} where
  -- `intrusive_ptr_add_ref`, where the pointer is not null
  unfoldable pub add_ref : Option ℕ → Heap R E → Heap R E
  add_ref none h = h
  add_ref (some p) h = record h { use_count = update h.use_count p (size_inc (h.use_count p)) }

  -- `intrusive_ptr_release`, where the pointer is not null
  unfoldable pub release : Option ℕ → Heap R E → Heap R E
  release none h = h
  release (some p) h =
      let c = size_dec (h.use_count p) in
      record h {
        use_count = update h.use_count p c;
        freed = if c == 0 then update h.freed p true else h.freed;
      }

  -- `owner_destroyed` through a pointer that may be null
  unfoldable pub abandon : Option ℕ → Heap R E → Heap R E
  unfolding SharedState.owner_destroyed
  abandon none h = h
  abandon (some p) h = record h {
    shared = update h.shared p (SharedState.owner_destroyed (h.shared p)).state;
  }

  -- The end of a variable's value `v`: `~promise` reports to the state, and each gives its pointer up.
  unfoldable pub drop_value : Kind → Option ℕ → Heap R E → Heap R E
  unfolding abandon release
  drop_value promise v h = release v (abandon v h)
  drop_value future v h = release v h
  drop_value shared_future v h = release v h

  -- `promise()`: a new state, counted from 0.
  unfoldable pub create : ℕ → Store R E → Store R E
  unfolding add_ref
  create a s =
      let p = s.heap.next in
      record s {
        heap = add_ref (some p) (record s.heap {
          next = suc p;
          shared = update s.heap.shared p fresh;
          use_count = update s.heap.use_count p 0;
          freed = update s.heap.freed p false;
        });
        state = update s.state a (some p);
        obtained = update s.obtained a false;
      }

  -- `b = a.get_future()` for a new variable `b`; the store is as before where it throws.
  unfoldable pub get_future : ℕ → ℕ → Store R E → Store R E
  unfolding add_ref
  get_future a b s = if s.obtained a then s else elim (s.state a) [
    | none ↦ s
    | some p ↦ record {
      heap = add_ref (some p) s.heap;
      state = update s.state b (some p);
      obtained = update s.obtained a true;
    }
  ]

  -- The move constructors, of `b` from `a`: a null pointer and `swap`. `share` is one of them.
  unfoldable pub move_construct : ℕ → ℕ → Store R E → Store R E
  move_construct a b s = record s {
    state = update (update s.state b (s.state a)) a none;
    obtained = update (update s.obtained b (s.obtained a)) a false;
  }

  -- `b = std::move(a)`: a temporary takes the value of `a`, is swapped with `b` and destroyed.
  unfoldable pub move_assign : Kind → ℕ → ℕ → Store R E → Store R E
  unfolding drop_value
  move_assign k a b s =
      let taken = update s.state a none in
      let flags = update s.obtained a false in
      record {
        heap = drop_value k (taken b) s.heap;
        state = update taken b (s.state a);
        obtained = update flags b (s.obtained a);
      }

  -- The copy constructor of `shared_future`, of `b` from `a`
  unfoldable pub copy_construct : ℕ → ℕ → Store R E → Store R E
  unfolding add_ref
  copy_construct a b s = record s {
    heap = add_ref (s.state a) s.heap;
    state = update s.state b (s.state a);
  }

  -- `b = a` of `shared_future`: a temporary copy, swapped with `b` and destroyed
  unfoldable pub copy_assign : ℕ → ℕ → Store R E → Store R E
  unfolding add_ref release
  copy_assign a b s = record s {
    heap = release (s.state b) (add_ref (s.state a) s.heap);
    state = update s.state b (s.state a);
  }

  unfoldable pub swap : ℕ → ℕ → Store R E → Store R E
  swap a b s = record s {
    state = update (update s.state a (s.state b)) b (s.state a);
    obtained = update (update s.obtained a (s.obtained b)) b (s.obtained a);
  }

  -- The destructors
  unfoldable pub destroy : Kind → ℕ → Store R E → Store R E
  unfolding drop_value
  destroy k a s = record s {
    heap = drop_value k (s.state a) s.heap;
    state = update s.state a none;
    obtained = update s.obtained a false;
  }

  -- `set_value` or `set_exception` of a promise; the store is as before where it throws.
  unfoldable pub provide : ℕ → Settle R E → Store R E → Store R E
  unfolding SharedState.set_value SharedState.set_exception SharedState.owner_destroyed
  provide a c s = elim (s.state a) [
    | none ↦ s
    | some p ↦ record s {
      heap = record s.heap { shared = update s.heap.shared p (settle c (s.heap.shared p)).state };
    }
  ]
