-- ===== src/Future/Handles/Ownership.antt =====
-- Who owns a shared state, and how long it lives.
use boost_green_thread.Base.{ℕ, ◌<◌, true, false, none, ◌≡◌, ◌⊎◌, refl, size_mod, arith}
use boost_green_thread.Base.Counts.{refs, refs_none}
use boost_green_thread.Future.Handles.Heap.{Kind, Store}
use boost_green_thread.Future.Handles.Program.{
  init, Step, creates, gets_future, moves, move_assigns, copies, copy_assigns, swaps, destroys,
  sets_value, sets_exception, Reach, start, later,
}
use boost_green_thread.Future.Handles.Invariant.{
  any_kind, owner, Inv, create-Inv, get_future-Inv, move_construct-Inv, swap-Inv,
  copy_construct-Inv, destroy-Inv, provide_value-Inv, provide_exception-Inv, move_assign-Inv,
  copy_assign-Inv,
}

module _ {ℓ} {R E : Type ℓ} (n : ℕ) (kind : ℕ → Kind) (small : n < size_mod) where
  Step-Inv : {s t : Store R E} → Step n kind s t → Inv n kind small s → Inv n kind small t
  Step-Inv (creates a h k e) v = create-Inv n kind small v a h k e
  Step-Inv (gets_future a b h l j k e) v = get_future-Inv n kind small v a b h l k e
  Step-Inv (moves a b h l k e) v = move_construct-Inv n kind small v a b h l k e
  Step-Inv (move_assigns a b h l k) v = move_assign-Inv n kind small v a b h l k
  Step-Inv (copies a b h l j k e) v = copy_construct-Inv n kind small v a b h l j k e
  Step-Inv (copy_assigns a b h l j k) v = copy_assign-Inv n kind small v a b h l j k
  Step-Inv (swaps a b h l k) v = swap-Inv n kind small v a b h l k
  Step-Inv (destroys a h) v = destroy-Inv n kind small v a h
  Step-Inv (sets_value a x k) v = provide_value-Inv n kind small v a x
  Step-Inv (sets_exception a e k) v = provide_exception-Inv n kind small v a e

  init-Inv : Inv {R = R} {E = E} n kind small init
  init-Inv = record {
    bounded = λ h p q. ground arith;
    counted = λ p q. absurd (omega arith);
    kept = λ p q. absurd (omega arith);
    gone = λ p q. absurd (omega arith);
    single = λ p. ground (arith, refs_none (owner kind) n (λ _. none) p (λ _. refl));
    owned = λ p q. absurd (omega arith);
  }

  pub Reach-Inv : {s : Store R E} → Reach n kind s → Inv n kind small s
  Reach-Inv start = init-Inv
  Reach-Inv (later r st) = Step-Inv st (Reach-Inv r)

  -- A program with fewer than 2 ^ 64 variables makes promises, takes their futures, moves, copies,
  -- assigns, swaps, shares, destroys and sets them, in any order; it calls neither `then` nor the forms
  -- at thread exit, whose functions hold pointers of their own, and waits for no futures. Then each
  -- shared state lives exactly as long as a variable points to it, and `use_count_` is the number of
  -- these: none is freed too early or never.
  pub lifetime :
      {s : Store R E} (p : ℕ)
      → Reach n kind s
      → p < s.heap.next
      → ((s.heap.freed p ≡ true) × (refs any_kind n s.state p ≡ 0))
        ⊎ ((s.heap.freed p ≡ false)
            × (0 < refs any_kind n s.state p)
            × (s.heap.use_count p ≡ refs any_kind n s.state p))
  lifetime p r h =
      let v = Reach-Inv r in ground (arith, Inv.counted v p, Inv.kept v p, Inv.gone v p)

  -- A future is never left behind by a program with fewer than 2 ^ 64 variables: a shared state has
  -- one promise at most, and when none is left, whether it was destroyed or assigned over, the state
  -- is ready.
  pub abandoned_ready :
      {s : Store R E} (p : ℕ)
      → Reach n kind s
      → p < s.heap.next
      → (refs (owner kind) n s.state p ≡ 1)
        ⊎ ((refs (owner kind) n s.state p ≡ 0) × ((s.heap.shared p).ready ≡ true))
  abandoned_ready p r h = let v = Reach-Inv r in ground (arith, Inv.single v p, Inv.owned v p)
