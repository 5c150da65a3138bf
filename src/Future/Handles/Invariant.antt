-- ===== src/Future/Handles/Invariant.antt =====
-- What holds of every store that a program reaches: each operation keeps it.
use boost_green_thread.Base.{
  ℕ, ◌≤◌, ◌<◌, Bool, true, false, none, some, ◌≡◌, ◌⊎◌, points_to, update, size_mod, arith,
}
use boost_green_thread.Future.SharedState.{Exn}
use boost_green_thread.Future.Waiting.Settle.{value, exception}
use boost_green_thread.Base.Counts.{refs, refs-update, refs_none, refs-le, refs_one}
use boost_green_thread.Future.Handles.Heap.{
  Kind, promise, future, shared_future, Store, create, get_future, move_construct, move_assign,
  copy_construct, copy_assign, swap, destroy, provide,
}

abbrev pub is_promise : Kind → Bool
is_promise promise = true
is_promise _ = false

abbrev pub any_kind : ℕ → Bool
any_kind _ = true

abbrev pub owner : (ℕ → Kind) → ℕ → Bool
owner kind h = is_promise (kind h)

module _ {ℓ} {R E : Type ℓ} (n : ℕ) (kind : ℕ → Kind) (small : n < size_mod) where
  pub record Inv (s : Store R E) : Type ℓ where
    pub bounded : (h p : ℕ) → points_to (s.state h) p ≡ true → (h < n) × (p < s.heap.next)
    pub counted : (p : ℕ) → p < s.heap.next → s.heap.use_count p ≡ refs any_kind n s.state p
    pub kept : (p : ℕ) → p < s.heap.next → s.heap.freed p ≡ true → s.heap.use_count p ≡ 0
    pub gone : (p : ℕ) → p < s.heap.next → s.heap.use_count p ≡ 0 → s.heap.freed p ≡ true
    pub single : (p : ℕ) → refs (owner kind) n s.state p ≤ 1
    pub owned :
        (p : ℕ)
        → p < s.heap.next
        → (s.heap.shared p).ready ≡ false
        → 0 < refs (owner kind) n s.state p

  module _ {s : Store R E} (v : Inv s) where
    open v use {bounded, counted, kept, gone, single, owned}

    next_refs : (w : ℕ → Bool) → refs w n s.state s.heap.next ≡ 0
    next_refs w = refs_none w n s.state s.heap.next (λ h. ground (arith, bounded h s.heap.next))

    pub create-Inv : (a : ℕ) → a < n → kind a ≡ promise → s.state a ≡ none → Inv (create a s)
    unfolding create
    create-Inv a h k e =
        let moved = λ (w : ℕ → Bool) (p : ℕ). refs-update w n s.state a (some s.heap.next) p in
        record {
          bounded = λ b p q. ground (arith, bounded b p);
          counted = λ p q. ground (arith, counted p, moved any_kind p, next_refs any_kind);
          kept = λ p q r. ground (arith, kept p);
          gone = λ p q r. ground (arith, gone p);
          single = λ p. ground (arith, single p, moved (owner kind) p, next_refs (owner kind));
          owned = λ p q r. ground (arith, owned p, moved (owner kind) p);
        }

    pub get_future-Inv :
        (a b : ℕ) → a < n → b < n → kind b ≡ future → s.state b ≡ none → Inv (get_future a b s)
    unfolding get_future
    get_future-Inv a b h l k e =
        let moved = λ (w : ℕ → Bool) (p : ℕ). refs-update w n s.state b (s.state a) p in
        record {
          bounded = λ c p q. ground (arith, bounded c p, bounded a p);
          counted = λ p q. ground (
            arith,
            counted p,
            moved any_kind p,
            refs-le any_kind n (update s.state b (s.state a)) p,
          );
          kept = λ p q r. ground (arith, kept p, counted p, refs_one any_kind n s.state p a);
          gone = λ p q r. ground (
            arith,
            gone p,
            counted p,
            moved any_kind p,
            refs-le any_kind n (update s.state b (s.state a)) p,
          );
          single = λ p. ground (arith, single p, moved (owner kind) p);
          owned = λ p q r. ground (arith, owned p, moved (owner kind) p);
        }

    pub move_construct-Inv :
        (a b : ℕ)
        → a < n
        → b < n
        → (kind a ≡ kind b) ⊎ ((kind a ≡ future) × (kind b ≡ shared_future))
        → s.state b ≡ none
        → Inv (move_construct a b s)
    unfolding move_construct
    move_construct-Inv a b h l k e =
        let one = λ (w : ℕ → Bool) (p : ℕ). refs-update w n s.state b (s.state a) p in
        let two =
          λ (w : ℕ → Bool) (p : ℕ). refs-update w n (update s.state b (s.state a)) a none p in
        record {
          bounded = λ c p q. ground (arith, bounded c p, bounded a p);
          counted = λ p q. ground (arith, counted p, one any_kind p, two any_kind p);
          kept = kept;
          gone = gone;
          single = λ p. ground (arith, single p, one (owner kind) p, two (owner kind) p);
          owned = λ p q r. ground (arith, owned p, one (owner kind) p, two (owner kind) p);
        }

    pub swap-Inv : (a b : ℕ) → a < n → b < n → kind a ≡ kind b → Inv (swap a b s)
    unfolding swap
    swap-Inv a b h l k =
        let one = λ (w : ℕ → Bool) (p : ℕ). refs-update w n s.state a (s.state b) p in
        let two = λ (w : ℕ → Bool) (p : ℕ).
          refs-update w n (update s.state a (s.state b)) b (s.state a) p in
        record {
          bounded = λ c p q. ground (arith, bounded c p, bounded a p, bounded b p);
          counted = λ p q. ground (arith, counted p, one any_kind p, two any_kind p);
          kept = kept;
          gone = gone;
          single = λ p. ground (arith, single p, one (owner kind) p, two (owner kind) p);
          owned = λ p q r. ground (arith, owned p, one (owner kind) p, two (owner kind) p);
        }

    pub copy_construct-Inv :
        (a b : ℕ)
        → a < n
        → b < n
        → kind a ≡ shared_future
        → kind b ≡ shared_future
        → s.state b ≡ none
        → Inv (copy_construct a b s)
    unfolding copy_construct
    copy_construct-Inv a b h l k j e =
        let one = λ (w : ℕ → Bool) (p : ℕ). refs-update w n s.state b (s.state a) p in
        record {
          bounded = λ c p q. ground (arith, bounded c p, bounded a p);
          counted = λ p q. ground (
            arith,
            counted p,
            one any_kind p,
            refs-le any_kind n (update s.state b (s.state a)) p,
          );
          kept = λ p q r. ground (arith, kept p, counted p, refs_one any_kind n s.state p a);
          gone = λ p q r. ground (
            arith,
            gone p,
            counted p,
            one any_kind p,
            refs-le any_kind n (update s.state b (s.state a)) p,
          );
          single = λ p. ground (arith, single p, one (owner kind) p);
          owned = λ p q r. ground (arith, owned p, one (owner kind) p);
        }

    pub destroy-Inv : (a : ℕ) → a < n → Inv (destroy (kind a) a s)
    unfolding destroy
    destroy-Inv a h =
        let one = λ (w : ℕ → Bool) (p : ℕ). refs-update w n s.state a none p in
        record {
          bounded = λ c p q. ground (arith, bounded c p);
          counted = λ p q. ground (arith, counted p, one any_kind p, refs-le any_kind n s.state p);
          kept = λ p q r.
              ground (arith, kept p, counted p, refs_one any_kind n s.state p a, one any_kind p);
          gone = λ p q r.
              ground (arith, gone p, counted p, one any_kind p, refs-le any_kind n s.state p);
          single = λ p. ground (arith, single p, one (owner kind) p);
          owned = λ p q r. ground (arith, owned p, one (owner kind) p);
        }

    pub provide_value-Inv : (a : ℕ) (v : R) → Inv (provide a (value v) s)
    unfolding provide
    provide_value-Inv a v = record {
      bounded = λ c p q. ground (arith, bounded c p);
      counted = λ p q. ground (arith, counted p);
      kept = λ p q r. ground (arith, kept p);
      gone = λ p q r. ground (arith, gone p);
      single = λ p. ground (arith, single p);
      owned = λ p q r. ground (arith, owned p);
    }

    pub provide_exception-Inv : (a : ℕ) (e : Exn E) → Inv (provide a (exception e) s)
    unfolding provide
    provide_exception-Inv a e = record {
      bounded = λ c p q. ground (arith, bounded c p);
      counted = λ p q. ground (arith, counted p);
      kept = λ p q r. ground (arith, kept p);
      gone = λ p q r. ground (arith, gone p);
      single = λ p. ground (arith, single p);
      owned = λ p q r. ground (arith, owned p);
    }

    pub move_assign-Inv :
        (a b : ℕ) → a < n → b < n → kind a ≡ kind b → Inv (move_assign (kind b) a b s)
    unfolding move_assign
    move_assign-Inv a b h l k =
        let taken = update s.state a none in
        let one = λ (w : ℕ → Bool) (p : ℕ). refs-update w n s.state a none p in
        let two = λ (w : ℕ → Bool) (p : ℕ). refs-update w n taken b (s.state a) p in
        record {
          bounded = λ c p q. ground (arith, bounded c p, bounded a p);
          counted = λ p q.
              ground
                (arith, counted p, one any_kind p, two any_kind p, refs-le any_kind n s.state p);
          kept = λ p q r. ground (
            arith,
            kept p,
            counted p,
            refs_one any_kind n s.state p b,
            one any_kind p,
            two any_kind p,
          );
          gone = λ p q r. ground (
            arith,
            gone p,
            counted p,
            one any_kind p,
            two any_kind p,
            refs-le any_kind n s.state p,
          );
          single = λ p. ground (arith, single p, one (owner kind) p, two (owner kind) p);
          owned = λ p q r. ground (arith, owned p, one (owner kind) p, two (owner kind) p);
        }

    pub copy_assign-Inv :
        (a b : ℕ)
        → a < n
        → b < n
        → kind a ≡ shared_future
        → kind b ≡ shared_future
        → Inv (copy_assign a b s)
    unfolding copy_assign
    copy_assign-Inv a b h l k j =
        let one = λ (w : ℕ → Bool) (p : ℕ). refs-update w n s.state b (s.state a) p in
        record {
          bounded = λ c p q. ground (arith, bounded c p, bounded a p);
          counted = λ p q. ground (
            arith,
            counted p,
            one any_kind p,
            refs-le any_kind n (update s.state b (s.state a)) p,
            refs-le any_kind n s.state p,
          );
          kept = λ p q r. ground (
            arith,
            kept p,
            counted p,
            refs_one any_kind n s.state p a,
            refs_one any_kind n s.state p b,
            one any_kind p,
            refs-le any_kind n s.state p,
          );
          gone = λ p q r. ground (
            arith,
            gone p,
            counted p,
            one any_kind p,
            refs-le any_kind n s.state p,
            refs-le any_kind n (update s.state b (s.state a)) p,
          );
          single = λ p. ground (arith, single p, one (owner kind) p);
          owned = λ p q r. ground (arith, owned p, one (owner kind) p);
        }
