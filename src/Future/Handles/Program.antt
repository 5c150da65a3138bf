-- ===== src/Future/Handles/Program.antt =====
-- Any program over `n` variables that are promises, futures and shared futures. A variable that does
-- not live, or is default-constructed, has a null pointer; a call on several variables is one step.
use boost_green_thread.Base.{ℕ, ◌<◌, false, none, ◌≡◌, ◌⊎◌}
use boost_green_thread.Future.SharedState.{Exn, fresh}
use boost_green_thread.Future.Waiting.Settle.{value, exception}
use boost_green_thread.Future.Handles.Heap.{
  Kind, promise, future, shared_future, Store, create, get_future, move_construct, move_assign,
  copy_construct, copy_assign, swap, destroy, provide,
}

module _ {ℓ} {R E : Type ℓ} where
  abbrev pub init : Store R E
  init = record {
    heap = record { next = 0; shared = λ _. fresh; use_count = λ _. 0; freed = λ _. false };
    state = λ _. none;
    obtained = λ _. false;
  }

module _ {ℓ} {R E : Type ℓ} (n : ℕ) (kind : ℕ → Kind) where
  pub data Step (s : Store R E) : Store R E → Type ℓ where
    creates : (a : ℕ) → a < n → kind a ≡ promise → s.state a ≡ none → Step s (create a s)
    gets_future :
        (a b : ℕ)
        → a < n
        → b < n
        → kind a ≡ promise
        → kind b ≡ future
        → s.state b ≡ none
        → Step s (get_future a b s)
    moves :
        (a b : ℕ)
        → a < n
        → b < n
        → (kind a ≡ kind b) ⊎ ((kind a ≡ future) × (kind b ≡ shared_future))
        → s.state b ≡ none
        → Step s (move_construct a b s)
    move_assigns : (a b : ℕ) → a < n → b < n → kind a ≡ kind b → Step s (move_assign (kind b) a b s)
    copies :
        (a b : ℕ)
        → a < n
        → b < n
        → kind a ≡ shared_future
        → kind b ≡ shared_future
        → s.state b ≡ none
        → Step s (copy_construct a b s)
    copy_assigns :
        (a b : ℕ)
        → a < n
        → b < n
        → kind a ≡ shared_future
        → kind b ≡ shared_future
        → Step s (copy_assign a b s)
    swaps : (a b : ℕ) → a < n → b < n → kind a ≡ kind b → Step s (swap a b s)
    destroys : (a : ℕ) → a < n → Step s (destroy (kind a) a s)
    sets_value : (a : ℕ) (v : R) → kind a ≡ promise → Step s (provide a (value v) s)
    sets_exception : (a : ℕ) (e : Exn E) → kind a ≡ promise → Step s (provide a (exception e) s)

  pub data Reach : Store R E → Type ℓ where
    start : Reach init
    later : {s t : Store R E} → Reach s → Step s t → Reach t
