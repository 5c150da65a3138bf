-- ===== src/Future/Waiting/Settle.antt =====
-- How another thread makes a shared state ready, and which waiters this calls.
use boost_green_thread.Base.{
  ℕ, Bool, true, false, Bool-cases, List, [], ◌∷◌, ◌≡◌, ◌⊎◌, inl, inr, refl, contains, ◌==◌,
  if◌then◌else◌, arith,
}
use boost_green_thread.Future.SharedState.{SharedState, Exn, Outcome}
use boost_green_thread.Future.SharedState

pub data Settle {ℓ} (R E : Type ℓ) : Type ℓ where
  value : R → Settle R E
  exception : Exn E → Settle R E
  destroyed : Settle R E

module _ {ℓ} {R E : Type ℓ} where
  abbrev pub settle : Settle R E → SharedState R E → Outcome R E
  settle (value v) s = SharedState.set_value v s
  settle (exception e) s = SharedState.set_exception e s
  settle destroyed s = SharedState.owner_destroyed s

-- `for(auto &w: ext_waiters_)`, where a waiter that throws is the last that is called.
unfoldable pub called_until : (ℕ → Bool) → List ℕ → List ℕ
called_until throws [] = []
called_until throws (w ∷ ws) =
    let rest = called_until throws ws in if throws w then w ∷ [] else w ∷ rest

-- Where no other waiter throws, a waiter is called if it is listed.
pub contains-called_until :
    (throws : ℕ → Bool) (ws : List ℕ) (i : ℕ)
    → ((j : ℕ) → contains ws j ≡ true → (j ≡ i) ⊎ (throws j ≡ false))
    → contains (called_until throws ws) i ≡ contains ws i
unfolding called_until contains
contains-called_until throws [] i calm = refl
contains-called_until throws (w ∷ ws) i calm = elim (Bool-cases (w == i)) [
  | inl q ↦ ground (arith, q)
  | inr q ↦
      ground (arith, calm w, contains-called_until throws ws i (λ j e. ground (arith, calm j, e)))
]

pub called_until-listed :
    (throws : ℕ → Bool) (ws : List ℕ) (i : ℕ)
    → contains (called_until throws ws) i ≡ true
    → contains ws i ≡ true
unfolding called_until contains
called_until-listed throws [] i e = e
called_until-listed throws (w ∷ ws) i e = ground (arith, e, called_until-listed throws ws i)
