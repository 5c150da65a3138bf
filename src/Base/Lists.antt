-- ===== src/Base/Lists.antt =====
-- Lists of thread numbers: length, membership as a test, distinctness, position.
use Prim.Native.Nat.{ℕ, zero, suc, ◌+◌, ◌-◌}
use mathlib.Core.Path.{◌≡◌, refl, ap}
use mathlib.Core.Logic.{◌⊎◌, inl, inr}
use mathlib.Core.Bool.{Bool, true, false}
use mathlib.Core.List.{append_assoc, List, [], ◌∷◌, ◌++◌}
use native.Mathlib.Omega.{arith}
use boost_green_thread.Base.Tests.{◌==◌, if◌then◌else◌}

module _ {ℓ} {A : Type ℓ} where
  abbrev pub length : List A → ℕ
  length [] = 0
  length (x ∷ xs) = suc (length xs)

  pub length-append : (xs ys : List A) → length (xs ++ ys) ≡ length xs + length ys
  length-append [] ys = omega arith
  length-append (x ∷ xs) ys = omega (arith, length-append xs ys)

  abbrev pub take : ℕ → List A → List A
  take zero xs = []
  take (suc n) [] = []
  take (suc n) (x ∷ xs) = x ∷ take n xs

  abbrev pub drop : ℕ → List A → List A
  drop zero xs = xs
  drop (suc n) [] = []
  drop (suc n) (x ∷ xs) = drop n xs

  pub take-append-drop : (n : ℕ) (xs : List A) → take n xs ++ drop n xs ≡ xs
  take-append-drop zero xs = refl
  take-append-drop (suc n) [] = refl
  take-append-drop (suc n) (x ∷ xs) = ap (◌∷◌ x) (take-append-drop n xs)

  pub length-drop : (n : ℕ) (xs : List A) → length (drop n xs) ≡ length xs - n
  length-drop zero xs = omega arith
  length-drop (suc n) [] = omega arith
  length-drop (suc n) (x ∷ xs) = omega (arith, length-drop n xs)

  pub append-cons : (xs : List A) (y : A) (ys : List A) → (xs ++ y ∷ []) ++ ys ≡ xs ++ y ∷ ys
  append-cons xs y ys = append_assoc xs (y ∷ []) ys

  pub List-cases : (xs : List A) → (xs ≡ []) ⊎ ((x : A) × (rest : List A) × (xs ≡ x ∷ rest))
  List-cases [] = inl refl
  List-cases (x ∷ rest) = inr (x, rest, refl)

unfoldable pub contains : List ℕ → ℕ → Bool
contains [] i = false
contains (x ∷ xs) i = if x == i then true else contains xs i

abbrev pub Distinct : List ℕ → Type 0
Distinct [] = Unit {0}
Distinct (x ∷ xs) = (contains xs x ≡ false) × Distinct xs

pub contains-append_one :
    (xs : List ℕ) (a i : ℕ) → contains (xs ++ a ∷ []) i ≡ (if a == i then true else contains xs i)
unfolding contains
contains-append_one [] a i = ground arith
contains-append_one (x ∷ xs) a i = ground (arith, contains-append_one xs a i)

pub append_one-Distinct :
    (xs : List ℕ) (a : ℕ) → Distinct xs → contains xs a ≡ false → Distinct (xs ++ a ∷ [])
unfolding contains
append_one-Distinct [] a d h = (refl, tt)
append_one-Distinct (x ∷ xs) a d h =
    (ground (arith, contains-append_one xs a x), append_one-Distinct xs a d.1 (ground arith))

-- The number of entries in front of the first `i`.
unfoldable pub position : List ℕ → ℕ → ℕ
position [] i = 0
position (x ∷ xs) i = if x == i then 0 else suc (position xs i)

pub position-append_one :
    (xs : List ℕ) (a i : ℕ) → contains xs i ≡ true → position (xs ++ a ∷ []) i ≡ position xs i
unfolding contains position
position-append_one [] a i h = ground arith
position-append_one (x ∷ xs) a i h = ground (arith, position-append_one xs a i)
