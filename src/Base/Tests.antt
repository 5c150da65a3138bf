-- ===== src/Base/Tests.antt =====
-- Boolean tests on the native numbers and on optional numbers, and the conditional.
use Prim.Native.Nat.{ℕ, ◌+◌, ◌-◌, ◌%◌, ◌^◌, compare, Ordering}
use mathlib.Core.Path.{◌≡◌, refl}
use mathlib.Core.Logic.{◌⊎◌, inl, inr}
use mathlib.Core.Bool.{Bool, true, false}
use mathlib.Core.Option.{Option, none, some}

abbrev pub ltb : ℕ → ℕ → Bool
ltb a b = elim (compare a b) [ Ordering.lt ↦ true | _ ↦ false ]

abbrev pub leb : ℕ → ℕ → Bool
leb a b = elim (compare a b) [ Ordering.gt ↦ false | _ ↦ true ]

infix 50 ◌==◌
abbrev pub ◌==◌ : ℕ → ℕ → Bool
a == b = elim (compare a b) [ Ordering.eq ↦ true | _ ↦ false ]

infix 1 if◌then◌else◌
abbrev pub if◌then◌else◌ {ℓ} : {A : Type ℓ} → Bool → A → A → A
if true then x else y = x
if false then x else y = y

-- A pointer that may be null, compared with one that is not: `p == q`.
abbrev pub points_to : Option ℕ → ℕ → Bool
points_to none i = false
points_to (some j) i = j == i

pub Bool-cases : (b : Bool) → (b ≡ true) ⊎ (b ≡ false)
Bool-cases true = inl refl
Bool-cases false = inr refl

pub Option-cases {ℓ} : {A : Type ℓ} (o : Option A) → (o ≡ none) ⊎ ((a : A) × (o ≡ some a))
Option-cases none = inl refl
Option-cases (some a) = inr (a, refl)

-- `size_t` of a 64-bit platform, and its increment and decrement.
abbrev pub size_mod : ℕ
size_mod = 2 ^ 64

abbrev pub size_inc : ℕ → ℕ
size_inc n = (n + 1) % size_mod

abbrev pub size_dec : ℕ → ℕ
size_dec n = (n + size_mod - 1) % size_mod

-- `unsigned`, of 32 bits.
abbrev pub unsigned_mod : ℕ
unsigned_mod = 2 ^ 32

abbrev pub unsigned_inc : ℕ → ℕ
unsigned_inc n = (n + 1) % unsigned_mod

abbrev pub unsigned_dec : ℕ → ℕ
unsigned_dec n = (n + unsigned_mod - 1) % unsigned_mod
