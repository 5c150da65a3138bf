-- ===== src/Thread/Tss.antt =====
-- `set_tss_data` and `get_tss_data` in a green thread: the map `fss_`.
use boost_green_thread.Base.{
  ℕ, Bool, true, false, ◌&&◌, Option, none, some, List, [], ◌∷◌, ◌≡◌, refl, ◌==◌, if◌then◌else◌,
  arith,
}
use boost_green_thread.Thread.Object.{TssValue}

unfoldable pub lookup : ℕ → List (ℕ × TssValue) → Option TssValue
lookup k [] = none
lookup k ((j, v) ∷ m) = if j == k then some v else lookup k m

unfoldable pub insert : ℕ → TssValue → List (ℕ × TssValue) → List (ℕ × TssValue)
insert k v [] = (k, v) ∷ []
insert k v ((j, w) ∷ m) = if j == k then (k, v) ∷ m else (j, w) ∷ insert k v m

unfoldable pub erase : ℕ → List (ℕ × TssValue) → List (ℕ × TssValue)
erase k [] = []
erase k ((j, w) ∷ m) = if j == k then m else (j, w) ∷ erase k m

-- The clean-up of the old entry: its function, if not null, with its data, which may be null.
abbrev pub cleans : Option TssValue → List (ℕ × Option ℕ)
cleans none = []
cleans (some v) = elim v.func [ none ↦ [] | some f ↦ (f, v.value) ∷ [] ]

abbrev pub is_null : Option ℕ → Bool
is_null none = true
is_null (some _) = false

-- The map after the call, and the clean-up that it has made.
unfoldable pub set_tss_data :
    ℕ → Option ℕ → Option ℕ → Bool → List (ℕ × TssValue) → List (ℕ × TssValue) × List (ℕ × Option ℕ)
set_tss_data key func value cleanup_existing m =
    if is_null func && is_null value then (erase key m, cleans (lookup key m)) else (
      insert key (record { func = func; value = value }) m,
      if cleanup_existing then cleans (lookup key m) else [],
    )

unfoldable pub get_tss_data : ℕ → List (ℕ × TssValue) → Option ℕ
get_tss_data key m = elim (lookup key m) [ none ↦ none | some v ↦ v.value ]

-- A key stands once.
abbrev pub Distinct : List (ℕ × TssValue) → Type 0
Distinct [] = Unit {0}
Distinct ((k, v) ∷ m) = (lookup k m ≡ none) × Distinct m

pub lookup-insert :
    (k j : ℕ) (v : TssValue) (m : List (ℕ × TssValue))
    → lookup j (insert k v m) ≡ (if k == j then some v else lookup j m)
unfolding lookup insert
lookup-insert k j v [] = ground arith
lookup-insert k j v ((i, w) ∷ m) = ground (arith, lookup-insert k j v m)

pub lookup-erase :
    (k j : ℕ) (m : List (ℕ × TssValue))
    → Distinct m
    → lookup j (erase k m) ≡ (if k == j then none else lookup j m)
unfolding lookup erase
lookup-erase k j [] d = ground arith
lookup-erase k j ((i, w) ∷ m) d = ground (arith, lookup-erase k j m)

pub insert-Distinct :
    (k : ℕ) (v : TssValue) (m : List (ℕ × TssValue)) → Distinct m → Distinct (insert k v m)
unfolding lookup insert
insert-Distinct k v [] d = (refl, tt)
insert-Distinct k v ((i, w) ∷ m) d = ground (arith, insert-Distinct k v m, lookup-insert k i v m)

pub erase-Distinct : (k : ℕ) (m : List (ℕ × TssValue)) → Distinct m → Distinct (erase k m)
unfolding lookup erase
erase-Distinct k [] d = tt
erase-Distinct k ((i, w) ∷ m) d = ground (arith, erase-Distinct k m, lookup-erase k i m)

-- What is set is read back, other keys are as before, and each key still stands once, whether the
-- call stores a value or, with two null pointers, removes the entry.
pub tss-round_trip :
    (key j : ℕ) (func value : Option ℕ) (b : Bool) (m : List (ℕ × TssValue))
    → Distinct m
    → let m' = (set_tss_data key func value b m).0 in
      (get_tss_data j m' ≡ (if key == j then value else get_tss_data j m)) × Distinct m'
unfolding set_tss_data get_tss_data
tss-round_trip key j func value b m d = ground (
  arith,
  lookup-insert key j (record { func = func; value = value }) m,
  lookup-erase key j m d,
  insert-Distinct key (record { func = func; value = value }) m d,
  erase-Distinct key m d,
)
