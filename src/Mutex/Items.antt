-- ===== src/Mutex/Items.antt =====
-- `suspended_item` of the timed mutexes, and `std::find` and `erase` by thread.
use boost_green_thread.Base.{
  ℕ, Option, none, some, List, [], ◌∷◌, ◌++◌, ◌≡◌, refl, ◌==◌, if◌then◌else◌, arith,
}

pub record Item : Type 0 where
  pub thread : ℕ
  pub timer : Option ℕ

-- The timer field of the first item of thread `i`.
unfoldable pub entry : List Item → ℕ → Option (Option ℕ)
entry [] i = none
entry (x ∷ xs) i = if x.thread == i then some x.timer else entry xs i

-- `auto i=std::find(…); if (i!=suspended_.end()) suspended_.erase(i);`
unfoldable pub erase : List Item → ℕ → List Item
erase [] i = []
erase (x ∷ xs) i = if x.thread == i then xs else x ∷ erase xs i

abbrev pub Distinct : List Item → Type 0
Distinct [] = Unit {0}
Distinct (x ∷ xs) = (entry xs x.thread ≡ none) × Distinct xs

pub entry-append_one :
    (xs : List Item) (a : Item) (i : ℕ)
    → entry xs a.thread ≡ none
    → entry (xs ++ a ∷ []) i ≡ (if a.thread == i then some a.timer else entry xs i)
unfolding entry
entry-append_one [] a i h = ground arith
entry-append_one (x ∷ xs) a i h = ground (arith, entry-append_one xs a i)

pub append_one-Distinct :
    (xs : List Item) (a : Item) → Distinct xs → entry xs a.thread ≡ none → Distinct (xs ++ a ∷ [])
unfolding entry
append_one-Distinct [] a d h = (refl, tt)
append_one-Distinct (x ∷ xs) a d h =
    (ground (arith, entry-append_one xs a x.thread), append_one-Distinct xs a d.1 (ground arith))

pub entry-erase :
    (xs : List Item) (i j : ℕ)
    → Distinct xs
    → entry (erase xs i) j ≡ (if i == j then none else entry xs j)
unfolding entry erase
entry-erase [] i j d = ground arith
entry-erase (x ∷ xs) i j d = ground (arith, entry-erase xs i j)

pub erase-Distinct : (xs : List Item) (i : ℕ) → Distinct xs → Distinct (erase xs i)
unfolding entry erase
erase-Distinct [] i d = tt
erase-Distinct (x ∷ xs) i d = ground (arith, erase-Distinct xs i, entry-erase xs i x.thread)

pub erase-nil : (i : ℕ) → erase [] i ≡ []
unfolding erase
erase-nil i = refl
