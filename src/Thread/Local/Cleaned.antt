-- ===== src/Thread/Local/Cleaned.antt =====
-- How often an object is cleaned up.
use boost_green_thread.Base.{
  ℕ, suc, ◌+◌, ◌<◌, ◌≤◌, Bool, true, false, Option, Option-cases, none, some, List, [], ◌∷◌, ◌++◌,
  points_to, ◌≡◌, ◌≢◌, refl, arith,
}
use boost_green_thread.Thread.Object.{TssValue, tss_cleanups}
use boost_green_thread.Thread.Tss.{lookup, insert, erase, cleans, set_tss_data, get_tss_data}
use boost_green_thread.Thread.Local.{
  Storage, set, get, reset, release, destroy, cleaned, exit, Step, resets, clears, destroys, Reach,
  start, later,
}

abbrev one_if : Bool → ℕ
one_if true = 1
one_if false = 0

-- How often the object `p` stands in a log, and in a map.
unfoldable pub times : ℕ → List (ℕ × Option ℕ) → ℕ
times p [] = 0
times p ((f, x) ∷ l) = one_if (points_to x p) + times p l

unfoldable pub holds : ℕ → List (ℕ × TssValue) → ℕ
holds p [] = 0
holds p ((k, v) ∷ m) = one_if (points_to v.value p) + holds p m

-- Every entry has a clean-up function.
abbrev pub Armed : List (ℕ × TssValue) → Type 0
Armed [] = Unit {0}
Armed ((k, v) ∷ m) = (v.func ≢ none) × Armed m

abbrev has : ℕ → Option TssValue → ℕ
has p none = 0
has p (some v) = one_if (points_to v.value p)

times-append : (p : ℕ) (a b : List (ℕ × Option ℕ)) → times p (a ++ b) ≡ times p a + times p b
unfolding times
times-append p [] b = omega arith
times-append p ((f, x) ∷ a) b = omega (arith, times-append p a b)

holds-insert :
    (p k : ℕ) (v : TssValue) (m : List (ℕ × TssValue))
    → holds p (insert k v m) + has p (lookup k m) ≡ holds p m + one_if (points_to v.value p)
unfolding holds insert lookup
holds-insert p k v [] = omega arith
holds-insert p k v ((j, w) ∷ m) = ground (arith, holds-insert p k v m)

holds-erase :
    (p k : ℕ) (m : List (ℕ × TssValue)) → holds p (erase k m) + has p (lookup k m) ≡ holds p m
unfolding holds erase lookup
holds-erase p k [] = omega arith
holds-erase p k ((j, w) ∷ m) = ground (arith, holds-erase p k m)

insert-Armed :
    (k : ℕ) (v : TssValue) (m : List (ℕ × TssValue))
    → v.func ≢ none
    → Armed m
    → Armed (insert k v m)
unfolding insert
insert-Armed k v [] f a = (f, tt)
insert-Armed k v ((j, w) ∷ m) f a = ground (arith, insert-Armed k v m f)

erase-Armed : (k : ℕ) (m : List (ℕ × TssValue)) → Armed m → Armed (erase k m)
unfolding erase
erase-Armed k [] a = tt
erase-Armed k ((j, w) ∷ m) a = ground (arith, erase-Armed k m)

-- What is cleaned up is what the entry held.
times-cleans :
    (p k : ℕ) (m : List (ℕ × TssValue))
    → Armed m
    → times p (cleans (lookup k m)) ≡ has p (lookup k m)
unfolding times lookup
times-cleans p k [] a = refl
times-cleans p k ((j, w) ∷ m) a = ground (arith, times-cleans p k m)

times-exit :
    (p : ℕ) (m : List (ℕ × TssValue)) → Armed m → times p (cleaned (tss_cleanups m)) ≡ holds p m
unfolding times holds
times-exit p [] a = refl
times-exit p ((k, v) ∷ m) a =
    ground (arith, times-exit p m, Option-cases v.func, Option-cases v.value)

abbrev pub total : ℕ → Storage → ℕ
total p s = times p s.log + holds p s.fss

set-total :
    (p k f : ℕ) (value : Option ℕ) (s : Storage)
    → Armed s.fss
    → (total p (set k (some f) value true s) ≡ total p s + one_if (points_to value p))
      × Armed (set k (some f) value true s).fss
unfolding set_tss_data
set-total p k f value s a =
    let v : TssValue = record { func = some f; value = value } in
    (
      ground (
        arith,
        times-append p s.log (cleans (lookup k s.fss)),
        times-cleans p k s.fss a,
        holds-insert p k v s.fss,
      ),
      insert-Armed k v s.fss (ground arith) a,
    )

clear-total :
    (p k : ℕ) (b : Bool) (s : Storage)
    → Armed s.fss
    → (total p (set k none none b s) ≡ total p s) × Armed (set k none none b s).fss
unfolding set_tss_data
clear-total p k b s a = (
  ground (
    arith,
    times-append p s.log (cleans (lookup k s.fss)),
    times-cleans p k s.fss a,
    holds-erase p k s.fss,
  ),
  erase-Armed k s.fss a,
)

record Inv (s : Storage) : Type 0 where
  armed : Armed s.fss
  one : (p : ℕ) → p < s.next → total p s ≡ 1
  unused : (p : ℕ) → s.next ≤ p → total p s ≡ 0

held :
    (key p : ℕ) (m : List (ℕ × TssValue)) → holds p m ≡ 0 → points_to (get_tss_data key m) p ≡ false
unfolding holds get_tss_data lookup
held key p [] z = refl
held key p ((j, w) ∷ m) z = ground (arith, held key p m)

get_held : (key p : ℕ) (s : Storage) → total p s ≡ 0 → points_to (get key s) p ≡ false
unfolding get get_tss_data
get_held key p s z = ground (arith, held key p s.fss)

resets-Inv :
    (key func : ℕ) (s : Storage)
    → Inv s
    → Inv (reset key (some func) (some s.next) (record s { next = suc s.next }))
unfolding reset
resets-Inv key func s v =
    let t : Storage = record s { next = suc s.next } in
    let new = get_held key s.next s (v.unused s.next (omega arith)) in
    record {
      armed = ground (arith, v.armed, set-total 0 key func (some s.next) t v.armed);
      one = λ p h.
          ground (arith, set-total p key func (some s.next) t v.armed, v.one p, v.unused p, new);
      unused = λ p h. ground (arith, set-total p key func (some s.next) t v.armed, v.unused p, new);
    }

clears-Inv : (key func : ℕ) (s : Storage) → Inv s → Inv (reset key (some func) none s)
unfolding reset
clears-Inv key func s v = record {
  armed = ground (arith, v.armed, set-total 0 key func none s v.armed);
  one = λ p h. ground (arith, set-total p key func none s v.armed, v.one p);
  unused = λ p h. ground (arith, set-total p key func none s v.armed, v.unused p);
}

Step-Inv : {s t : Storage} → Step s t → Inv s → Inv t
unfolding release destroy
Step-Inv {s} (resets key func) v = resets-Inv key func s v
Step-Inv {s} (clears key func) v = clears-Inv key func s v
Step-Inv {s} (destroys key) v = record {
  armed = (clear-total 0 key true s v.armed).1;
  one = λ p h. ground (arith, clear-total p key true s v.armed, v.one p);
  unused = λ p h. ground (arith, clear-total p key true s v.armed, v.unused p);
}

Reach-Inv : {s : Storage} → Reach s → Inv s
unfolding times holds
Reach-Inv start = record { armed = tt; one = λ p h. absurd (omega arith); unused = λ p h. refl }
Reach-Inv (later r st) = Step-Inv st (Reach-Inv r)

-- Whatever a green thread does with its `thread_specific_ptr`s that have a clean-up function, by `reset`
-- and their destructors and without `release`, each object that it has handed to one of them, a new one
-- each time, has been cleaned up exactly once when the thread has ended, and never twice before.
pub cleaned_once :
    {s : Storage} (p : ℕ) → Reach s → p < s.next → (times p s.log ≤ 1) × (times p (exit s).log ≡ 1)
unfolding exit
cleaned_once {s} p r h =
    let v = Reach-Inv r in
    ground (
      arith,
      v.one p,
      times-append p s.log (cleaned (tss_cleanups s.fss)),
      times-exit p s.fss (Inv.armed v),
    )

-- `release` cleans up the object that it returns, which the caller is to own, although it asks
-- `set_tss_data` not to.
pub release_cleans :
    {s : Storage} (key p : ℕ)
    → Reach s
    → get key s ≡ some p
    → ((release key s).1 ≡ some p) × (times p (release key s).0.log ≡ 1)
unfolding release get get_tss_data set_tss_data
release_cleans {s} key p r e =
    let v = Reach-Inv r in
    ground (
      arith,
      e,
      v.one p,
      v.unused p,
      times-append p s.log (cleans (lookup key s.fss)),
      times-cleans p key s.fss (Inv.armed v),
      holds-erase p key s.fss,
    )
