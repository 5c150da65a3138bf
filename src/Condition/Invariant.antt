-- ===== src/Condition/Invariant.antt =====
-- What holds in every reachable state of threads that wait on one condition variable.
use boost_green_thread.Base.{
  ℕ, Bool, true, false, Option, none, some, List, [], ◌∷◌, ◌++◌, List-cases, ◌≡◌, refl, ◌⊎◌, inl,
  inr, ◌==◌, if◌then◌else◌, contains, arith,
}
use boost_green_thread.Mutex.Plain.{Mutex}
use boost_green_thread.Condition.{Item, CvStatus, no_timeout, timeout, erase, notify_all}
use boost_green_thread.Condition.Waits.{
  Pc, away, waiting, timed, Timer, off, armed, expired, cancelled, System, posted, call_wait,
  call_wait_rel, call_notify_one, call_notify_all, expire, run_handler, run_on, Step, waits,
  waits_rel, notifies_one, notifies_all, expires, handles, wakes, Reach, start, later,
}

-- The timer field of the first item of thread `i`.
unfoldable pub entry : List Item → ℕ → Option (Option ℕ)
entry [] i = none
entry (x ∷ xs) i = if x.thread == i then some x.timer else entry xs i

abbrev pub Distinct : List Item → Type 0
Distinct [] = Unit {0}
Distinct (x ∷ xs) = (entry xs x.thread ≡ none) × Distinct xs

-- A timer is its own thread's.
abbrev pub Own : List Item → Type 0
Own [] = Unit {0}
Own (x ∷ xs) = ((x.timer ≡ none) ⊎ (x.timer ≡ some x.thread)) × Own xs

pub entry-append_one :
    (xs : List Item) (a : Item) (i : ℕ)
    → entry xs a.thread ≡ none
    → entry (xs ++ a ∷ []) i ≡ (if a.thread == i then some a.timer else entry xs i)
unfolding entry
entry-append_one [] a i h = ground arith
entry-append_one (x ∷ xs) a i h = ground (arith, entry-append_one xs a i)

pub append_one-Distinct :
    (xs : List Item) (a : Item) → Distinct xs → entry xs a.thread ≡ none → Distinct (xs ++ a ∷ [])
unfolding entry
append_one-Distinct [] a d h = (refl, tt)
append_one-Distinct (x ∷ xs) a d h =
    (ground (arith, entry-append_one xs a x.thread), append_one-Distinct xs a d.1 (ground arith))

entry-erase :
    (xs : List Item) (i j : ℕ)
    → Distinct xs
    → entry (erase xs i) j ≡ (if i == j then none else entry xs j)
unfolding entry erase
entry-erase [] i j d = ground arith
entry-erase (x ∷ xs) i j d = ground (arith, entry-erase xs i j)

erase-Distinct : (xs : List Item) (i : ℕ) → Distinct xs → Distinct (erase xs i)
unfolding entry erase
erase-Distinct [] i d = tt
erase-Distinct (x ∷ xs) i d = ground (arith, erase-Distinct xs i, entry-erase xs i x.thread)

-- What the place of thread `i` says of its item `e`, its timer, its resumption, its status, and
-- whether it has been notified.
abbrev pub Place : ℕ → Pc → Option (Option ℕ) → Timer → Bool → CvStatus → Bool → Type 0
Place i away e t r ret n = (e ≡ none) × (t ≡ off) × (r ≡ false)
Place i waiting e t r ret n =
    (t ≡ off)
    × (((e ≡ some none) × (r ≡ false) × (n ≡ false)) ⊎ ((e ≡ none) × (r ≡ true) × (n ≡ true)))
Place i timed e t r ret n =
    ((e ≡ some (some i))
      × ((t ≡ armed) ⊎ (t ≡ expired))
      × (r ≡ false)
      × (n ≡ false)
      × (ret ≡ no_timeout))
    ⊎ ((e ≡ none)
        × ((t ≡ cancelled) ⊎ (t ≡ expired))
        × (r ≡ false)
        × (n ≡ true)
        × (ret ≡ no_timeout))
    ⊎ ((e ≡ none) × (t ≡ off) × (r ≡ true) × ((n ≡ true) ⊎ (ret ≡ timeout)))

abbrev pub PlaceIn : System → ℕ → Type 0
PlaceIn s i = Place i (s.pc i) (entry s.queue i) (s.timer i) (s.ready i) (s.status i) (s.notified i)

pub record Inv (s : System) : Type 0 where
  pub place : (i : ℕ) → PlaceIn s i
  pub distinct : Distinct s.queue
  pub own : Own s.queue

abbrev pub is_plain : Option (Option ℕ) → Bool
is_plain (some none) = true
is_plain _ = false

abbrev pub is_timed : Option (Option ℕ) → Bool
is_timed (some (some t)) = true
is_timed _ = false

pub notify_all_queue : (q : List Item) → (notify_all q).suspended ≡ []
unfolding notify_all
notify_all_queue [] = refl
notify_all_queue (x ∷ xs) = ground (arith, notify_all_queue xs)

-- The items without a timer are resumed, and the timers of the others cancelled.
pub notify_all_resumed :
    (q : List Item) (i : ℕ) → Distinct q → contains (notify_all q).resumed i ≡ is_plain (entry q i)
unfolding notify_all contains entry
notify_all_resumed [] i d = refl
notify_all_resumed (x ∷ xs) i d = ground (arith, notify_all_resumed xs i)

pub notify_all_cancelled :
    (q : List Item) (i : ℕ)
    → Distinct q
    → Own q
    → contains (notify_all q).cancelled i ≡ is_timed (entry q i)
unfolding notify_all contains entry
notify_all_cancelled [] i d o = refl
notify_all_cancelled (x ∷ xs) i d o = ground (arith, notify_all_cancelled xs i)

append_one-Own :
    (xs : List Item) (a : Item)
    → Own xs
    → (a.timer ≡ none) ⊎ (a.timer ≡ some a.thread)
    → Own (xs ++ a ∷ [])
append_one-Own [] a o h = (h, tt)
append_one-Own (x ∷ xs) a o h = (o.0, append_one-Own xs a o.1 h)

erase-Own : (xs : List Item) (i : ℕ) → Own xs → Own (erase xs i)
unfolding erase
erase-Own [] i o = tt
erase-Own (x ∷ xs) i o = ground (arith, erase-Own xs i)

module _ {s : System} (v : Inv s) where
  open v use {place, distinct, own}

  call_wait-Inv : (m : Mutex) (a i : ℕ) → s.pc i ≡ away → Inv (call_wait s m a i)
  unfolding call_wait entry
  call_wait-Inv m a i e =
      let x : Item = record { mutex = a; thread = i; timer = none } in
      record {
        place = λ j. ground (arith, place i, place j, entry-append_one s.queue x j);
        distinct = ground (arith, distinct, place i, append_one-Distinct s.queue x);
        own = ground (arith, own, append_one-Own s.queue x);
      }

  call_wait_rel-Inv : (m : Mutex) (a i : ℕ) → s.pc i ≡ away → Inv (call_wait_rel s m a i)
  unfolding call_wait_rel entry
  call_wait_rel-Inv m a i e =
      let x : Item = record { mutex = a; thread = i; timer = some i } in
      record {
        place = λ j. ground (arith, place i, place j, entry-append_one s.queue x j);
        distinct = ground (arith, distinct, place i, append_one-Distinct s.queue x);
        own = ground (arith, own, append_one-Own s.queue x);
      }

  call_notify_one-Inv : Inv (call_notify_one s)
  unfolding call_notify_one entry
  call_notify_one-Inv = elim (List-cases s.queue) [
    | inl none_waits ↦ record {
      place = λ j. ground (arith, place j);
      distinct = ground (arith, distinct);
      own = ground (arith, own);
    }
    | inr (f, rest, e) ↦ record {
      place = λ j. ground (arith, place j, place f.thread, distinct, own);
      distinct = ground (arith, distinct);
      own = ground (arith, own);
    }
  ]

  call_notify_all-Inv : Inv (call_notify_all s)
  unfolding call_notify_all entry
  call_notify_all-Inv = record {
    place = λ j. ground (
      arith,
      place j,
      notify_all_queue s.queue,
      notify_all_resumed s.queue j distinct,
      notify_all_cancelled s.queue j distinct own,
    );
    distinct = ground (arith, notify_all_queue s.queue);
    own = ground (arith, notify_all_queue s.queue);
  }

  expire-Inv : (i : ℕ) → s.timer i ≡ armed → Inv (expire s i)
  unfolding expire
  expire-Inv i e = record {
    place = λ j. ground (arith, place i, place j);
    distinct = distinct;
    own = own;
  }

  run_handler-Inv : (i : ℕ) → posted (s.timer i) ≡ true → Inv (run_handler s i)
  unfolding run_handler
  run_handler-Inv i e = record {
    place = λ j. ground (arith, place i, place j, entry-erase s.queue i j, distinct);
    distinct = ground (arith, distinct, erase-Distinct s.queue i);
    own = ground (arith, own, erase-Own s.queue i);
  }

  run_on-Inv : (i : ℕ) → s.ready i ≡ true → Inv (run_on s i)
  unfolding run_on
  run_on-Inv i e = record {
    place = λ j. ground (arith, place i, place j);
    distinct = distinct;
    own = own;
  }

pub Step-Inv : {s t : System} → Step s t → Inv s → Inv t
Step-Inv (waits m a i e) v = call_wait-Inv v m a i e
Step-Inv (waits_rel m a i e) v = call_wait_rel-Inv v m a i e
Step-Inv notifies_one v = call_notify_one-Inv v
Step-Inv notifies_all v = call_notify_all-Inv v
Step-Inv (expires i e) v = expire-Inv v i e
Step-Inv (handles i e) v = run_handler-Inv v i e
Step-Inv (wakes i e) v = run_on-Inv v i e

pub Reach-Inv : {s : System} → Reach s → Inv s
unfolding entry
Reach-Inv start = record { place = λ i. (refl, refl, refl); distinct = tt; own = tt }
Reach-Inv (later r st) = Step-Inv st (Reach-Inv r)
