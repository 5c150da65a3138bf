-- ===== src/Mutex/Timed/Invariant.antt =====
-- What holds in every reachable state of threads that share one `timed_mutex`.
use boost_green_thread.Base.{
  ℕ, Bool, true, false, Option, none, some, [], ◌≡◌, ◌≢◌, refl, ◌⊎◌, inl, inr, List-cases, contains,
  arith,
}
use boost_green_thread.Mutex.Items.{
  entry, Distinct, entry-append_one, append_one-Distinct, entry-erase, erase-nil, erase-Distinct,
}
use boost_green_thread.Mutex.Timed.{
  lock, unlock, try_lock, try_lock_rel, try_lock_rel_result, timeout_handler,
}
use boost_green_thread.Mutex.Timed.Waits.{
  Pc, outside, blocked, waiting, inside, Timer, off, armed, posted, System, runs, call_lock,
  call_try_lock, call_try_lock_rel, call_unlock, expire, run_handler, run_on, interrupted, Step,
  locks, tries, tries_rel, unlocks, expires, handles, wakes, interrupts, Reach, start, later,
}

-- What the place of thread `i` says of its item `e`, its timer, its resumption, and the owner.
-- Only a thread that has been interrupted owns the mutex outside the section.
abbrev pub Place : Bool → ℕ → Option ℕ → Pc → Option (Option ℕ) → Timer → Bool → Type 0
Place b i owner outside e t r =
    (e ≡ none) × (t ≡ off) × (r ≡ false) × ((b ≡ true) ⊎ (owner ≢ some i))
Place b i owner inside e t r = (e ≡ none) × (t ≡ off) × (r ≡ false) × (owner ≡ some i)
Place b i owner blocked e t r =
    (t ≡ off)
    × (((e ≡ some none) × (r ≡ false) × (owner ≢ some i))
        ⊎ ((e ≡ none) × (r ≡ true) × (owner ≡ some i)))
Place b i owner waiting e t r =
    ((e ≡ some (some i)) × (t ≢ off) × (r ≡ false) × (owner ≢ some i))
    ⊎ ((e ≡ none) × (t ≡ posted) × (r ≡ false) × (owner ≡ some i))
    ⊎ ((e ≡ none) × (t ≡ off) × (r ≡ true))

abbrev pub PlaceIn : Bool → System → ℕ → Type 0
PlaceIn b s i = Place b i s.mutex.owner (s.pc i) (entry s.mutex.suspended i) (s.timer i) (s.ready i)

pub record Inv (b : Bool) (s : System) : Type 0 where
  pub place : (i : ℕ) → PlaceIn b s i
  pub distinct : Distinct s.mutex.suspended
  pub free : s.mutex.owner ≡ none → s.mutex.suspended ≡ []

module _ {b : Bool} {s : System} (v : Inv b s) (i : ℕ) where
  open v use {place, distinct, free}

  call_lock-Inv : runs (s.pc i) ≡ true → Inv b (call_lock s i)
  unfolding call_lock lock entry
  call_lock-Inv r = record {
    place = λ j. ground (
      arith,
      place i,
      place j,
      free,
      entry-append_one s.mutex.suspended (record { thread = i; timer = none }) j,
    );
    distinct = ground (
      arith,
      distinct,
      place i,
      append_one-Distinct s.mutex.suspended (record { thread = i; timer = none }),
    );
    free = ground (arith, free);
  }

  call_try_lock-Inv : runs (s.pc i) ≡ true → Inv b (call_try_lock s i)
  unfolding call_try_lock try_lock entry
  call_try_lock-Inv r = record {
    place = λ j. ground (arith, place i, place j, free);
    distinct = ground (arith, distinct);
    free = ground (arith, free);
  }

  call_try_lock_rel-Inv : runs (s.pc i) ≡ true → Inv b (call_try_lock_rel s i)
  unfolding call_try_lock_rel try_lock_rel entry
  call_try_lock_rel-Inv r = record {
    place = λ j. ground (
      arith,
      place i,
      place j,
      free,
      entry-append_one s.mutex.suspended (record { thread = i; timer = some i }) j,
    );
    distinct = ground (
      arith,
      distinct,
      place i,
      append_one-Distinct s.mutex.suspended (record { thread = i; timer = some i }),
    );
    free = ground (arith, free);
  }

  call_unlock_place : runs (s.pc i) ≡ true → (j : ℕ) → PlaceIn b (call_unlock s i) j
  unfolding call_unlock unlock entry contains
  call_unlock_place r j = elim (List-cases s.mutex.suspended) [
    | inl none_waits ↦ ground (arith, place i, place j)
    | inr (f, rest, e) ↦ ground (arith, place i, place j, place f.thread, distinct)
  ]

  call_unlock-Inv : runs (s.pc i) ≡ true → Inv b (call_unlock s i)
  unfolding call_unlock unlock entry contains
  call_unlock-Inv r = record {
    place = call_unlock_place r;
    distinct = ground (arith, distinct);
    free = ground (arith, free);
  }

  expire-Inv : s.timer i ≡ armed → Inv b (expire s i)
  unfolding expire
  expire-Inv e = record {
    place = λ j. ground (arith, place i, place j);
    distinct = distinct;
    free = free;
  }

  run_handler-Inv : s.timer i ≡ posted → Inv b (run_handler s i)
  unfolding run_handler timeout_handler contains
  run_handler-Inv e = record {
    place = λ j. ground (arith, place i, place j, entry-erase s.mutex.suspended i j);
    distinct = ground (arith, distinct, erase-Distinct s.mutex.suspended i);
    free = ground (arith, free, erase-nil i);
  }

  run_on-Inv : s.ready i ≡ true → Inv b (run_on s i)
  unfolding run_on try_lock_rel_result
  run_on-Inv e = record {
    place = λ j. ground (arith, place i, place j);
    distinct = distinct;
    free = free;
  }

  interrupted-Inv : b ≡ true → s.ready i ≡ true → Inv b (interrupted s i)
  unfolding interrupted
  interrupted-Inv may e = record {
    place = λ j. ground (arith, place i, place j);
    distinct = distinct;
    free = free;
  }

pub Step-Inv : {b : Bool} {s t : System} → Step b s t → Inv b s → Inv b t
Step-Inv (locks i r) v = call_lock-Inv v i r
Step-Inv (tries i r) v = call_try_lock-Inv v i r
Step-Inv (tries_rel i r) v = call_try_lock_rel-Inv v i r
Step-Inv (unlocks i r) v = call_unlock-Inv v i r
Step-Inv (expires i e) v = expire-Inv v i e
Step-Inv (handles i e) v = run_handler-Inv v i e
Step-Inv (wakes i e) v = run_on-Inv v i e
Step-Inv (interrupts i may e) v = interrupted-Inv v i may e

pub Reach-Inv : {b : Bool} {s : System} → Reach b s → Inv b s
unfolding entry
Reach-Inv start = record {
  place = λ i. (refl, refl, refl, inr (λ e. cc));
  distinct = tt;
  free = λ _. refl;
}
Reach-Inv (later r st) = Step-Inv st (Reach-Inv r)
