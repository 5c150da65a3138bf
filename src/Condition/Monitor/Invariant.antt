-- ===== src/Condition/Monitor/Invariant.antt =====
-- What holds in every reachable state of threads that wait for a predicate.
use boost_green_thread.Base.{
  ℕ, Bool, true, false, Option, none, some, List, [], ◌∷◌, ◌≡◌, ◌≢◌, refl, ◌⊎◌, inl, inr, points_to,
  contains, contains-append_one, arith,
}
use boost_green_thread.Base
use boost_green_thread.Condition.{Item}
use boost_green_thread.Condition.Invariant.{
  entry, Distinct, entry-append_one, append_one-Distinct, notify_all_queue, notify_all_resumed,
}
use boost_green_thread.Condition.Monitor.{
  Pc, outside, locking, inside, deciding, queued, released, paused, Monitor, init, take, let_go,
  run_on, queue_up, look, assign, notify,
}
use boost_green_thread.Condition.Monitor.Steps.{
  Step, enters, leaves, runs_on, looks, queues, lets_go, comes_back, assigns, notifies, Reach,
  start, later,
}

-- What the place of a thread says of the mutex: whether it is the owner, whether it is in the queue,
-- whether it has been resumed.
abbrev pub AtMutex : Pc → Bool → Bool → Bool → Type 0
AtMutex outside o q r = (o ≡ false) × (q ≡ false) × (r ≡ false)
AtMutex locking o q r =
    ((o ≡ true) × (q ≡ false) × (r ≡ true)) ⊎ ((o ≡ false) × (q ≡ true) × (r ≡ false))
AtMutex inside o q r = (o ≡ true) × (q ≡ false) × (r ≡ false)
AtMutex deciding o q r = (o ≡ true) × (q ≡ false) × (r ≡ false)
AtMutex queued o q r = (o ≡ true) × (q ≡ false) × (r ≡ false)
AtMutex released o q r = (o ≡ false) × (q ≡ false) × (r ≡ false)
AtMutex paused o q r = (o ≡ false) × (q ≡ false) × (r ≡ false)

-- And of the condition variable: its item, and whether it has been resumed.
abbrev pub AtQueue : Pc → Option (Option ℕ) → Bool → Type 0
AtQueue queued e w = ((e ≡ some none) × (w ≡ false)) ⊎ ((e ≡ none) × (w ≡ true))
AtQueue paused e w = ((e ≡ some none) × (w ≡ false)) ⊎ ((e ≡ none) × (w ≡ true))
AtQueue _ e w = (e ≡ none) × (w ≡ false)

pub record Inv (s : Monitor) : Type 0 where
  pub at_mutex :
      (i : ℕ)
      → AtMutex (s.pc i) (points_to s.mutex.owner i) (contains s.mutex.suspended i) (s.ready i)
  pub at_queue : (i : ℕ) → AtQueue (s.pc i) (entry s.queue i) (s.woken i)
  pub lock_distinct : Base.Distinct s.mutex.suspended
  pub free : s.mutex.owner ≡ none → s.mutex.suspended ≡ []
  pub distinct : Distinct s.queue
  pub saw : (i : ℕ) → s.pc i ≡ deciding → s.pred ≡ false
  pub told : s.pred ≡ true → (s.queue ≡ []) ⊎ ((j : ℕ) × (s.owes j ≡ true))

module _ {s : Monitor} (v : Inv s) (i : ℕ) where
  open v use {at_mutex, at_queue, lock_distinct, free, distinct, saw, told}

  take-Inv : (s.pc i ≡ outside) ⊎ ((s.pc i ≡ paused) × (s.woken i ≡ true)) → Inv (take i s)
  unfolding take contains entry
  take-Inv h = record {
    at_mutex = λ j.
        ground (arith, at_mutex i, at_mutex j, free, contains-append_one s.mutex.suspended i j);
    at_queue = λ j. ground (arith, at_mutex i, at_queue i, at_queue j);
    lock_distinct =
        ground (arith, at_mutex i, lock_distinct, Base.append_one-Distinct s.mutex.suspended i);
    free = ground (arith, free);
    distinct = distinct;
    saw = λ j q. ground (arith, saw j);
    told = told;
  }

  let_go-Inv :
      (p : Pc)
      → ((s.pc i ≡ inside) × (p ≡ outside)) ⊎ ((s.pc i ≡ queued) × (p ≡ paused))
      → Inv (let_go p i s)
  unfolding let_go contains entry
  let_go-Inv p h = record {
    at_mutex = λ j. ground (arith, at_mutex i, at_mutex j, lock_distinct);
    at_queue = λ j. ground (arith, at_mutex i, at_queue i, at_queue j);
    lock_distinct = ground (arith, lock_distinct);
    free = ground (arith, free);
    distinct = distinct;
    saw = λ j q. ground (arith, saw j);
    told = told;
  }

  run_on-Inv : s.ready i ≡ true → Inv (run_on i s)
  unfolding run_on
  run_on-Inv h = record {
    at_mutex = λ j. ground (arith, at_mutex i, at_mutex j);
    at_queue = λ j. ground (arith, at_mutex i, at_queue i, at_queue j);
    lock_distinct = lock_distinct;
    free = free;
    distinct = distinct;
    saw = λ j q. ground (arith, saw j);
    told = told;
  }

  look-Inv : s.pc i ≡ inside → Inv (look i s)
  unfolding look
  look-Inv h = record {
    at_mutex = λ j. ground (arith, at_mutex i, at_mutex j);
    at_queue = λ j. ground (arith, at_queue i, at_queue j);
    lock_distinct = lock_distinct;
    free = free;
    distinct = distinct;
    saw = λ j q. ground (arith, saw j);
    told = told;
  }

  queue_up-Inv : s.pc i ≡ deciding → Inv (queue_up s.mutex queued i s)
  unfolding queue_up
  queue_up-Inv h =
      let mine : Item = record { mutex = 0; thread = i; timer = none } in
      record {
        at_mutex = λ j. ground (arith, at_mutex i, at_mutex j);
        at_queue = λ j.
            ground (arith, at_mutex i, at_queue i, at_queue j, entry-append_one s.queue mine j);
        lock_distinct = lock_distinct;
        free = free;
        distinct =
            ground (arith, at_mutex i, at_queue i, distinct, append_one-Distinct s.queue mine);
        saw = λ j q. ground (arith, saw i);
        told = λ q. absurd (ground (arith, saw i));
      }

  assign-Inv : (b : Bool) → s.pc i ≡ inside → Inv (assign b i s)
  unfolding assign
  assign-Inv true h = record {
    at_mutex = at_mutex;
    at_queue = at_queue;
    lock_distinct = lock_distinct;
    free = free;
    distinct = distinct;
    saw = λ j q. ground (arith, at_mutex i, at_mutex j);
    told = λ q. inr (i, ground arith);
  }
  assign-Inv false h = record {
    at_mutex = at_mutex;
    at_queue = at_queue;
    lock_distinct = lock_distinct;
    free = free;
    distinct = distinct;
    saw = λ j q. refl;
    told = λ q. ground arith;
  }

  notify-Inv : Inv (notify i s)
  unfolding notify entry
  notify-Inv = record {
    at_mutex = at_mutex;
    at_queue = λ j.
        ground (arith, at_queue j, notify_all_queue s.queue, notify_all_resumed s.queue j distinct);
    lock_distinct = lock_distinct;
    free = free;
    distinct = ground (arith, notify_all_queue s.queue);
    saw = saw;
    told = λ q. inl (notify_all_queue s.queue);
  }

Step-Inv : {s t : Monitor} → Step s t → Inv s → Inv t
Step-Inv (enters i e) v = take-Inv v i (inl e)
Step-Inv (leaves i e) v = let_go-Inv v i outside (inl (e, refl))
Step-Inv (runs_on i e) v = run_on-Inv v i e
Step-Inv (looks i e) v = look-Inv v i e
Step-Inv (queues i e) v = queue_up-Inv v i e
Step-Inv (lets_go i e) v = let_go-Inv v i paused (inr (e, refl))
Step-Inv (comes_back i e w) v = take-Inv v i (inr (e, w))
Step-Inv (assigns i b e) v = assign-Inv v i b e
Step-Inv (notifies i o e) v = notify-Inv v i

init-Inv : Inv init
unfolding entry contains
init-Inv = record {
  at_mutex = λ i. (refl, refl, refl);
  at_queue = λ i. (refl, refl);
  lock_distinct = tt;
  free = λ _. refl;
  distinct = tt;
  saw = λ i q. refl;
  told = λ q. inl refl;
}

pub Reach-Inv : {s : Monitor} → Reach s → Inv s
Reach-Inv start = init-Inv
Reach-Inv (later r st) = Step-Inv st (Reach-Inv r)
