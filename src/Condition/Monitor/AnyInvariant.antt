-- ===== src/Condition/Monitor/AnyInvariant.antt =====
-- What the mutexes are for the threads with `condition_variable_any`, in every reachable state.
use boost_green_thread.Base.{
  ℕ, Bool, true, none, some, [], ◌≡◌, refl, ◌⊎◌, inl, inr, points_to, contains, contains-append_one,
  Distinct, append_one-Distinct, arith,
}
use boost_green_thread.Condition.Monitor.{
  outside, inside, deciding, released, paused, Monitor, take, let_go, run_on, queue_up, look,
  assign, notify,
}
use boost_green_thread.Condition.Monitor.Invariant.{AtMutex}
use boost_green_thread.Condition.Monitor.AnySteps.{
  AnyMonitor, init, activate, wait_inner, Step, enters, leaves, runs_on, looks, activates, queues,
  comes_back, assigns, notifies, From, here, later,
}

-- The user's mutex, and `mtx_`, which a thread has from `activate` to its entry into the queue.
pub record Inv (s : AnyMonitor) : Type 0 where
  pub at_mutex :
      (i : ℕ)
      → AtMutex
          (s.m.pc i)
          (points_to s.m.mutex.owner i)
          (contains s.m.mutex.suspended i)
          (s.m.ready i)
  pub distinct : Distinct s.m.mutex.suspended
  pub free : s.m.mutex.owner ≡ none → s.m.mutex.suspended ≡ []
  pub has_inner : (i : ℕ) → s.m.pc i ≡ released → s.inner.owner ≡ some i
  pub alone : s.inner.suspended ≡ []

module _ {s : AnyMonitor} (v : Inv s) (i : ℕ) where
  open v use {at_mutex, distinct, free, has_inner, alone}

  take-Inv : (s.m.pc i ≡ outside) ⊎ (s.m.pc i ≡ paused) → Inv (record s { m = take i s.m })
  unfolding take contains
  take-Inv h = record {
    at_mutex = λ j.
        ground (arith, at_mutex i, at_mutex j, free, contains-append_one s.m.mutex.suspended i j);
    distinct = ground (arith, at_mutex i, distinct, append_one-Distinct s.m.mutex.suspended i);
    free = ground (arith, free);
    has_inner = λ j q. ground (arith, has_inner j, at_mutex i);
    alone = alone;
  }

  let_go-Inv : s.m.pc i ≡ inside → Inv (record s { m = let_go outside i s.m })
  unfolding let_go contains
  let_go-Inv h = record {
    at_mutex = λ j. ground (arith, at_mutex i, at_mutex j, distinct);
    distinct = ground (arith, distinct);
    free = ground (arith, free);
    has_inner = λ j q. ground (arith, has_inner j, at_mutex i);
    alone = alone;
  }

  activate-Inv : s.m.pc i ≡ deciding → s.inner.owner ≡ none → Inv (activate i s)
  unfolding activate let_go contains
  activate-Inv h e = record {
    at_mutex = λ j. ground (arith, at_mutex i, at_mutex j, distinct);
    distinct = ground (arith, distinct);
    free = ground (arith, free);
    has_inner = λ j q. ground (arith, has_inner j, at_mutex i);
    alone = ground (arith, alone);
  }

  wait_inner-Inv : s.m.pc i ≡ released → Inv (wait_inner i s)
  unfolding wait_inner queue_up
  wait_inner-Inv h = record {
    at_mutex = λ j. ground (arith, at_mutex i, at_mutex j, has_inner i);
    distinct = distinct;
    free = free;
    has_inner = λ j q. ground (arith, has_inner j, has_inner i, alone);
    alone = ground (arith, alone);
  }

  look-Inv : s.m.pc i ≡ inside → Inv (record s { m = look i s.m })
  unfolding look
  look-Inv h = record {
    at_mutex = λ j. ground (arith, at_mutex i, at_mutex j);
    distinct = distinct;
    free = free;
    has_inner = λ j q. ground (arith, has_inner j);
    alone = alone;
  }

  run_on-Inv : s.m.ready i ≡ true → Inv (record s { m = run_on i s.m })
  unfolding run_on
  run_on-Inv h = record {
    at_mutex = λ j. ground (arith, at_mutex i, at_mutex j);
    distinct = distinct;
    free = free;
    has_inner = λ j q. ground (arith, has_inner j);
    alone = alone;
  }

-- Neither a change of the predicate nor a notification concerns the mutexes.
flags-Inv :
    {s : AnyMonitor} (n : Monitor)
    → Inv s
    → n.mutex ≡ s.m.mutex
    → n.pc ≡ s.m.pc
    → n.ready ≡ s.m.ready
    → Inv (record s { m = n })
flags-Inv n v e f g = record {
  at_mutex = λ j. rw (e, f, g) (v.at_mutex j);
  distinct = rw e v.distinct;
  free = rw e v.free;
  has_inner = λ j q. ground (arith, v.has_inner j);
  alone = v.alone;
}

pub Step-Inv : {b : Bool} {s t : AnyMonitor} → Step b s t → Inv s → Inv t
unfolding assign notify
Step-Inv (enters i e) v = take-Inv v i (inl e)
Step-Inv (leaves i e) v = let_go-Inv v i e
Step-Inv (runs_on i e) v = run_on-Inv v i e
Step-Inv (looks i e) v = look-Inv v i e
Step-Inv (activates i e f) v = activate-Inv v i e f
Step-Inv (queues i e) v = wait_inner-Inv v i e
Step-Inv (comes_back i e w f) v = take-Inv v i (inr e)
Step-Inv {s = s} (assigns i b a e) v = flags-Inv (assign b i s.m) v refl refl refl
Step-Inv {s = s} (notifies i o e) v = flags-Inv (notify i s.m) v refl refl refl

pub From-Inv : {b : Bool} {s t : AnyMonitor} → From b s t → Inv s → Inv t
From-Inv here v = v
From-Inv (later r st) v = Step-Inv st (From-Inv r v)

pub init-Inv : Inv init
unfolding contains
init-Inv = record {
  at_mutex = λ i. (refl, refl, refl);
  distinct = tt;
  free = λ _. refl;
  has_inner = λ i q. ground arith;
  alone = refl;
}
