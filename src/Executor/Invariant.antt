-- ===== src/Executor/Invariant.antt =====
-- Where a submitted task is, in every reachable state of the pool.
use boost_green_thread.Base.{
  ℕ, ◌-◌, ◌<◌, true, false, [], ◌≡◌, ◌≢◌, refl, ◌⊎◌, contains, Distinct, contains-append_one,
  append_one-Distinct, length, size_mod, arith,
}
use boost_green_thread.Future.SharedState.{SharedState, fresh, broken_promise}
use boost_green_thread.Future.SharedState
use boost_green_thread.Future.Task.{Task, Ending}
use boost_green_thread.Future.Task
use boost_green_thread.Executor.Pool.{
  popping, waiting, running, ended, Pool, waiting_task, submit, advance, run_task, shut, Step,
  submits, advances, runs, shuts, Reach, start, later,
}

module _ {R E : Type 0} (n : ℕ) (endings : ℕ → Ending R E) where
  -- The shared state of task `k` when it has run, and of one that the queue refused.
  abbrev pub result_of : ℕ → SharedState R E
  result_of k = (Task.run (endings k) fresh).state

  abbrev pub refusal : SharedState R E
  refusal = (SharedState.owner_destroyed {R = R} {E = E} fresh).state

  pub record Inv (s : Pool R E) : Type 0 where
    pub big : s.queue.capacity ≡ size_mod - 1
    pub queued :
        (k : ℕ)
        → contains s.queue.items k ≡ true
        → (k < s.submitted) × (s.accepted k ≡ true) × (s.tasks k ≡ waiting_task)
    pub distinct : Distinct s.queue.items
    pub active :
        (w k : ℕ)
        → s.workers w ≡ running k
        → (k < s.submitted)
          × (s.accepted k ≡ true)
          × (s.tasks k ≡ waiting_task)
          × (contains s.queue.items k ≡ false)
    pub apart : (w v k : ℕ) → s.workers w ≡ running k → s.workers v ≡ running k → w ≡ v
    pub somewhere :
        (k : ℕ)
        → k < s.submitted
        → ((s.accepted k ≡ false) × ((s.tasks k).shared ≡ refusal))
          ⊎ ((s.accepted k ≡ true)
              × (((s.tasks k).shared ≡ result_of k)
                  ⊎ (contains s.queue.items k ≡ true)
                  ⊎ ((s.taker k < n) × (s.workers (s.taker k) ≡ running k))))
    pub awake : (w : ℕ) → s.queue.opened ≡ false → s.workers w ≢ waiting
    pub drained : (w : ℕ) → s.workers w ≡ ended → (s.queue.opened ≡ false) × (s.queue.items ≡ [])

  module _ {s : Pool R E} (v : Inv s) where
    open v use {big, queued, distinct, active, apart, somewhere, awake, drained}

    shut-Inv : Inv (shut s)
    unfolding shut
    shut-Inv = record {
      big = big;
      queued = λ k q. ground (arith, queued k);
      distinct = distinct;
      active = λ w k q. ground (arith, active w k);
      apart = λ w u k q r. ground (arith, apart w u k);
      somewhere = λ k q. ground (arith, somewhere k);
      awake = λ w e. ground arith;
      drained = λ w e. ground (arith, drained w);
    }

    submit-Inv : (u : ℕ) → length s.queue.items < size_mod - 1 → Inv (submit u s)
    unfolding submit contains
    submit-Inv u h = record {
      big = ground (arith, big);
      queued = λ k q. ground (arith, queued k, contains-append_one s.queue.items s.submitted k);
      distinct =
          ground
            (arith, distinct, queued s.submitted, append_one-Distinct s.queue.items s.submitted);
      active = λ w k q. ground (arith, active w k, contains-append_one s.queue.items s.submitted k);
      apart = λ w x k q r. ground (arith, apart w x k);
      awake = λ w e. ground (arith, awake w);
      somewhere =
          λ k q. ground (arith, somewhere k, contains-append_one s.queue.items s.submitted k);
      drained = λ w e. ground (arith, drained w);
    }

    advance-Inv : (w : ℕ) → w < n → s.workers w ≡ popping → Inv (advance w s)
    unfolding advance contains
    advance-Inv w h e = record {
      big = ground (arith, big);
      queued = λ k q. ground (arith, queued k);
      distinct = ground (arith, distinct);
      active = λ u k q. ground (arith, active u k, queued k, distinct);
      apart = λ u x k q r. ground (arith, apart u x k, active u k, active x k);
      somewhere = λ k q. ground (arith, somewhere k);
      awake = λ u e. ground (arith, awake u);
      drained = λ u q. ground (arith, drained u);
    }

    run_task-Inv : (w k : ℕ) → w < n → s.workers w ≡ running k → Inv (run_task (endings k) w k s)
    unfolding run_task
    run_task-Inv w k h e = record {
      big = big;
      queued = λ j q. ground (arith, queued j, active w k e);
      distinct = distinct;
      active = λ u j q. ground (arith, active u j, active w k e, apart u w j);
      apart = λ u x j q r. ground (arith, apart u x j);
      somewhere = λ j q. ground (arith, somewhere j, active w k e);
      awake = λ u e. ground (arith, awake u);
      drained = λ u q. ground (arith, drained u);
    }

  Step-Inv : {s t : Pool R E} → Step n endings s t → Inv s → Inv t
  Step-Inv (submits w h _) v = submit-Inv v w h
  Step-Inv (advances w h e) v = advance-Inv v w h e
  Step-Inv (runs w k h e) v = run_task-Inv v w k h e
  Step-Inv shuts v = shut-Inv v

  pub Reach-Inv : {s : Pool R E} → Reach n endings s → Inv s
  unfolding contains
  Reach-Inv start = record {
    big = refl;
    queued = λ k q. ground arith;
    distinct = tt;
    active = λ w k q. ground arith;
    apart = λ w u k q. ground arith;
    somewhere = λ k q. absurd (omega arith);
    awake = λ w e. ground arith;
    drained = λ w e. ground arith;
  }
  Reach-Inv (later r st) = Step-Inv st (Reach-Inv r)
