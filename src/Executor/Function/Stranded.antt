-- ===== src/Executor/Function/Stranded.antt =====
-- What becomes of the calls of an `async_function`.
use boost_green_thread.Base.{
  ℕ, ◌-◌, ◌<◌, true, false, [], ◌≡◌, refl, ◌⊎◌, contains, Distinct, contains-append_one,
  append_one-Distinct, length, size_mod, arith,
}
use boost_green_thread.Future.SharedState.{
  SharedState, broken_promise, Verdict, gives, rethrows, waits,
}
use boost_green_thread.Future.SharedState
use boost_green_thread.Future.Promise
use boost_green_thread.Future.Task.{Ending, returned, threw}
use boost_green_thread.Executor.Function.{
  popping, running, ended, died, Function, open_promise, init, async_call, advance, call, shut,
  Step, submits, advances, calls, shuts, From, here, later,
}

module _ {R E : Type 0} (endings : ℕ → Ending R E) where
  -- What a future gives.
  abbrev pub result : Function R E → ℕ → Verdict R E
  result s k = (SharedState.get (s.promises k).shared).verdict

  abbrev pub outcome : Ending R E → Verdict R E
  outcome (returned v) = gives v
  outcome (threw e) = rethrows broken_promise

  record Inv (s : Function R E) : Type 0 where
    big : s.queue.capacity ≡ size_mod - 1
    queued :
        (k : ℕ)
        → contains s.queue.items k ≡ true
        → (k < s.submitted) × (s.accepted k ≡ true) × (s.promises k ≡ open_promise)
    distinct : Distinct s.queue.items
    active :
        (k : ℕ)
        → s.worker ≡ running k
        → (k < s.submitted)
          × (s.accepted k ≡ true)
          × (s.promises k ≡ open_promise)
          × (contains s.queue.items k ≡ false)
    somewhere :
        (k : ℕ)
        → k < s.submitted
        → ((s.accepted k ≡ false) × (result s k ≡ rethrows broken_promise))
          ⊎ ((s.accepted k ≡ true)
              × ((result s k ≡ outcome (endings k))
                  ⊎ (contains s.queue.items k ≡ true)
                  ⊎ (s.worker ≡ running k)))
    drained : s.worker ≡ ended → (s.queue.opened ≡ false) × (s.queue.items ≡ [])

  call_result :
      (a : Ending R E) (s : Function R E) (k : ℕ)
      → s.promises k ≡ open_promise
      → result (call a k s) k ≡ outcome a
  unfolding call SharedState.set_value SharedState.owner_destroyed SharedState.get
      Promise.get_future Promise.set_value Promise.destroy
  call_result (returned v) s k e = ground (arith, e)
  call_result (threw x) s k e = ground (arith, e)

  module _ {s : Function R E} (v : Inv s) where
    open v use {big, queued, distinct, active, somewhere, drained}

    shut-Inv : Inv (shut s)
    unfolding shut
    shut-Inv = record {
      big = big;
      queued = queued;
      distinct = distinct;
      active = active;
      somewhere = somewhere;
      drained = λ e. ground (arith, drained);
    }

    async_call-Inv : length s.queue.items < size_mod - 1 → Inv (async_call s)
    unfolding async_call contains Promise.get_future Promise.destroy SharedState.owner_destroyed
        SharedState.get
    async_call-Inv h = record {
      big = ground (arith, big);
      queued = λ k q. ground (arith, queued k, contains-append_one s.queue.items s.submitted k);
      distinct =
          ground
            (arith, distinct, queued s.submitted, append_one-Distinct s.queue.items s.submitted);
      active = λ k q. ground (arith, active k, contains-append_one s.queue.items s.submitted k);
      somewhere =
          λ k q. ground (arith, somewhere k, contains-append_one s.queue.items s.submitted k);
      drained = λ e. ground (arith, drained);
    }

    advance-Inv : s.worker ≡ popping → Inv (advance s)
    unfolding advance contains
    advance-Inv e = record {
      big = ground (arith, big);
      queued = λ k q. ground (arith, queued k);
      distinct = ground (arith, distinct);
      active = λ k q. ground (arith, active k, queued k, distinct);
      somewhere = λ k q. ground (arith, somewhere k);
      drained = λ q. ground (arith, drained);
    }

    call-Inv : (k : ℕ) → s.worker ≡ running k → Inv (call (endings k) k s)
    unfolding call
    call-Inv k e =
        let told = call_result (endings k) s k in
        record {
          big = ground (arith, big);
          queued = λ j q. ground (arith, queued j, active k e);
          distinct = ground (arith, distinct);
          active = λ j q. ground (arith, active j, active k e);
          somewhere = λ j q. ground (arith, somewhere j, active k e, told);
          drained = λ q. ground (arith, drained);
        }

  Step-Inv : {s t : Function R E} → Step endings s t → Inv s → Inv t
  Step-Inv (submits h) v = async_call-Inv v h
  Step-Inv (advances e) v = advance-Inv v e
  Step-Inv (calls k e) v = call-Inv v k e
  Step-Inv shuts v = shut-Inv v

  From-Inv : {s t : Function R E} → Inv s → From endings s t → Inv t
  From-Inv v here = v
  From-Inv v (later r st) = Step-Inv st (From-Inv v r)

  init-Inv : Inv init
  unfolding contains
  init-Inv = record {
    big = refl;
    queued = λ k q. ground arith;
    distinct = tt;
    active = λ k q. ground arith;
    somewhere = λ k q. absurd (omega arith);
    drained = λ e. ground arith;
  }

  -- Each call that the queue took and that is over has given what its own run of the function came to:
  -- its value, or `broken_promise` if it threw; the others are in the queue, or the thread is at it.
  -- Fewer than 2 ^ 64 - 1 calls wait when one is added.
  pub call_answered :
      {s : Function R E} (k : ℕ)
      → From endings init s
      → k < s.submitted
      → ((s.accepted k ≡ false) × (result s k ≡ rethrows broken_promise))
        ⊎ ((s.accepted k ≡ true)
            × ((result s k ≡ outcome (endings k))
                ⊎ (contains s.queue.items k ≡ true)
                ⊎ (s.worker ≡ running k)))
  call_answered k r h = Inv.somewhere (From-Inv init-Inv r) k h

  record Stuck (k : ℕ) (s : Function R E) : Type 0 where
    valid : Inv s
    dead : s.worker ≡ died
    left : contains s.queue.items k ≡ true

  Step-Stuck : (k : ℕ) {s t : Function R E} → Step endings s t → Stuck k s → Stuck k t
  unfolding async_call shut contains
  Step-Stuck k {s} (submits h) w = record {
    valid = async_call-Inv w.valid h;
    dead = w.dead;
    left = ground (arith, w.left, contains-append_one s.queue.items s.submitted k);
  }
  Step-Stuck k (advances e) w = absurd (ground (arith, w.dead))
  Step-Stuck k (calls j e) w = absurd (ground (arith, w.dead))
  Step-Stuck k shuts w = record {
    valid = shut-Inv w.valid;
    dead = w.dead;
    left = ground (arith, w.left);
  }

  From-Stuck : (k : ℕ) {s t : Function R E} → From endings s t → Stuck k s → Stuck k t
  From-Stuck k here w = w
  From-Stuck k (later r st) w = Step-Stuck k st (From-Stuck k r w)

  -- An exception from one call strands the others: when call `j` of an `async_function` throws, the
  -- thread ends, and a call `k` that is in the queue then is never made: its future has no result, for
  -- as long as the `async_function` lives and whatever happens. Fewer than 2 ^ 64 - 1 calls wait when
  -- one is added.
  pub throw_strands :
      {s t : Function R E} (j k : ℕ) (e : E)
      → From endings init s
      → s.worker ≡ running j
      → endings j ≡ threw e
      → contains s.queue.items k ≡ true
      → From endings (call (endings j) j s) t
      → (t.worker ≡ died) × (contains t.queue.items k ≡ true) × (result t k ≡ waits)
  unfolding call Promise.get_future SharedState.get
  throw_strands {s} {t} j k e r at threw_e left from =
      let w : Stuck k t = From-Stuck k from (record {
        valid = call-Inv (From-Inv init-Inv r) j at;
        dead = ground (arith, threw_e);
        left = ground (arith, threw_e, left);
      }) in
      (w.dead, w.left, ground (arith, w.valid.queued k w.left))
