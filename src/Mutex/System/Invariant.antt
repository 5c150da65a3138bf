-- ===== src/Mutex/System/Invariant.antt =====
-- What holds in every reachable state of threads that share one `mutex`.
use boost_green_thread.Base.{
  ℕ, Bool, true, false, none, some, [], ◌≡◌, refl, ◌⊎◌, contains, Distinct, contains-append_one,
  append_one-Distinct, arith,
}
use boost_green_thread.Mutex.Plain.{lock, unlock, try_lock}
use boost_green_thread.Mutex.System.{
  Pc, outside, blocked, inside, System, init, runs, call_lock, call_try_lock, call_unlock, run_on,
  Step, locks, tries, unlocks, wakes, interrupts, Reach, start, later,
}

-- `ready_owner`: a thread is resumed only as the owner. `queued`, `known`: a suspended thread waits
-- in the queue or has been resumed.
pub record Inv (s : System) : Type 0 where
  pub inside_owner : (i : ℕ) → s.pc i ≡ inside → s.mutex.owner ≡ some i
  pub ready_owner : (i : ℕ) → s.ready i ≡ true → (s.mutex.owner ≡ some i) × (s.pc i ≡ blocked)
  pub queued : (i : ℕ) → contains s.mutex.suspended i ≡ true → s.pc i ≡ blocked
  pub apart : (i : ℕ) → s.mutex.owner ≡ some i → contains s.mutex.suspended i ≡ false
  pub known :
      (i : ℕ) → s.pc i ≡ blocked → (s.ready i ≡ true) ⊎ (contains s.mutex.suspended i ≡ true)
  pub distinct : Distinct s.mutex.suspended
  pub free : s.mutex.owner ≡ none → s.mutex.suspended ≡ []

module _ {s : System} (v : Inv s) (i : ℕ) where
  open v use {inside_owner, ready_owner, queued, apart, known, distinct, free}

  call_lock-Inv : runs (s.pc i) ≡ true → Inv (call_lock s i)
  unfolding call_lock lock contains
  call_lock-Inv r = record {
    inside_owner = λ j e. ground (arith, inside_owner j, inside_owner i);
    ready_owner = λ j e. ground (arith, ready_owner j);
    queued = λ j e. ground (arith, queued j, contains-append_one s.mutex.suspended i j);
    apart = λ j e. ground (arith, apart j, free, contains-append_one s.mutex.suspended i j);
    known = λ j e. ground (arith, known j, contains-append_one s.mutex.suspended i j);
    distinct = ground (arith, distinct, queued i, append_one-Distinct s.mutex.suspended i);
    free = ground (arith, free);
  }

  call_try_lock-Inv : runs (s.pc i) ≡ true → Inv (call_try_lock s i)
  unfolding call_try_lock try_lock contains
  call_try_lock-Inv r = record {
    inside_owner = λ j e. ground (arith, inside_owner j, inside_owner i);
    ready_owner = λ j e. ground (arith, ready_owner j);
    queued = λ j e. ground (arith, queued j, free);
    apart = λ j e. ground (arith, apart j, free);
    known = λ j e. ground (arith, known j);
    distinct = ground (arith, distinct);
    free = ground (arith, free);
  }

  call_unlock-Inv : runs (s.pc i) ≡ true → Inv (call_unlock s i)
  unfolding call_unlock unlock contains
  call_unlock-Inv r = record {
    inside_owner = λ j e. ground (arith, inside_owner j, inside_owner i);
    ready_owner = λ j e. ground (arith, ready_owner j, queued j);
    queued = λ j e. ground (arith, queued j, queued i);
    apart = λ j e. ground (arith, apart j, distinct);
    known = λ j e. ground (arith, known j);
    distinct = ground (arith, distinct);
    free = ground (arith, free);
  }

  run_on-Inv : (p : Pc) → runs p ≡ true → s.ready i ≡ true → Inv (run_on s i p)
  unfolding run_on
  run_on-Inv p r e = record {
    inside_owner = λ j h. ground (arith, inside_owner j, ready_owner i);
    ready_owner = λ j h. ground (arith, ready_owner j);
    queued = λ j h. ground (arith, queued j, ready_owner i, apart i);
    apart = λ j h. ground (arith, apart j);
    known = λ j h. ground (arith, known j);
    distinct = distinct;
    free = free;
  }

pub Step-Inv : {b : Bool} {s t : System} → Step b s t → Inv s → Inv t
Step-Inv (locks i r) v = call_lock-Inv v i r
Step-Inv (tries i r) v = call_try_lock-Inv v i r
Step-Inv (unlocks i r) v = call_unlock-Inv v i r
Step-Inv (wakes i e) v = run_on-Inv v i inside refl e
Step-Inv (interrupts i b e) v = run_on-Inv v i outside refl e

init-Inv : Inv init
unfolding contains
init-Inv = record {
  inside_owner = λ i e. cc;
  ready_owner = λ i e. cc;
  queued = λ i e. cc;
  apart = λ i e. cc;
  known = λ i e. cc;
  distinct = tt;
  free = λ _. refl;
}

pub Reach-Inv : {b : Bool} {s : System} → Reach b s → Inv s
Reach-Inv start = init-Inv
Reach-Inv (later r st) = Step-Inv st (Reach-Inv r)
