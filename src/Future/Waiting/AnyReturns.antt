-- ===== src/Future/Waiting/AnyReturns.antt =====
-- What `wait_for_any` returns, and that it does.
use boost_green_thread.Base.{
  ℕ, Bool, ◌≤◌, ◌<◌, true, false, ◌≡◌, ◌≢◌, ◌⊎◌, inr, contains, contains-append_one, arith,
}
use boost_green_thread.Future.Waiting.Settle.{Settle, called_until, contains-called_until}
use boost_green_thread.Future.Waiting.Any.{
  Pc, registering, checking, waiting, returned, System, setup, attached, settled, waiter_runs,
  check, Step, registers, begins, settles, attaches, runs, checks, Reach, start, later,
}

-- How many futures have a waiter.
abbrev pub covered : ℕ → Pc → ℕ
covered n (registering k) = k
covered n _ = n

module _ {ℓ} {R E : Type ℓ} (throws : ℕ → ℕ → Bool) (n : ℕ) where
  pub record Inv (s : System R E) : Type ℓ where
    pub room : covered n s.pc ≤ n
    pub called :
        (i : ℕ)
        → i < covered n s.pc
        → ((s.futures i).ready ≡ true)
        → (s.any.flag ≡ true) ⊎ (s.due i ≡ true)
    pub calm :
        (i j : ℕ) → contains (s.futures i).ext_waiters j ≡ true → (j ≡ i) ⊎ (throws i j ≡ false)
    pub listed :
        (i : ℕ)
        → i < covered n s.pc
        → ((s.futures i).ready ≡ false)
        → contains (s.futures i).ext_waiters i ≡ true
    pub answer : s.any.flag ≡ true → (s.any.ret < n) × ((s.futures s.any.ret).ready ≡ true)
    pub due_ready : (i : ℕ) → s.due i ≡ true → (i < n) × ((s.futures i).ready ≡ true)
    pub waits : s.pc ≡ waiting → s.any.flag ≡ false
    pub returns : (r : ℕ) → s.pc ≡ returned r → (r < n) × ((s.futures r).ready ≡ true)

  module _ {s : System R E} (v : Inv s) where
    open v use {room, calm, called, listed, answer, due_ready, waits, returns}

    setup-Inv : (k : ℕ) → s.pc ≡ registering k → k < n → Inv (setup k s)
    unfolding setup
    setup-Inv k e h = record {
      room = ground arith;
      calm = λ i j q. ground (arith, calm i j, contains-append_one (s.futures k).ext_waiters k j);
      called = λ i l q. ground (arith, called i);
      listed = λ i l q. ground (arith, listed i, contains-append_one (s.futures k).ext_waiters k i);
      answer = λ q. ground (arith, answer);
      due_ready = λ i q. ground (arith, due_ready i);
      waits = λ q. ground arith;
      returns = λ r q. ground arith;
    }

    attached-Inv : (i j : ℕ) → i ≢ j → throws i j ≡ false → Inv (attached i j s)
    unfolding attached
    attached-Inv i j d m =
        let appended = contains-append_one (s.futures i).ext_waiters j in
        record {
          room = room;
          calm = λ k l q. ground (arith, appended l, calm k l);
          called = λ k l q. ground (arith, appended k, called k, listed k);
          listed = λ k l q. ground (arith, appended k, listed k);
          answer = λ q. ground (arith, answer);
          due_ready = λ k q. ground (arith, appended k, due_ready k);
          waits = waits;
          returns = λ r q. ground (arith, returns r);
        }

    settled-Inv : (i : ℕ) (c : Settle R E) → i < n → Inv (settled throws i c s)
    unfolding settled called_until
    settled-Inv i c h =
        let called_i = contains-called_until (throws i) (s.futures i).ext_waiters i (calm i) in
        record {
          room = room;
          calm = λ j k q. ground (arith, calm j k);
          called = λ j l q. ground (arith, called_i, called j, listed j);
          listed = λ j l q. ground (arith, called_i, listed j);
          answer = λ q. ground (arith, answer);
          due_ready = λ j q. ground (arith, called_i, due_ready j);
          waits = waits;
          returns = λ r q. ground (arith, returns r);
        }

    waiter_runs-Inv : (i : ℕ) → s.due i ≡ true → Inv (waiter_runs i s)
    unfolding waiter_runs
    waiter_runs-Inv i d = record {
      room = ground (arith, room);
      calm = calm;
      called = λ j l q. ground (arith, called j);
      listed = λ j l q. ground (arith, listed j);
      answer = λ q. ground (arith, due_ready i);
      due_ready = λ j q. ground (arith, due_ready j);
      waits = λ q. ground arith;
      returns = λ r q. ground (arith, returns r);
    }

    check-Inv : s.pc ≡ checking → Inv (check s)
    unfolding check
    check-Inv e = record {
      room = ground (arith, room);
      calm = calm;
      called = λ j l q. ground (arith, called j);
      listed = λ j l q. ground (arith, listed j);
      answer = answer;
      due_ready = due_ready;
      waits = λ q. ground arith;
      returns = λ r q. ground (arith, answer);
    }

    begins-Inv : s.pc ≡ registering n → Inv (record s { pc = checking })
    begins-Inv e = record {
      room = ground arith;
      calm = calm;
      called = λ j l q. ground (arith, called j);
      listed = λ j l q. ground (arith, listed j);
      answer = answer;
      due_ready = due_ready;
      waits = λ q. ground arith;
      returns = λ r q. ground arith;
    }

  Step-Inv : {s t : System R E} → Step throws n s t → Inv s → Inv t
  Step-Inv (registers k e h) v = setup-Inv v k e h
  Step-Inv (begins e) v = begins-Inv v e
  Step-Inv (settles i c h) v = settled-Inv v i c h
  Step-Inv (attaches i j d m) v = attached-Inv v i j d m
  Step-Inv (runs i d) v = waiter_runs-Inv v i d
  Step-Inv (checks e) v = check-Inv v e

  Reach-Inv : {s : System R E} → Reach throws n s → Inv s
  Reach-Inv (start fs none_yet calm) = record {
    room = omega arith;
    calm = λ i j q. inr (calm i j q);
    called = λ i l q. absurd (omega arith);
    listed = λ i l q. absurd (omega arith);
    answer = λ q. ground arith;
    due_ready = λ i q. ground arith;
    waits = λ q. ground arith;
    returns = λ r q. ground arith;
  }
  Reach-Inv (later r st) = Step-Inv st (Reach-Inv r)

  -- `wait_for_any` returns only the place of a future that is ready; over no futures at all it never
  -- returns.
  pub any_answer_ready :
      {s : System R E} (r : ℕ)
      → Reach throws n s
      → s.pc ≡ returned r
      → (r < n) × ((s.futures r).ready ≡ true)
  any_answer_ready r reach e = Inv.returns (Reach-Inv reach) r e

  -- No wakeup of `wait_for_any` is lost, provided that no other waiter that is put on a future throws:
  -- while its caller waits, every future that is ready has a waiter that has been called and not yet
  -- run, which sets the flag and wakes the caller; every other future still has its waiter listed.
  pub any_wakeup_kept :
      {s : System R E} (i : ℕ)
      → Reach throws n s
      → s.pc ≡ waiting
      → i < n
      → (((s.futures i).ready ≡ true)
          × (s.due i ≡ true)
          × ((check (waiter_runs i s)).pc ≡ returned i))
        ⊎ (((s.futures i).ready ≡ false) × (contains (s.futures i).ext_waiters i ≡ true))
  unfolding check waiter_runs
  any_wakeup_kept i reach e h =
      let v = Reach-Inv reach in ground (arith, Inv.called v i, Inv.listed v i, Inv.waits v)
