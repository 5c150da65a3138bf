-- ===== src/Future/Waiting/AllReturns.antt =====
-- `wait_for_all` returns only when all its futures are ready.
use boost_green_thread.Base.{
  ℕ, ◌≤◌, ◌<◌, Bool, true, false, ◌≡◌, ◌≢◌, contains, contains-append_one, size_mod, update, arith,
}
use boost_green_thread.Future.SharedState.{SharedState}
use boost_green_thread.Future.Waiting.Settle.{Settle, called_until, called_until-listed}
use boost_green_thread.Base.Tally.{tally, tally-le, tally_full, tally-update, tally_none}
use boost_green_thread.Future.Waiting.All.{
  Pc, registering, checking, waiting, returned, System, init, setup, settled, waiter_counts,
  waiter_notifies, check, Step, registers, begins, settles, counts, notifies, checks, queues, From,
  here, later, Clean,
}

abbrev pub covered : ℕ → Pc → ℕ
covered n (registering k) = k
covered n _ = n

module _ {ℓ} {R E : Type ℓ} (throws : ℕ → ℕ → Bool) (each : Bool) (n : ℕ)
    (small : n < size_mod) where
  pub record Inv (s : System R E) : Type ℓ where
    pub room : covered n s.pc ≤ n
    pub counted : s.acquired ≡ tally n s.ran
    pub ran_ready : (i : ℕ) → s.ran i ≡ true → (i < covered n s.pc) × ((s.futures i).ready ≡ true)
    pub due_ready :
        (i : ℕ)
        → s.due i ≡ true
        → (i < covered n s.pc) × ((s.futures i).ready ≡ true) × (s.ran i ≡ false)
    pub listed_once : (i : ℕ) → contains (s.futures i).ext_waiters i ≡ true → i < covered n s.pc
    pub done : s.pc ≡ returned → s.acquired ≡ n

  module _ {s : System R E} (v : Inv s) where
    open v use {room, counted, ran_ready, due_ready, listed_once, done}

    setup-Inv : (k : ℕ) → s.pc ≡ registering k → k < n → Inv (setup k s)
    unfolding setup
    setup-Inv k e h = record {
      room = ground arith;
      counted =
          ground
            (arith, counted, ran_ready k, tally-update n s.ran k, tally-le n (update s.ran k true));
      ran_ready = λ i q. ground (arith, ran_ready i);
      due_ready = λ i q. ground (arith, due_ready i);
      listed_once =
          λ i q. ground (arith, listed_once i, contains-append_one (s.futures k).ext_waiters k i);
      done = λ q. ground arith;
    }

    settled-Inv : (i : ℕ) (c : Settle R E) → i < n → Inv (settled throws i c s)
    unfolding settled called_until
    settled-Inv i c h = record {
      room = room;
      counted = counted;
      ran_ready = λ j q. ground (arith, ran_ready j);
      due_ready = λ j q. ground (
        arith,
        due_ready j,
        listed_once j,
        ran_ready j,
        called_until-listed (throws i) (s.futures i).ext_waiters j,
      );
      listed_once = λ j q. ground (arith, listed_once j);
      done = done;
    }

    waiter_counts-Inv : (i : ℕ) → s.due i ≡ true → Inv (waiter_counts each n i s)
    unfolding waiter_counts
    waiter_counts-Inv i d = record {
      room = room;
      counted = ground (
        arith,
        counted,
        due_ready i,
        tally-update n s.ran i,
        tally-le n (update s.ran i true),
        room,
      );
      ran_ready = λ j q. ground (arith, ran_ready j, due_ready i d);
      due_ready = λ j q. ground (arith, due_ready j);
      listed_once = λ j q. ground (arith, listed_once j);
      done = λ q. ground (arith, done, counted, due_ready i, tally_full n s.ran i, room);
    }

    waiter_notifies-Inv : (i : ℕ) → Inv (waiter_notifies i s)
    unfolding waiter_notifies
    waiter_notifies-Inv i = record {
      room = ground (arith, room);
      counted = counted;
      ran_ready = λ j q. ground (arith, ran_ready j);
      due_ready = λ j q. ground (arith, due_ready j);
      listed_once = λ j q. ground (arith, listed_once j);
      done = λ q. ground (arith, done);
    }

    check-Inv : s.pc ≡ checking → Inv (check n s)
    unfolding check
    check-Inv e = record {
      room = ground (arith, room);
      counted = counted;
      ran_ready = λ j q. ground (arith, ran_ready j);
      due_ready = λ j q. ground (arith, due_ready j);
      listed_once = λ j q. ground (arith, listed_once j);
      done = λ q. ground arith;
    }

    move-Inv : (p : Pc) → covered n p ≡ covered n s.pc → (p ≢ returned) → Inv (record s { pc = p })
    move-Inv p e f = record {
      room = ground (arith, room);
      counted = counted;
      ran_ready = λ j q. ground (arith, ran_ready j);
      due_ready = λ j q. ground (arith, due_ready j);
      listed_once = λ j q. ground (arith, listed_once j);
      done = λ q. absurd (f q);
    }

  pub Step-Inv : {s t : System R E} → Step throws each n s t → Inv s → Inv t
  Step-Inv (registers k e h) v = setup-Inv v k e h
  Step-Inv (begins e) v = move-Inv v checking (ground arith) (ground arith)
  Step-Inv (settles i c h) v = settled-Inv v i c h
  Step-Inv (counts i d) v = waiter_counts-Inv v i d
  Step-Inv (notifies i d) v = waiter_notifies-Inv v i
  Step-Inv (checks e) v = check-Inv v e
  Step-Inv (queues e) v = move-Inv v waiting (ground arith) (ground arith)

  pub From-Inv :
      (fs : ℕ → SharedState R E) {s : System R E}
      → Clean fs
      → From throws each n (init fs) s
      → Inv s
  From-Inv fs c here = record {
    room = omega arith;
    counted = omega (arith, tally_none n);
    ran_ready = λ i q. ground arith;
    due_ready = λ i q. ground arith;
    listed_once = λ i q. ground (arith, c i);
    done = λ q. ground arith;
  }
  From-Inv fs c (later r st) = Step-Inv st (From-Inv fs c r)

  -- `wait_for_all`, over futures or over iterators, returns only when every one of its futures, which
  -- are fewer than 2 ^ 64, is ready.
  pub all_answer_ready :
      (fs : ℕ → SharedState R E) {s : System R E} (i : ℕ)
      → Clean fs
      → From throws each n (init fs) s
      → s.pc ≡ returned
      → i < n
      → (s.futures i).ready ≡ true
  all_answer_ready fs {s} i c r e h =
      let v = From-Inv fs c r in
      ground (arith, Inv.done v, Inv.counted v, tally_full n s.ran i, Inv.ran_ready v i)
