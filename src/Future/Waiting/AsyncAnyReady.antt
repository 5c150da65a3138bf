-- ===== src/Future/Waiting/AsyncAnyReady.antt =====
-- When the future of `async_wait_for_any` is ready, and how two waiters collide.
use boost_green_thread.Base.{
  ℕ, Bool, ◌<◌, ◌≤◌, Bool-cases, true, false, some, none, ◌≡◌, ◌≢◌, ◌⊎◌, inl, inr, refl, contains,
  contains-append_one, arith,
}
use boost_green_thread.Future.SharedState.{SharedState, Verdict, gives, already_satisfied}
use boost_green_thread.Future.SharedState
use boost_green_thread.Future.Waiting.Settle.{Settle, called_until, contains-called_until}
use boost_green_thread.Future.Waiting.AsyncAny.{
  System, setup, attached, settled, test, mark, tell, Step, registers, settles, attaches, tests,
  marks, tells, Reach, start, later,
}

module _ {R E : Type 0} (throws : ℕ → ℕ → Bool) (n : ℕ) where
  record Inv (s : System R E) : Type 0 where
    room : s.registered ≤ n
    due_ready : (i : ℕ) → s.due i ≡ true → (i < s.registered) × ((s.futures i).ready ≡ true)
    decided_ready : (i : ℕ) → s.decided i ≡ true → (i < s.registered) × ((s.futures i).ready ≡ true)
    marked_ready : (i : ℕ) → s.marked i ≡ true → (i < s.registered) × ((s.futures i).ready ≡ true)
    calm : (i j : ℕ) → contains (s.futures i).ext_waiters j ≡ true → (j ≡ i) ⊎ (throws i j ≡ false)
    listed : (i : ℕ) → contains (s.futures i).ext_waiters i ≡ true → i < s.registered
    kept :
        (i : ℕ)
        → i < s.registered
        → (s.due i ≡ true)
          ⊎ (s.decided i ≡ true)
          ⊎ (s.is_set ≡ true)
          ⊎ (((s.futures i).ready ≡ false) × (contains (s.futures i).ext_waiters i ≡ true))
    set_kept : s.is_set ≡ true → (s.result.ready ≡ true) ⊎ (s.marked s.marker ≡ true)
    marked_set : (i : ℕ) → s.marked i ≡ true → s.is_set ≡ true
    answered :
        s.result.ready ≡ true
        → (r : ℕ) × (s.result.value ≡ some r) × (r < s.registered) × ((s.futures r).ready ≡ true)
    ready_set : s.result.ready ≡ true → s.is_set ≡ true
    plain : s.result.except ≡ none

  module _ {s : System R E} (v : Inv s) where
    open v use {
      room, calm, due_ready, decided_ready, marked_ready, listed, kept, set_kept, marked_set,
      answered, ready_set, plain,
    }

    setup-Inv : s.registered < n → Inv (setup s)
    unfolding setup
    setup-Inv h =
        let k = s.registered in
        let appended = contains-append_one (s.futures k).ext_waiters k in
        record {
          room = ground arith;
          calm = λ i j q. ground (
            arith,
            calm i j,
            contains-append_one (s.futures s.registered).ext_waiters s.registered j,
          );
          due_ready = λ i q. ground (arith, due_ready i);
          decided_ready = λ i q. ground (arith, decided_ready i);
          marked_ready = λ i q. ground (arith, marked_ready i);
          listed = λ i q. ground (arith, listed i, appended i);
          kept = λ i q. ground (arith, kept i, appended i);
          set_kept = set_kept;
          marked_set = marked_set;
          answered =
              λ q. let (r, a, b, c) = answered q in (r, a, ground (arith, b), ground (arith, b, c));
          ready_set = ready_set;
          plain = plain;
        }

    attached-Inv : (i j : ℕ) → i ≢ j → throws i j ≡ false → Inv (attached i j s)
    unfolding attached
    attached-Inv i j d m =
        let appended = contains-append_one (s.futures i).ext_waiters j in
        record {
          room = room;
          calm = λ k l q. ground (arith, appended l, calm k l);
          due_ready = λ k q. ground (arith, appended k, due_ready k, listed k);
          decided_ready = λ k q. ground (arith, appended k, decided_ready k);
          marked_ready = λ k q. ground (arith, appended k, marked_ready k);
          listed = λ k q. ground (arith, appended k, listed k);
          kept = λ k q. ground (arith, appended k, kept k);
          set_kept = set_kept;
          marked_set = marked_set;
          answered = λ q. let (r, a, b, d) = answered q in (r, a, b, ground (arith, d));
          ready_set = ready_set;
          plain = plain;
        }

    settled-Inv : (i : ℕ) (c : Settle R E) → i < n → Inv (settled throws i c s)
    unfolding settled called_until
    settled-Inv i c h =
        let called_i = contains-called_until (throws i) (s.futures i).ext_waiters i (calm i) in
        record {
          room = room;
          calm = λ j k q. ground (arith, calm j k);
          due_ready = λ j q. ground (arith, called_i, due_ready j, listed j);
          decided_ready = λ j q. ground (arith, decided_ready j);
          marked_ready = λ j q. ground (arith, marked_ready j);
          listed = λ j q. ground (arith, called_i, listed j);
          kept = λ j q. ground (arith, called_i, kept j);
          set_kept = set_kept;
          marked_set = marked_set;
          answered = λ q. let (r, a, b, d) = answered q in (r, a, b, ground (arith, d));
          ready_set = ready_set;
          plain = plain;
        }

    test-Inv : (i : ℕ) → s.due i ≡ true → Inv (test i s)
    unfolding test
    test-Inv i d = record {
      room = room;
      calm = calm;
      due_ready = λ j q. ground (arith, due_ready j);
      decided_ready = λ j q. ground (arith, decided_ready j, due_ready i d);
      marked_ready = marked_ready;
      listed = listed;
      kept = λ j q. ground (arith, kept j);
      set_kept = set_kept;
      marked_set = marked_set;
      answered = answered;
      ready_set = ready_set;
      plain = plain;
    }

    mark-Inv : (i : ℕ) → s.decided i ≡ true → Inv (mark i s)
    unfolding mark
    mark-Inv i d = record {
      room = room;
      calm = calm;
      due_ready = due_ready;
      decided_ready = λ j q. ground (arith, decided_ready j);
      marked_ready = λ j q. ground (arith, marked_ready j, decided_ready i d);
      listed = listed;
      kept = λ j q. ground (arith, kept j);
      set_kept = λ q. ground arith;
      marked_set = λ j q. refl;
      answered = answered;
      ready_set = λ q. refl;
      plain = plain;
    }

    tell-Inv : (i : ℕ) → s.marked i ≡ true → Inv (tell i s)
    unfolding tell SharedState.mark_ready_and_notify
    tell-Inv i d = record {
      room = room;
      calm = calm;
      due_ready = due_ready;
      decided_ready = decided_ready;
      marked_ready = λ j q. ground (arith, marked_ready j);
      listed = listed;
      kept = kept;
      set_kept = λ q. ground (arith, set_kept);
      marked_set = λ j q. ground (arith, marked_set j);
      answered = λ q. elim (Bool-cases s.result.ready) [
        | inl e ↦ let (r, a, b, c) = answered e in (r, ground (arith, a, e), b, c)
        | inr e ↦ let (b, c) = marked_ready i d in (i, ground (arith, e), b, c)
      ];
      ready_set = λ q. ground (arith, marked_set i, ready_set);
      plain = ground (arith, plain);
    }

  Step-Inv : {s t : System R E} → Step throws n s t → Inv s → Inv t
  Step-Inv (registers h) v = setup-Inv v h
  Step-Inv (settles i c h) v = settled-Inv v i c h
  Step-Inv (attaches i j d m) v = attached-Inv v i j d m
  Step-Inv (tests i d) v = test-Inv v i d
  Step-Inv (marks i d) v = mark-Inv v i d
  Step-Inv (tells i d) v = tell-Inv v i d

  Reach-Inv : {s : System R E} → Reach throws n s → Inv s
  Reach-Inv (start fs c calm) = record {
    room = omega arith;
    calm = λ i j q. inr (calm i j q);
    due_ready = λ i q. ground arith;
    decided_ready = λ i q. ground arith;
    marked_ready = λ i q. ground arith;
    listed = λ i q. ground (arith, c i);
    kept = λ i q. absurd (omega arith);
    set_kept = λ q. ground arith;
    marked_set = λ i q. ground arith;
    answered = λ q. ground arith;
    ready_set = λ q. ground arith;
    plain = refl;
  }
  Reach-Inv (later r st) = Step-Inv st (Reach-Inv r)

  -- `async_wait_for_any` is exact: once all waiters are on the futures and those that have been called
  -- have run, either its future gives the place of a future that is ready, or no future is ready and
  -- neither is the result; provided that no other waiter that is put on a future throws.
  pub async_any_exact :
      {s : System R E} (i : ℕ)
      → Reach throws n s
      → s.registered ≡ n
      → ((j : ℕ) → (s.due j ≡ false) × (s.decided j ≡ false) × (s.marked j ≡ false))
      → i < n
      → ((r : ℕ) × ((SharedState.get s.result).verdict ≡ gives r) × ((s.futures r).ready ≡ true))
        ⊎ ((s.result.ready ≡ false) × ((s.futures i).ready ≡ false))
  unfolding SharedState.get
  async_any_exact {s} i r all quiet h =
      let v = Reach-Inv r in
      elim (Bool-cases s.result.ready) [
        | inl e ↦
            let (k, a, b, c) = Inv.answered v e in inl (k, ground (arith, e, a, Inv.plain v), c)
        | inr e ↦ inr (e, ground (arith, Inv.kept v i, Inv.set_kept v, quiet i, quiet s.marker))
      ]

  -- Two waiters of `async_wait_for_any` collide: when both have found `is_set_` false, the one that
  -- sets the value second throws `promise_already_satisfied`, out of the call that has made its
  -- future ready.
  pub async_any_throws :
      {s : System R E} (i j : ℕ)
      → Reach throws n s
      → s.decided i ≡ true
      → s.decided j ≡ true
      → i ≢ j
      → (tell j (mark j (tell i (mark i s)))).threw j ≡ true
  unfolding mark tell SharedState.mark_ready_and_notify
  async_any_throws i j r d e h = ground arith
