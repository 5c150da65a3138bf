-- ===== src/Future/Waiting/AsyncAllReady.antt =====
-- When the future of `async_wait_for_all` is ready.
use boost_green_thread.Base.{
  ℕ, ◌<◌, ◌≤◌, Bool, true, false, ◌≡◌, ◌≢◌, ◌⊎◌, inr, refl, contains, contains-append_one, update,
  size_mod, arith,
}
use boost_green_thread.Base.Tally.{tally, tally-le, tally-update, tally_none, tally-cong}
use boost_green_thread.Future.Waiting.Settle.{Settle, called_until, contains-called_until}
use boost_green_thread.Future.Void
use boost_green_thread.Future.Waiting.AsyncAll.{
  System, setup, attached, settled, count, tell, Step, registers, settles, attaches, counts, tells,
  Reach, start, later,
}

module _ {R E : Type 0} where
  -- Who of the futures is ready.
  abbrev pub readies : System R E → ℕ → Bool
  readies s i = (s.futures i).ready

  module _ (throws : ℕ → ℕ → Bool) (n : ℕ) (small : n < size_mod) where
    record Inv (s : System R E) : Type 0 where
      room : s.registered ≤ n
      counted : s.acquired ≡ tally n s.ran
      ran_ready : (i : ℕ) → s.ran i ≡ true → (i < s.registered) × ((s.futures i).ready ≡ true)
      due_ready :
          (i : ℕ)
          → s.due i ≡ true
          → (i < s.registered) × ((s.futures i).ready ≡ true) × (s.ran i ≡ false)
      calm :
          (i j : ℕ) → contains (s.futures i).ext_waiters j ≡ true → (j ≡ i) ⊎ (throws i j ≡ false)
      listed : (i : ℕ) → contains (s.futures i).ext_waiters i ≡ true → i < s.registered
      kept :
          (i : ℕ)
          → i < s.registered
          → (s.due i ≡ true)
            ⊎ (s.ran i ≡ true)
            ⊎ (((s.futures i).ready ≡ false) × (contains (s.futures i).ext_waiters i ≡ true))
      telling_last :
          (i : ℕ) → s.telling i ≡ true → (s.acquired ≡ n) × (s.result.ready ≡ false) × (s.last ≡ i)
      complete : s.acquired ≡ n → 0 < n → (s.result.ready ≡ true) ⊎ (s.telling s.last ≡ true)
      over : s.result.ready ≡ true → s.acquired ≡ n
      fine : s.failed ≡ false

    module _ {s : System R E} (v : Inv s) where
      open v use {
        room, calm, counted, ran_ready, due_ready, listed, kept, telling_last, complete, over, fine,
      }

      setup-Inv : s.registered < n → Inv (setup s)
      unfolding setup
      setup-Inv h =
          let k = s.registered in
          let appended = contains-append_one (s.futures k).ext_waiters k in
          record {
            room = ground arith;
            calm = λ i j q. ground (
              arith,
              calm i j,
              contains-append_one (s.futures s.registered).ext_waiters s.registered j,
            );
            counted = ground (arith, counted);
            ran_ready = λ i q. ground (arith, ran_ready i);
            due_ready = λ i q. ground (arith, due_ready i, ran_ready i);
            listed = λ i q. ground (arith, listed i, appended i);
            kept = λ i q. ground (arith, kept i, appended i);
            telling_last = λ i q. ground (arith, telling_last i);
            complete = λ q h. ground (arith, complete);
            over = λ q. ground (arith, over);
            fine = fine;
          }

      attached-Inv : (i j : ℕ) → i ≢ j → throws i j ≡ false → Inv (attached i j s)
      unfolding attached
      attached-Inv i j d m =
          let appended = contains-append_one (s.futures i).ext_waiters j in
          record {
            room = room;
            calm = λ k l q. ground (arith, appended l, calm k l);
            counted = counted;
            ran_ready = λ k q. ground (arith, appended k, ran_ready k);
            due_ready = λ k q. ground (arith, appended k, due_ready k, listed k, ran_ready k);
            listed = λ k q. ground (arith, appended k, listed k);
            kept = λ k q. ground (arith, appended k, kept k);
            telling_last = λ k q. ground (arith, appended k, telling_last k);
            complete = complete;
            over = over;
            fine = fine;
          }

      settled-Inv : (i : ℕ) (c : Settle R E) → i < n → Inv (settled throws i c s)
      unfolding settled called_until
      settled-Inv i c h =
          let called_i = contains-called_until (throws i) (s.futures i).ext_waiters i (calm i) in
          record {
            room = room;
            calm = λ j k q. ground (arith, calm j k);
            counted = counted;
            ran_ready = λ j q. ground (arith, ran_ready j);
            due_ready = λ j q. ground (arith, called_i, due_ready j, listed j, ran_ready j);
            listed = λ j q. ground (arith, called_i, listed j);
            kept = λ j q. ground (arith, called_i, kept j);
            telling_last = λ j q. ground (arith, telling_last j);
            complete = complete;
            over = over;
            fine = fine;
          }

      count-Inv : (i : ℕ) → s.due i ≡ true → Inv (count n i s)
      unfolding count
      count-Inv i d =
          let more = tally-update n s.ran i in
          let most = tally-le n (update s.ran i true) in
          record {
            room = room;
            calm = calm;
            counted = ground (arith, counted, due_ready i, more, most, room);
            ran_ready = λ j q. ground (arith, ran_ready j, due_ready i d);
            due_ready = λ j q. ground (arith, due_ready j);
            listed = λ j q. ground (arith, listed j);
            kept = λ j q. ground (arith, kept j);
            telling_last =
                λ j q. ground (arith, telling_last j, due_ready i, counted, more, most, room, over);
            complete = λ q h. ground (arith, complete);
            over = λ q. ground (arith, over, due_ready i, counted, more, most, room);
            fine = fine;
          }

      tell-Inv : (i : ℕ) → s.telling i ≡ true → Inv (tell i s)
      unfolding tell Void.mark_ready_and_notify
      tell-Inv i d = record {
        room = room;
        calm = calm;
        counted = counted;
        ran_ready = λ j q. ground (arith, ran_ready j);
        due_ready = λ j q. ground (arith, due_ready j);
        listed = λ j q. ground (arith, listed j);
        kept = λ j q. ground (arith, kept j);
        telling_last = λ j q. ground (arith, telling_last j, telling_last i);
        complete = λ q h. ground (arith, telling_last i);
        over = λ q. ground (arith, telling_last i);
        fine = ground (arith, telling_last i, fine);
      }

    Step-Inv : {s t : System R E} → Step throws n s t → Inv s → Inv t
    Step-Inv (registers h) v = setup-Inv v h
    Step-Inv (settles i c h) v = settled-Inv v i c h
    Step-Inv (attaches i j d m) v = attached-Inv v i j d m
    Step-Inv (counts i d) v = count-Inv v i d
    Step-Inv (tells i d) v = tell-Inv v i d

    Reach-Inv : {s : System R E} → Reach throws n s → Inv s
    Reach-Inv (start fs c calm) = record {
      room = omega arith;
      calm = λ i j q. inr (calm i j q);
      counted = omega (arith, tally_none n);
      ran_ready = λ i q. ground arith;
      due_ready = λ i q. ground arith;
      listed = λ i q. ground (arith, c i);
      kept = λ i q. absurd (omega arith);
      telling_last = λ i q. ground arith;
      complete = λ q h. absurd (omega arith);
      over = λ q. ground arith;
      fine = refl;
    }
    Reach-Inv (later r st) = Step-Inv st (Reach-Inv r)

    -- `async_wait_for_all` is exact: once all waiters are on the futures, at least one and fewer than
    -- 2 ^ 64, and those that have been called have run, its future is ready if and only if all futures
    -- are, provided that no other waiter that is put on a future throws; and at no time has a second
    -- `set_value` thrown.
    pub async_all_exact :
        {s : System R E}
        → Reach throws n s
        → 0 < n
        → s.registered ≡ n
        → ((i : ℕ) → (s.due i ≡ false) × (s.telling i ≡ false))
        → (s.failed ≡ false)
          × (((s.result.ready ≡ true) × (tally n (readies s) ≡ n))
              ⊎ ((s.result.ready ≡ false) × (tally n (readies s) < n)))
    async_all_exact {s} r h all quiet =
        let v = Reach-Inv r in
        let same =
          tally-cong n s.ran (readies s)
            (λ i l. ground (arith, Inv.ran_ready v i, Inv.kept v i, quiet i)) in
        let most = tally-le n (readies s) in
        (
          Inv.fine v,
          ground (arith, same, most, Inv.counted v, Inv.complete v, Inv.over v, quiet s.last),
        )
