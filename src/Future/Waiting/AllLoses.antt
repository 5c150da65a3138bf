-- ===== src/Future/Waiting/AllLoses.antt =====
-- How `wait_for_all` can wait for ever.
use boost_green_thread.Base.{ℕ, ◌+◌, ◌<◌, Bool, true, false, ◌≡◌, refl, size_mod, arith}
use boost_green_thread.Future.SharedState.{SharedState}
use boost_green_thread.Base.Tally.{tally_full}
use boost_green_thread.Future.Waiting.All.{
  deciding, waiting, System, init, settled, waiter_counts, waiter_notifies, Step, registers, begins,
  settles, counts, notifies, checks, queues, From, here, later, Clean,
}
use boost_green_thread.Future.Waiting.AllReturns.{Inv, Step-Inv, From-Inv}

module _ {ℓ} {R E : Type ℓ} (throws : ℕ → ℕ → Bool) (each : Bool) (n : ℕ)
    (small : n < size_mod) where
  -- The caller waits, everything has been counted, and nobody will notify.
  record Stuck (s : System R E) : Type ℓ where
    valid : Inv throws each n small s
    waits : s.pc ≡ waiting
    full : s.acquired ≡ n
    silent : (i : ℕ) → s.telling i ≡ false

  Step-Stuck : {s t : System R E} → Step throws each n s t → Stuck s → Stuck t
  unfolding settled
  Step-Stuck (registers k e h) w = absurd (ground (arith, w.waits))
  Step-Stuck (begins e) w = absurd (ground (arith, w.waits))
  Step-Stuck (settles i c h) w = record {
    valid = Step-Inv throws each n small (settles i c h) w.valid;
    waits = w.waits;
    full = w.full;
    silent = w.silent;
  }
  Step-Stuck {s} (counts i d) w = absurd (
      ground (
        arith,
        w.full,
        w.valid.counted,
        w.valid.due_ready i d,
        w.valid.room,
        w.waits,
        tally_full n s.ran i,
      ))
  Step-Stuck (notifies i d) w = absurd (ground (arith, w.silent i))
  Step-Stuck (checks e) w = absurd (ground (arith, w.waits))
  Step-Stuck (queues e) w = absurd (ground (arith, w.waits))

  From-Stuck : {s t : System R E} → From throws each n s t → Stuck s → Stuck t
  From-Stuck here w = w
  From-Stuck (later r st) w = Step-Stuck st (From-Stuck r w)

  -- `wait_for_all` over fewer than 2 ^ 64 futures can lose a wakeup: if the last waiter counts and
  -- notifies between its caller's look at the counter and its entry into the queue of `cv`, all
  -- futures are ready and the caller waits for ever, whatever happens.
  pub all_wakeup_lost :
      (fs : ℕ → SharedState R E) {s t : System R E} (i j : ℕ)
      → Clean fs
      → From throws each n (init fs) s
      → s.pc ≡ deciding
      → s.due i ≡ true
      → s.acquired + 1 ≡ n
      → ((j : ℕ) → s.telling j ≡ false)
      → From throws each n
          (record (waiter_notifies i (waiter_counts each n i s)) { pc = waiting })
          t
      → j < n
      → (t.pc ≡ waiting) × ((t.futures j).ready ≡ true)
  unfolding waiter_notifies waiter_counts
  all_wakeup_lost fs {s} {t} i j c r e d f q u h =
      let v = From-Inv throws each n small fs c r in
      let counted = waiter_counts each n i s in
      let told =
        Step-Inv throws each n small (notifies i (ground arith))
          (Step-Inv throws each n small (counts i d) v) in
      let stuck : Stuck (record (waiter_notifies i counted) { pc = waiting }) = record {
        valid = Step-Inv throws each n small (queues (ground arith)) told;
        waits = refl;
        full = ground (arith, f, small);
        silent = λ k. ground (arith, q k);
      } in
      let w = From-Stuck u stuck in
      (w.waits, ground (arith, w.full, w.valid.counted, tally_full n t.ran j, w.valid.ran_ready j))
