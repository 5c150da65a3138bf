-- ===== src/Yield/Delivers.antt =====
-- What the calls with `yield` give.
use boost_green_thread.Base.{
  ℕ, ◌<◌, Bool, Bool-cases, true, false, not, ◌&&◌, some, ◌==◌, if◌then◌else◌, ◌≡◌, ◌≢◌, ◌⊎◌, inl,
  inr, refl, arith,
}
use boost_green_thread.Yield.{
  Pc, outside, initiated, paused, Answer, gives, throws_system_error, throws_interrupted, Given,
  System, initiate, complete, get, run_on, Step, initiates, completes, pauses, runs_on, alters,
  Reach, start, later,
}

abbrev Place : Pc → Bool → ℕ → Type 0
Place outside p n = (p ≡ false) × (n ≡ 0)
Place initiated p n = ((p ≡ true) × (n ≡ 0)) ⊎ ((p ≡ false) × (n ≡ 1))
Place paused p n = ((p ≡ true) × (n ≡ 0)) ⊎ ((p ≡ false) × (n ≡ 1))

module _ {T : Type 0} where
  -- The end of a call that is handed `g`; `out` says whether it has a place for the error.
  abbrev pub outcome : Bool → Given T → Answer T
  outcome out g =
      if not out && not (g.error == 0) then throws_system_error g.error else gives (some g.value)

  abbrev Ended : System T → ℕ → Type 0
  Ended s k =
      (g : Given T) × (s.given k ≡ some g)
      × ((s.got k ≡ some (outcome (s.mode k) g)) ⊎ (s.got k ≡ some throws_interrupted))

  record Inv (s : System T) : Type 0 where
    place : Place s.pc s.pending s.posted
    ended : (k : ℕ) → k < s.calls → Ended s k
    asked : s.pc ≢ outside → s.mode s.calls ≡ s.has_out_ec
    written :
        s.posted ≡ 1
        → (g : Given T) × (s.given s.calls ≡ some g) × (s.ec ≡ g.error) × (s.value ≡ some g.value)

  module _ {s : System T} (v : Inv s) where
    open v use {place, ended, asked, written}

    initiate-Inv : (out : Bool) (stale : ℕ) → s.pc ≡ outside → Inv (initiate out stale s)
    unfolding initiate
    initiate-Inv out stale e = record {
      place = ground (arith, place);
      ended = λ k h. let (g, a, b) = ended k h in (g, ground (arith, a), ground (arith, b));
      asked = λ q. ground arith;
      written = λ q. absurd (ground (arith, place));
    }

    complete-Inv : (g : Given T) → s.pending ≡ true → Inv (complete g s)
    unfolding complete
    complete-Inv g e = record {
      place = ground (arith, place);
      ended = λ k h. let (x, a, b) = ended k h in (x, ground (arith, a), ground (arith, b));
      asked = asked;
      written = λ q. (g, ground arith, refl, refl);
    }

    run_on-Inv : s.pc ≡ paused → 0 < s.posted → Inv (run_on s)
    unfolding run_on get
    run_on-Inv e l =
        let (g, a, b, c) = written (ground (arith, place)) in
        record {
          place = ground (arith, place);
          ended = λ k h. elim (Bool-cases (k == s.calls)) [
            | inl q ↦ (g, ground (arith, a), ground (arith, a, b, c, asked))
            | inr q ↦
                let (x, y, z) = ended k (ground arith) in (x, ground (arith, y), ground (arith, z))
          ];
          asked = λ q. absurd (q refl);
          written = λ q. absurd (ground (arith, place));
        }

  Step-Inv : {s t : System T} → Step s t → Inv s → Inv t
  Step-Inv (initiates out stale e) v = initiate-Inv v out stale e
  Step-Inv (completes g e) v = complete-Inv v g e
  Step-Inv {s} (pauses e) v = record {
    place = ground (arith, Inv.place v);
    ended = Inv.ended v;
    asked = λ q. Inv.asked v (λ z. ground arith);
    written = Inv.written v;
  }
  Step-Inv (runs_on e l) v = run_on-Inv v e l
  Step-Inv (alters t) v = record {
    place = Inv.place v;
    ended = Inv.ended v;
    asked = Inv.asked v;
    written = Inv.written v;
  }

  Reach-Inv : {s : System T} → Reach s → Inv s
  Reach-Inv start = record {
    place = (refl, refl);
    ended = λ k h. absurd (omega arith);
    asked = λ q. absurd (q refl);
    written = λ q. absurd (omega arith);
  }
  Reach-Inv (later r st) = Step-Inv st (Reach-Inv r)

  -- Every call with `yield` or `yield[ec]` that has ended gave what its own operation handed to the
  -- handler: the value, or without `ec` a `system_error` where the error is not 0; or it threw
  -- `thread_interrupted`. So it is even if the handler runs before the thread pauses.
  pub yield_delivers :
      {s : System T} (k : ℕ)
      → Reach s
      → k < s.calls
      → (g : Given T) × (s.given k ≡ some g)
        × ((s.got k ≡ some (outcome (s.mode k) g)) ⊎ (s.got k ≡ some throws_interrupted))
  yield_delivers k r h = Inv.ended (Reach-Inv r) k h

  -- A thread that pauses in a call with `yield` has an operation whose handler is still to run, or it
  -- is posted to run on, but not both.
  pub yield_wakes :
      {s : System T}
      → Reach s
      → s.pc ≡ paused
      → ((s.pending ≡ true) × (s.posted ≡ 0)) ⊎ ((s.pending ≡ false) × (s.posted ≡ 1))
  yield_wakes r e = ground (arith, Inv.place (Reach-Inv r))
