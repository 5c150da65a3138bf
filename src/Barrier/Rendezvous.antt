-- ===== src/Barrier/Rendezvous.antt =====
-- Threads that come to a barrier, wait, and leave it, in any order. A wait on `m_cond` may end at any
-- time, which covers every way of waking.
use boost_green_thread.Base.{
  ℕ, suc, ◌+◌, ◌%◌, ◌<◌, ◌≤◌, Bool, true, false, ◌≡◌, ◌≢◌, ◌⊎◌, refl, update, unsigned_mod,
  if◌then◌else◌, arith,
}
use boost_green_thread.Base.Tally.{tally, tally-set, tally_none}
use boost_green_thread.Barrier.{Barrier, Verdict, answers, waits, wait, wait_woken}

-- Outside, or in the loop of `wait` with the generation that it has seen.
pub data Pc : Type 0 where
  outside : Pc
  inside : (gen : ℕ) → Pc

-- `asleep` says who waits on `m_cond` and has not been notified; `trips` counts the complete
-- generations, and `entered i` is what it was when thread `i` came; `arrived` is who has come in this
-- generation, and `elected` counts the calls that have answered true.
pub record System : Type 0 where
  pub barrier : Barrier
  pub pc : ℕ → Pc
  pub asleep : ℕ → Bool
  pub trips : ℕ
  pub entered : ℕ → ℕ
  pub arrived : ℕ → Bool
  pub elected : ℕ

abbrev pub after : Verdict → Pc
after (answers _) = outside
after (waits gen) = inside gen

abbrev pub is_true : Verdict → Bool
is_true (answers b) = b
is_true (waits _) = false

-- `size` has what the completion function returns for the next generation.
unfoldable pub arrive : ℕ → ℕ → System → System
unfolding wait
arrive size i s =
    let r = wait (record s.barrier { size = size }) in
    record {
      barrier = r.barrier;
      pc = update s.pc i (after r.verdict);
      asleep = if r.notified then (λ _. false) else update s.asleep i true;
      trips = if r.notified then suc s.trips else s.trips;
      entered = update s.entered i s.trips;
      arrived = if r.notified then (λ _. false) else update s.arrived i true;
      elected = if is_true r.verdict then suc s.elected else s.elected;
    }

abbrev pub is_waits : Verdict → Bool
is_waits (waits _) = true
is_waits (answers _) = false

-- Thread `i` looks again, with the generation `gen` that it has seen.
unfoldable pub look : ℕ → ℕ → System → System
unfolding wait_woken
look gen i s =
    let r = wait_woken gen s.barrier in
    record s {
      pc = update s.pc i (after r.verdict);
      asleep = update s.asleep i (is_waits r.verdict);
    }

-- `n` threads; the generation `g` is complete with `sizes g` of them.
module _ (n : ℕ) (sizes : ℕ → ℕ) (sized : (g : ℕ) → (0 < sizes g) × (sizes g < unsigned_mod)) where
  abbrev pub init : System
  init = record {
    barrier = record { count = sizes 0; generation = 0; size = sizes 1 };
    pc = λ _. outside;
    asleep = λ _. false;
    trips = 0;
    entered = λ _. 0;
    arrived = λ _. false;
    elected = 0;
  }

  -- A thread looks again before 2 ^ 32 further generations are complete.
  pub data Step (s : System) : System → Type 0 where
    arrives : (i : ℕ) → i < n → s.pc i ≡ outside → Step s (arrive (sizes (suc s.trips)) i s)
    looks :
        (i gen : ℕ)
        → s.pc i ≡ inside gen
        → s.trips < s.entered i + unsigned_mod
        → Step s (look gen i s)

  pub data Reach : System → Type 0 where
    start : Reach init
    later : {s t : System} → Reach s → Step s t → Reach t

  record Inv (s : System) : Type 0 where
    missing : s.barrier.count + tally n s.arrived ≡ sizes s.trips
    unfinished : 0 < s.barrier.count
    numbered : s.barrier.generation ≡ s.trips % unsigned_mod
    once : s.elected ≡ s.trips
    seen :
        (i gen : ℕ)
        → s.pc i ≡ inside gen
        → (gen ≡ s.entered i % unsigned_mod)
          × (s.entered i ≤ s.trips)
          × ((s.entered i < s.trips) ⊎ (s.arrived i ≡ true))
    present : (i : ℕ) → s.arrived i ≡ true → (s.pc i ≢ outside) × (s.entered i ≡ s.trips)
    sleeping : (i : ℕ) → s.asleep i ≡ true → (s.pc i ≢ outside) × (s.entered i ≡ s.trips)

  module _ {s : System} (v : Inv s) where
    open v use {missing, unfinished, numbered, once, seen, present, sleeping}

    arrive-Inv : (i : ℕ) → i < n → s.pc i ≡ outside → Inv (arrive (sizes (suc s.trips)) i s)
    unfolding arrive
    arrive-Inv i h e =
        let new : s.arrived i ≡ false = ground (arith, present i) in
        let more = tally-set n s.arrived i true h in
        let size = sized s.trips in
        let next = sized (suc s.trips) in
        record {
          missing = ground (arith, missing, unfinished, new, more, size, tally_none n);
          unfinished = ground (arith, missing, unfinished, size, next);
          numbered = ground (arith, numbered, missing, unfinished, size);
          once = ground (arith, once, missing, unfinished, size);
          seen = λ j gen q. ground (arith, seen j gen, numbered, missing, unfinished, size);
          present = λ j q. ground (arith, present j, missing, unfinished, size);
          sleeping = λ j q. ground (arith, sleeping j, missing, unfinished, size);
        }

    look-Inv :
        (i gen : ℕ)
        → s.pc i ≡ inside gen
        → s.trips < s.entered i + unsigned_mod
        → Inv (look gen i s)
    unfolding look
    look-Inv i gen e near = record {
      missing = missing;
      unfinished = unfinished;
      numbered = numbered;
      once = once;
      seen = λ j g q. ground (arith, seen j g, seen i gen e);
      present = λ j q. ground (arith, present j, seen i gen e, numbered);
      sleeping = λ j q. ground (arith, sleeping j, seen i gen e, numbered, near);
    }

  Reach-Inv : {s : System} → Reach s → Inv s
  Reach-Inv start = record {
    missing = ground (arith, tally_none n);
    unfinished = ground (arith, sized 0);
    numbered = refl;
    once = refl;
    seen = λ i gen e. ground arith;
    present = λ i e. ground arith;
    sleeping = λ i e. ground arith;
  }
  Reach-Inv (later r (arrives i h e)) = arrive-Inv (Reach-Inv r) i h e
  Reach-Inv (later r (looks i gen e l)) = look-Inv (Reach-Inv r) i gen e l

  -- A rendezvous: of the threads that come to a barrier, none leaves `wait` before its generation is
  -- complete, and then none is left behind. A thread that waits is one of those counted in the
  -- generation, which still misses some, and it would go on waiting if it looked; or its generation
  -- is complete, it has been notified, and it leaves when it looks. Each complete generation has made
  -- one call answer true. The completion function gives numbers from 1 to 2 ^ 32 - 1, and a thread
  -- looks again before 2 ^ 32 further generations are complete.
  pub rendezvous :
      {s : System} (i gen : ℕ)
      → Reach s
      → s.pc i ≡ inside gen
      → s.trips < s.entered i + unsigned_mod
      → (s.elected ≡ s.trips)
        × (((s.entered i ≡ s.trips)
              × (s.arrived i ≡ true)
              × (tally n s.arrived < sizes s.trips)
              × ((look gen i s).pc i ≡ inside gen))
            ⊎ ((s.entered i < s.trips) × (s.asleep i ≡ false) × ((look gen i s).pc i ≡ outside)))
  unfolding look
  rendezvous {s} i gen r e near =
      let v = Reach-Inv r in
      (
        v.once,
        ground (arith, v.missing, v.unfinished, v.numbered, v.seen i gen e, v.sleeping i, near),
      )
