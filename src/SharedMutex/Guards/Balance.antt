-- ===== src/SharedMutex/Guards/Balance.antt =====
-- The guards own exactly the shared ownerships of the mutex.
use boost_green_thread.Base.{
  ℕ, ◌+◌, ◌<◌, Bool, true, false, ◌≡◌, ◌⊎◌, refl, update, unsigned_mod, arith,
}
use boost_green_thread.Base.Tally.{tally, tally-le, tally-set, tally_none}
use boost_green_thread.SharedMutex.State.{CvStatus}
use boost_green_thread.SharedMutex.Guards.{
  Program, Op, unlock, destroy, try_lock_until_woken, call, operate, release, bind, adopt, move,
  swap, write_lock, write_unlock, Step, operates, releases, binds, adopts, moves, swaps,
  write_locks, write_unlocks, Reach, start, later,
}

pub record Inv (n : ℕ) (s : Program) : Type 0 where
  pub counted : s.state.shared_count ≡ tally n s.is_locked + s.loose
  pub bound : (i : ℕ) → s.is_locked i ≡ true → s.has_mutex i ≡ true
  pub fits : s.state.shared_count < unsigned_mod
  pub plain : s.state.upgrade ≡ false
  pub written : s.writer ≡ s.state.exclusive
  pub excluded : s.state.exclusive ≡ true → s.state.shared_count ≡ 0

module _ (n : ℕ) {s : Program} (v : Inv n s) where
  open v use {counted, bound, fits, plain, written, excluded}

  operate-Inv :
      (op : Op) (i : ℕ)
      → i < n
      → s.state.shared_count + 1 < unsigned_mod
      → ((c : CvStatus)
          → op ≡ try_lock_until_woken c
          → (s.has_mutex i ≡ true) × (s.is_locked i ≡ false))
      → Inv n (operate op i s)
  unfolding operate call
  operate-Inv (try_lock_until_woken c) i h room w = record {
    counted = ground (arith, counted, tally-set n s.is_locked i true, w c refl);
    bound = λ j e. ground (arith, bound j, w c refl);
    fits = ground (arith, fits);
    plain = ground (arith, plain);
    written = ground (arith, written);
    excluded = λ e. ground (arith, excluded);
  }
  operate-Inv op i h room w =
      let moved = λ (b : Bool). tally-set n s.is_locked i b in
      record {
        counted = ground (arith, counted, plain, moved true, moved false, tally-le n s.is_locked);
        bound = λ j e. ground (arith, bound j);
        fits = ground (arith, fits);
        plain = ground (arith, plain);
        written = ground (arith, written, plain, excluded);
        excluded = λ e. ground (arith, excluded, plain, counted, moved false);
      }

  release-Inv : (i : ℕ) → i < n → Inv n (release i s)
  unfolding release
  release-Inv i h = record {
    counted = ground (arith, counted, tally-set n s.is_locked i false);
    bound = λ j e. ground (arith, bound j);
    fits = fits;
    plain = plain;
    written = written;
    excluded = excluded;
  }

  bind-Inv : (i : ℕ) → i < n → s.has_mutex i ≡ false → Inv n (bind i s)
  unfolding bind
  bind-Inv i h e = record {
    counted = ground (arith, counted, bound i, tally-set n s.is_locked i false);
    bound = λ j q. ground (arith, bound j);
    fits = fits;
    plain = plain;
    written = written;
    excluded = excluded;
  }

  adopt-Inv : (i : ℕ) → i < n → s.has_mutex i ≡ false → 0 < s.loose → Inv n (adopt i s)
  unfolding adopt
  adopt-Inv i h e l = record {
    counted = ground (arith, counted, bound i, tally-set n s.is_locked i true);
    bound = λ j q. ground (arith, bound j);
    fits = fits;
    plain = plain;
    written = written;
    excluded = excluded;
  }

  move-Inv : (i j : ℕ) → i < n → j < n → s.has_mutex j ≡ false → Inv n (move i j s)
  unfolding move
  move-Inv i j h l e = record {
    counted = ground (
      arith,
      counted,
      bound j,
      tally-set n s.is_locked j (s.is_locked i),
      tally-set n (update s.is_locked j (s.is_locked i)) i false,
    );
    bound = λ k q. ground (arith, bound k, bound i);
    fits = fits;
    plain = plain;
    written = written;
    excluded = excluded;
  }

  swap-Inv : (i j : ℕ) → i < n → j < n → Inv n (swap i j s)
  unfolding swap
  swap-Inv i j h l = record {
    counted = ground (
      arith,
      counted,
      tally-set n s.is_locked i (s.is_locked j),
      tally-set n (update s.is_locked i (s.is_locked j)) j (s.is_locked i),
    );
    bound = λ k q. ground (arith, bound k, bound i, bound j);
    fits = fits;
    plain = plain;
    written = written;
    excluded = excluded;
  }

  write_lock-Inv : s.writer ≡ false → Inv n (write_lock s)
  unfolding write_lock
  write_lock-Inv e = record {
    counted = ground (arith, counted);
    bound = bound;
    fits = ground (arith, fits);
    plain = ground (arith, plain);
    written = ground (arith, written);
    excluded = λ q. ground (arith, excluded);
  }

  write_unlock-Inv : s.writer ≡ true → Inv n (write_unlock s)
  unfolding write_unlock
  write_unlock-Inv e = record {
    counted = ground (arith, counted);
    bound = bound;
    fits = ground (arith, fits);
    plain = ground (arith, plain);
    written = ground (arith, written);
    excluded = λ q. ground (arith, excluded);
  }

Step-Inv : (n : ℕ) {s t : Program} → Step n s t → Inv n s → Inv n t
Step-Inv n (operates op i h r w) v = operate-Inv n v op i h r w
Step-Inv n (releases i h) v = release-Inv n v i h
Step-Inv n (binds i h e) v = bind-Inv n v i h e
Step-Inv n (adopts i h e l) v = adopt-Inv n v i h e l
Step-Inv n (moves i j h l e) v = move-Inv n v i j h l e
Step-Inv n (swaps i j h l) v = swap-Inv n v i j h l
Step-Inv n (write_locks e) v = write_lock-Inv n v e
Step-Inv n (write_unlocks e) v = write_unlock-Inv n v e

Reach-Inv : (n : ℕ) {s : Program} → Reach n s → Inv n s
Reach-Inv n start = record {
  counted = ground (arith, tally_none n);
  bound = λ i e. ground arith;
  fits = omega arith;
  plain = refl;
  written = refl;
  excluded = λ e. ground arith;
}
Reach-Inv n (later r st) = Step-Inv n st (Reach-Inv n r)

-- The guards do not leak: whatever `shared_lock`s, on a mutex that is otherwise only locked
-- exclusively and shared fewer than 2 ^ 32 - 1 times, are locked, moved, swapped, released, adopted
-- and destroyed, `shared_count` is the number of guards that own the mutex and of ownerships that
-- `release` has left to the program; while there is one, nobody owns it exclusively; and unlocking or
-- destroying a guard meets no failing assert.
pub guards_own :
    (n : ℕ) {s : Program} (i : ℕ)
    → Reach n s
    → i < n
    → (s.state.shared_count ≡ tally n s.is_locked + s.loose)
      × ((s.is_locked i ≡ false) ⊎ (s.writer ≡ false))
      × ((call unlock i s).sound ≡ true)
      × ((call destroy i s).sound ≡ true)
unfolding call
guards_own n {s} i r h =
    let v = Reach-Inv n r in
    (
      Inv.counted v,
      ground (arith, Inv.written v, Inv.excluded v, Inv.counted v, tally-set n s.is_locked i false),
      ground (arith, Inv.excluded v, Inv.counted v, tally-set n s.is_locked i false),
      ground (arith, Inv.excluded v, Inv.counted v, tally-set n s.is_locked i false),
    )
