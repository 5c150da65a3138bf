-- ===== src/SharedMutex/Exclusion.antt =====
-- Who may hold a `shared_timed_mutex` together.
use boost_green_thread.Base.{
  ◌+◌, ◌≤◌, ◌<◌, Bool, true, false, ◌||◌, ◌≡◌, refl, ◌⊎◌, unsigned_mod, arith,
}
use boost_green_thread.SharedMutex.State.{fresh, more_shared}
use boost_green_thread.SharedMutex.System
use boost_green_thread.SharedMutex.System.{System, Op, stretch, after, Legal, Reach, start, later}

-- The flags say who holds the mutex besides the readers.
abbrev pub Flags : Bool → Bool → System → Type 0
Flags true upgrade s =
    (upgrade ≡ false) × (s.readers + s.upgraders ≡ 0) × (s.writers + s.pendings ≡ 1)
Flags false true s = (s.writers ≡ 0) × (s.upgraders + s.pendings ≡ 1) × (s.pendings ≤ s.readers)
Flags false false s = (s.writers ≡ 0) × (s.upgraders ≡ 0) × (s.pendings ≡ 0)

pub record Inv (s : System) : Type 0 where
  pub counted : s.state.shared_count ≡ s.readers + s.upgraders
  pub fits : s.state.shared_count < unsigned_mod
  pub flags : Flags s.state.exclusive s.state.upgrade s
  pub blocked :
      s.state.exclusive_waiting_blocked ≡ true → (more_shared s.state || s.state.exclusive) ≡ true

-- Every legal stretch keeps the invariant.
after-Inv : (s : System) (op : Op) → Legal s op → Inv s → Inv (after s op)
unfolding after stretch
after-Inv s System.lock_shared l v = ground arith
after-Inv s op l v = ground arith

asserts_hold_at : (s : System) (op : Op) → Legal s op → Inv s → (stretch op s.state).sound ≡ true
unfolding stretch
asserts_hold_at s System.lock_shared l v = ground arith
asserts_hold_at s op l v = ground arith

pub Reach-Inv : {s : System} → Reach s → Inv s
Reach-Inv start = record {
  counted = refl;
  fits = omega arith;
  flags = (refl, refl, refl);
  blocked = λ e. cc;
}
Reach-Inv (later {s} r op l) = after-Inv s op l (Reach-Inv r)

-- After any sequence of calls and turns behind waits, in which fewer than 2 ^ 32 - 1 threads share the
-- mutex, threads release or convert only what they hold, and no turn of
-- `try_unlock_shared_and_lock_until`, neither the call nor one behind its waits, runs while a thread has
-- upgrade ownership or waits to convert it: a writer is alone, so that there is none, or one and no
-- reader and no upgrader. At most one thread has the upgrade or waits to turn it into exclusive
-- ownership. `shared_count` is the number of readers and upgraders.
pub shared_exclusion :
    {s : System}
    → Reach s
    → ((s.writers ≡ 0) ⊎ ((s.writers ≡ 1) × (s.readers ≡ 0) × (s.upgraders ≡ 0)))
      × (s.upgraders + s.pendings ≤ 1)
      × (s.state.shared_count ≡ s.readers + s.upgraders)
shared_exclusion r = ground (arith, Reach-Inv r)

-- In every reachable state every `assert` of a legal call holds.
pub asserts_hold :
    {s : System} → Reach s → (op : Op) → Legal s op → (stretch op s.state).sound ≡ true
asserts_hold {s} r op l = asserts_hold_at s op l (Reach-Inv r)

-- When no thread holds the mutex, it is as it was constructed: no flag is left behind.
pub idle-fresh :
    {s : System} → Reach s → s.readers + s.writers + s.upgraders + s.pendings ≡ 0 → s.state ≡ fresh
idle-fresh r e = ground (arith, Reach-Inv r)

-- Without that condition exclusion fails: after such a sequence, the last reader's
-- `try_unlock_shared_and_lock_until` succeeds while a thread waits in `unlock_upgrade_and_lock` for this
-- reader to leave, and that thread then takes exclusive ownership too.
pub seizing_breaks_exclusion :
    {s : System}
    → Reach s
    → s.readers ≡ 1
    → s.pendings ≡ 1
    → s.state.exclusive ≡ false
    → let t = after s System.try_unlock_shared_and_lock_until in
      (t.writers ≡ 1)
      × (t.pendings ≡ 1)
      × ((after t System.unlock_upgrade_and_lock_woken).writers ≡ 2)
unfolding after stretch
seizing_breaks_exclusion r one_reader one_pending shared = ground (arith, Reach-Inv r)
