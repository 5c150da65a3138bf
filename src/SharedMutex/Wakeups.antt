-- ===== src/SharedMutex/Wakeups.antt =====
-- Who is told when a `shared_timed_mutex` becomes available.
use boost_green_thread.Base.{◌<◌, unsigned_mod, Bool, true, false, ◌≡◌, ◌⊎◌, List, [], ◌∷◌, arith}
use boost_green_thread.SharedMutex.State.{
  StateData, Notice, one, all, exclusive_cond, shared_cond, upgrade_cond, CvStatus, answers,
  can_lock, can_lock_shared, can_lock_upgrade, more_shared,
}
use boost_green_thread.SharedMutex.Shared.{unlock_shared}
use boost_green_thread.SharedMutex.Upgrade.{unlock_upgrade}
use boost_green_thread.SharedMutex.Convert.{
  try_unlock_shared_and_lock_until_woken, try_unlock_shared_and_lock_upgrade_until_woken,
  try_unlock_upgrade_and_lock_until_woken,
}
use boost_green_thread.SharedMutex.System
use boost_green_thread.SharedMutex.System.{System, Op, stretch, Legal, Reach}
use boost_green_thread.SharedMutex.Exclusion.{Inv, Reach-Inv}

abbrev pub tells_exclusive : List Notice → Bool
tells_exclusive [] = false
tells_exclusive (one exclusive_cond ∷ ns) = true
tells_exclusive (_ ∷ ns) = tells_exclusive ns

abbrev pub tells_shared : List Notice → Bool
tells_shared [] = false
tells_shared (all shared_cond ∷ ns) = true
tells_shared (_ ∷ ns) = tells_shared ns

abbrev pub tells_upgrade : List Notice → Bool
tells_upgrade [] = false
tells_upgrade (one upgrade_cond ∷ ns) = true
tells_upgrade (_ ∷ ns) = tells_upgrade ns

-- If the test `can` comes to hold from `s` to `t`, then the notice is given.
abbrev pub Told : (StateData → Bool) → StateData → StateData → Bool → Type 0
Told can s t told = (can s ≡ true) ⊎ (can t ≡ false) ⊎ (told ≡ true)

module _ {s : System} (v : Inv s) where
  exclusive-Told_at :
      (op : Op)
      → Legal s op
      → let r = stretch op s.state in Told can_lock s.state r.state (tells_exclusive r.notices)
  unfolding stretch
  exclusive-Told_at System.lock_shared l = ground arith
  exclusive-Told_at op l = ground arith

  shared-Told_at :
      (op : Op)
      → Legal s op
      → let r = stretch op s.state in Told can_lock_shared s.state r.state (tells_shared r.notices)
  unfolding stretch
  shared-Told_at System.lock_shared l = ground arith
  shared-Told_at op l = ground arith

  upgrade-Told_at :
      (op : Op)
      → Legal s op
      → let r = stretch op s.state in Told can_lock_upgrade s.state r.state (tells_shared r.notices)
  unfolding stretch
  upgrade-Told_at System.lock_shared l = ground arith
  upgrade-Told_at op l = ground arith

-- In the sequences of `shared_exclusion`, whenever a turn makes the mutex available for exclusive
-- ownership, it calls `notify_one` on `exclusive_cond`, on which `lock` and `try_lock_until` wait, and
-- whenever it makes the mutex available for shared or for upgrade ownership, `notify_all` on
-- `shared_cond`, on which `lock_shared`, `lock_upgrade` and their timed forms wait. The timed conversions
-- wait for other states, or on another condition variable, and are not covered.
pub availability-Told :
    {s : System}
    → Reach s
    → (op : Op) → Legal s op
    → let r = stretch op s.state in
      Told can_lock s.state r.state (tells_exclusive r.notices)
      × Told can_lock_shared s.state r.state (tells_shared r.notices)
      × Told can_lock_upgrade s.state r.state (tells_shared r.notices)
availability-Told r op l =
    let v = Reach-Inv r in (exclusive-Told_at v op l, shared-Told_at v op l, upgrade-Told_at v op l)

last_reader_told_at :
    (s : System) (op : Op)
    → Inv s
    → Legal s op
    → 0 < s.pendings
    → let r = stretch op s.state in
      (more_shared s.state ≡ false)
      ⊎ (more_shared r.state ≡ true)
      ⊎ ((tells_upgrade r.notices ≡ true) × (r.state.exclusive ≡ true))
unfolding stretch
last_reader_told_at s System.lock_shared v l p = ground arith
last_reader_told_at s op v l p = ground arith

-- While a thread waits in `unlock_upgrade_and_lock`, the legal call that takes the last shared
-- ownership away notifies it, and has already set `exclusive` on its behalf.
pub last_reader_told :
    {s : System}
    → Reach s
    → (op : Op) → Legal s op
    → 0 < s.pendings
    → let r = stretch op s.state in
      (more_shared s.state ≡ false)
      ⊎ (more_shared r.state ≡ true)
      ⊎ ((tells_upgrade r.notices ≡ true) × (r.state.exclusive ≡ true))
last_reader_told {s} r op l p = last_reader_told_at s op (Reach-Inv r) l p

-- The timed conversions to exclusive ownership lose a wakeup: the `unlock_shared` that leaves one
-- shared owner, for which both of them wait, notifies nobody, although either would succeed.
pub conversion_untold :
    (s : StateData) (c : CvStatus)
    → s.shared_count ≡ 2
    → let r = unlock_shared s in
      (r.notices ≡ [])
      × ((try_unlock_shared_and_lock_until_woken c r.state).verdict ≡ answers true)
      × ((try_unlock_upgrade_and_lock_until_woken c r.state).verdict ≡ answers true)
unfolding unlock_shared try_unlock_shared_and_lock_until_woken
    try_unlock_upgrade_and_lock_until_woken
conversion_untold s c e = ground arith

-- The timed conversion to upgrade ownership loses a wakeup: the `unlock_upgrade` that leaves readers makes
-- upgrade ownership available and notifies only `shared_cond`, while the conversion waits for it on
-- `exclusive_cond`, and would succeed.
pub upgrade_untold :
    (s : StateData) (c : CvStatus)
    → s.exclusive ≡ false
    → s.exclusive_waiting_blocked ≡ false
    → 1 < s.shared_count
    → s.shared_count < unsigned_mod
    → let r = unlock_upgrade s in
      (can_lock_upgrade r.state ≡ true)
      × (tells_exclusive r.notices ≡ false)
      × ((try_unlock_shared_and_lock_upgrade_until_woken c r.state).verdict ≡ answers true)
unfolding unlock_upgrade try_unlock_shared_and_lock_upgrade_until_woken
upgrade_untold s c e b l m = ground arith
