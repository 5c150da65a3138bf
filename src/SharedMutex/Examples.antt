-- ===== src/SharedMutex/Examples.antt =====
-- The theorems on `shared_timed_mutex` at concrete states.
use boost_green_thread.Base.{◌+◌, ◌≤◌, true, false, ◌≡◌, ◌⊎◌, refl, arith}
use boost_green_thread.SharedMutex.State.{can_lock, can_lock_shared, can_lock_upgrade}
use boost_green_thread.SharedMutex.System
use boost_green_thread.SharedMutex.System.{System, Op, stretch, after, Legal, Reach, start, later}
use boost_green_thread.Base.Tally.{tally}
use boost_green_thread.SharedMutex.Guards
use boost_green_thread.SharedMutex.Guards.Balance.{guards_own}
use boost_green_thread.SharedMutex.Exclusion.{shared_exclusion}
use boost_green_thread.SharedMutex.Wakeups.{Told, tells_exclusive, tells_shared, availability-Told}

-- One reader; one reader and one upgrader; one reader and a thread that waits to upgrade.
abbrev reading : System
reading = after System.init System.lock_shared

abbrev upgradable : System
upgradable = after reading System.lock_upgrade

abbrev upgrading : System
upgrading = after upgradable System.unlock_upgrade_and_lock

reading-Reach : Reach reading
reading-Reach =
    later start System.lock_shared (record { holds = refl; room = omega arith; alone = refl })

upgradable-Reach : Reach upgradable
unfolding after stretch
upgradable-Reach =
    later reading-Reach System.lock_upgrade
      (record { holds = refl; room = omega arith; alone = refl })

upgrading-Reach : Reach upgrading
unfolding after stretch
upgrading-Reach =
    later upgradable-Reach System.unlock_upgrade_and_lock
      (record { holds = refl; room = omega arith; alone = refl })

reading_ends-Legal : Legal reading System.unlock_shared
unfolding after stretch
reading_ends-Legal = record { holds = refl; room = omega arith; alone = refl }

shared_exclusion_example :
    ((upgrading.writers ≡ 0)
      ⊎ ((upgrading.writers ≡ 1) × (upgrading.readers ≡ 0) × (upgrading.upgraders ≡ 0)))
    × (upgrading.upgraders + upgrading.pendings ≤ 1)
    × (upgrading.state.shared_count ≡ upgrading.readers + upgrading.upgraders)
shared_exclusion_example = shared_exclusion upgrading-Reach

availability-Told_example :
    let r = stretch System.unlock_shared reading.state in
    Told can_lock reading.state r.state (tells_exclusive r.notices)
    × Told can_lock_shared reading.state r.state (tells_shared r.notices)
    × Told can_lock_upgrade reading.state r.state (tells_shared r.notices)
availability-Told_example = availability-Told reading-Reach System.unlock_shared reading_ends-Legal

-- One guard that is bound and locks.
abbrev guarded : Guards.Program
guarded = Guards.operate Guards.lock 0 (Guards.bind 0 Guards.init)

guarded-Reach : Guards.Reach 1 guarded
unfolding Guards.bind Guards.operate Guards.call
guarded-Reach =
    Guards.later (Guards.later Guards.start (Guards.binds 0 (omega arith) refl))
      (Guards.operates Guards.lock 0 (omega arith) (omega arith) (λ c e. ground arith))

guards_own_example :
    (guarded.state.shared_count ≡ tally 1 guarded.is_locked + guarded.loose)
    × ((guarded.is_locked 0 ≡ false) ⊎ (guarded.writer ≡ false))
    × ((Guards.call Guards.unlock 0 guarded).sound ≡ true)
    × ((Guards.call Guards.destroy 0 guarded).sound ≡ true)
guards_own_example = guards_own 1 0 guarded-Reach (omega arith)
