-- ===== src/SharedMutex/System.antt =====
-- Any number of threads that share one `shared_timed_mutex`, by how many hold it in which way.
-- `state_change` makes each stretch one step, and a thread that waits may wake at any time, so
-- every interleaving is a sequence of stretches. Callers keep the rules: they release or convert
-- only what they hold.
use boost_green_thread.Base.{ℕ, ◌+◌, ◌-◌, ◌<◌, Bool, true, false, ◌&&◌, ltb, ◌≡◌, unsigned_mod}
use boost_green_thread.SharedMutex.State.{
  StateData, fresh, Stretch, Verdict, done, answers, waits, CvStatus,
}
use boost_green_thread.SharedMutex.Shared
use boost_green_thread.SharedMutex.Exclusive
use boost_green_thread.SharedMutex.Upgrade
use boost_green_thread.SharedMutex.Convert

pub data Op : Type 0 where
  lock_shared try_lock_shared try_lock_shared_until unlock_shared : Op
  lock try_lock try_lock_until unlock : Op
  lock_upgrade try_lock_upgrade_until try_lock_upgrade unlock_upgrade : Op
  unlock_upgrade_and_lock unlock_upgrade_and_lock_woken unlock_and_lock_upgrade : Op
  try_unlock_upgrade_and_lock try_unlock_upgrade_and_lock_until : Op
  unlock_and_lock_shared try_unlock_shared_and_lock try_unlock_shared_and_lock_until : Op
  unlock_upgrade_and_lock_shared try_unlock_shared_and_lock_upgrade : Op
  try_unlock_shared_and_lock_upgrade_until : Op
  try_lock_shared_until_woken try_lock_until_woken try_lock_upgrade_until_woken : CvStatus → Op
  try_unlock_upgrade_and_lock_until_woken try_unlock_shared_and_lock_until_woken : CvStatus → Op
  try_unlock_shared_and_lock_upgrade_until_woken : CvStatus → Op

unfoldable pub stretch : Op → StateData → Stretch
unfolding Shared.lock_shared Shared.try_lock_shared Shared.try_lock_shared_until
    Shared.try_lock_shared_until_woken Shared.unlock_shared Exclusive.lock Exclusive.try_lock
    Exclusive.try_lock_until Exclusive.try_lock_until_woken Exclusive.unlock Upgrade.lock_upgrade
    Upgrade.try_lock_upgrade_until Upgrade.try_lock_upgrade_until_woken Upgrade.try_lock_upgrade
    Upgrade.unlock_upgrade Convert.unlock_upgrade_and_lock Convert.unlock_upgrade_and_lock_woken
    Convert.unlock_and_lock_upgrade Convert.try_unlock_upgrade_and_lock
    Convert.try_unlock_upgrade_and_lock_until Convert.try_unlock_upgrade_and_lock_until_woken
    Convert.unlock_and_lock_shared Convert.try_unlock_shared_and_lock
    Convert.try_unlock_shared_and_lock_until Convert.try_unlock_shared_and_lock_until_woken
    Convert.unlock_upgrade_and_lock_shared Convert.try_unlock_shared_and_lock_upgrade
    Convert.try_unlock_shared_and_lock_upgrade_until
    Convert.try_unlock_shared_and_lock_upgrade_until_woken
stretch lock_shared s = Shared.lock_shared s
stretch try_lock_shared s = Shared.try_lock_shared s
stretch try_lock_shared_until s = Shared.try_lock_shared_until s
stretch (try_lock_shared_until_woken c) s = Shared.try_lock_shared_until_woken c s
stretch unlock_shared s = Shared.unlock_shared s
stretch lock s = Exclusive.lock s
stretch try_lock s = Exclusive.try_lock s
stretch try_lock_until s = Exclusive.try_lock_until s
stretch (try_lock_until_woken c) s = Exclusive.try_lock_until_woken c s
stretch unlock s = Exclusive.unlock s
stretch lock_upgrade s = Upgrade.lock_upgrade s
stretch try_lock_upgrade_until s = Upgrade.try_lock_upgrade_until s
stretch (try_lock_upgrade_until_woken c) s = Upgrade.try_lock_upgrade_until_woken c s
stretch try_lock_upgrade s = Upgrade.try_lock_upgrade s
stretch unlock_upgrade s = Upgrade.unlock_upgrade s
stretch unlock_upgrade_and_lock s = Convert.unlock_upgrade_and_lock s
stretch unlock_upgrade_and_lock_woken s = Convert.unlock_upgrade_and_lock_woken s
stretch unlock_and_lock_upgrade s = Convert.unlock_and_lock_upgrade s
stretch try_unlock_upgrade_and_lock s = Convert.try_unlock_upgrade_and_lock s
stretch try_unlock_upgrade_and_lock_until s = Convert.try_unlock_upgrade_and_lock_until s
stretch (try_unlock_upgrade_and_lock_until_woken c) s =
    Convert.try_unlock_upgrade_and_lock_until_woken c s
stretch unlock_and_lock_shared s = Convert.unlock_and_lock_shared s
stretch try_unlock_shared_and_lock s = Convert.try_unlock_shared_and_lock s
stretch try_unlock_shared_and_lock_until s = Convert.try_unlock_shared_and_lock_until s
stretch (try_unlock_shared_and_lock_until_woken c) s =
    Convert.try_unlock_shared_and_lock_until_woken c s
stretch unlock_upgrade_and_lock_shared s = Convert.unlock_upgrade_and_lock_shared s
stretch try_unlock_shared_and_lock_upgrade s = Convert.try_unlock_shared_and_lock_upgrade s
stretch try_unlock_shared_and_lock_upgrade_until s =
    Convert.try_unlock_shared_and_lock_upgrade_until s
stretch (try_unlock_shared_and_lock_upgrade_until_woken c) s =
    Convert.try_unlock_shared_and_lock_upgrade_until_woken c s

-- What a thread holds; `pending` is a thread that waits in `unlock_upgrade_and_lock`.
pub data Hold : Type 0 where
  nothing reader writer upgrader pending : Hold

pub record System : Type 0 where
  pub state : StateData
  pub readers : ℕ
  pub writers : ℕ
  pub upgraders : ℕ
  pub pendings : ℕ

abbrev pub init : System
init = record { state = fresh; readers = 0; writers = 0; upgraders = 0; pendings = 0 }

abbrev pub has : System → Hold → Bool
has s nothing = true
has s reader = ltb 0 s.readers
has s writer = ltb 0 s.writers
has s upgrader = ltb 0 s.upgraders
has s pending = ltb 0 s.pendings

abbrev pub leave : System → Hold → System
leave s nothing = s
leave s reader = record s { readers = s.readers - 1 }
leave s writer = record s { writers = s.writers - 1 }
leave s upgrader = record s { upgraders = s.upgraders - 1 }
leave s pending = record s { pendings = s.pendings - 1 }

abbrev pub join : System → Hold → System
join s nothing = s
join s reader = record s { readers = s.readers + 1 }
join s writer = record s { writers = s.writers + 1 }
join s upgrader = record s { upgraders = s.upgraders + 1 }
join s pending = record s { pendings = s.pendings + 1 }

-- What the caller holds before the stretch.
abbrev pub needs : Op → Hold
needs unlock_shared = reader
needs unlock = writer
needs unlock_upgrade = upgrader
needs unlock_upgrade_and_lock = upgrader
needs unlock_upgrade_and_lock_woken = pending
needs unlock_and_lock_upgrade = writer
needs try_unlock_upgrade_and_lock = upgrader
needs try_unlock_upgrade_and_lock_until = upgrader
needs (try_unlock_upgrade_and_lock_until_woken _) = upgrader
needs unlock_and_lock_shared = writer
needs try_unlock_shared_and_lock = reader
needs try_unlock_shared_and_lock_until = reader
needs (try_unlock_shared_and_lock_until_woken _) = reader
needs unlock_upgrade_and_lock_shared = upgrader
needs try_unlock_shared_and_lock_upgrade = reader
needs try_unlock_shared_and_lock_upgrade_until = reader
needs (try_unlock_shared_and_lock_upgrade_until_woken _) = reader
needs _ = nothing

-- What the caller holds if the stretch succeeds.
abbrev pub gives : Op → Hold
gives lock_shared = reader
gives try_lock_shared = reader
gives try_lock_shared_until = reader
gives (try_lock_shared_until_woken _) = reader
gives unlock_and_lock_shared = reader
gives unlock_upgrade_and_lock_shared = reader
gives lock_upgrade = upgrader
gives try_lock_upgrade = upgrader
gives try_lock_upgrade_until = upgrader
gives (try_lock_upgrade_until_woken _) = upgrader
gives unlock_and_lock_upgrade = upgrader
gives try_unlock_shared_and_lock_upgrade = upgrader
gives try_unlock_shared_and_lock_upgrade_until = upgrader
gives (try_unlock_shared_and_lock_upgrade_until_woken _) = upgrader
gives unlock_shared = nothing
gives unlock = nothing
gives unlock_upgrade = nothing
gives _ = writer

-- What it holds while it waits.
abbrev pub keeps : Op → Hold
keeps unlock_upgrade_and_lock = pending
keeps op = needs op

abbrev pub result : Op → Verdict → Hold
result op done = gives op
result op (answers true) = gives op
result op (answers false) = needs op
result op (waits _) = keeps op

unfoldable pub after : System → Op → System
after s op =
    let r = stretch op s.state in
    record (join (leave s (needs op)) (result op r.verdict)) { state = r.state }

-- The timed conversion from shared to exclusive ownership.
abbrev pub seizes : Op → Bool
seizes try_unlock_shared_and_lock_until = true
seizes (try_unlock_shared_and_lock_until_woken _) = true
seizes _ = false

-- Fewer than 2 ^ 32 - 1 threads share the mutex, and no turn of the timed conversion from shared to
-- exclusive ownership, the call or one behind its waits, runs while the state has `upgrade` set.
pub record Legal (s : System) (op : Op) : Type 0 where
  pub holds : has s (needs op) ≡ true
  pub room : s.readers + s.upgraders + 1 < unsigned_mod
  pub alone : (seizes op && s.state.upgrade) ≡ false

pub data Reach : System → Type 0 where
  start : Reach init
  later : {s : System} → Reach s → (op : Op) → Legal s op → Reach (after s op)
