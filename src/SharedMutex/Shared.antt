-- ===== src/SharedMutex/Shared.antt =====
-- Shared ownership. A stretch begins where the caller gets `state_change` and ends where it waits or
-- returns; `…_woken` is the stretch behind a wait.
use boost_green_thread.Base.{true, false, [], ◌∷◌, if◌then◌else◌}
use boost_green_thread.SharedMutex.State.{
  StateData, Stretch, quietly, done, answers, waits, shared_cond, upgrade_cond, one, CvStatus,
  no_timeout, timeout, can_lock_shared, add_shared, drop_shared, more_shared, is_lock_shared,
  release_waiters,
}

-- One turn of the loop; the next turn, behind the wait, is the same.
unfoldable pub lock_shared : StateData → Stretch
lock_shared s =
    if can_lock_shared s then quietly (add_shared s) done else quietly s (waits shared_cond)

unfoldable pub try_lock_shared : StateData → Stretch
try_lock_shared s =
    if can_lock_shared s then quietly (add_shared s) (answers true) else quietly s (answers false)

unfoldable pub try_lock_shared_until : StateData → Stretch
try_lock_shared_until s =
    if can_lock_shared s
    then quietly (add_shared s) (answers true)
    else quietly s (waits shared_cond)

unfoldable pub try_lock_shared_until_woken : CvStatus → StateData → Stretch
unfolding try_lock_shared_until
try_lock_shared_until_woken timeout s = quietly s (answers false)
try_lock_shared_until_woken no_timeout s = try_lock_shared_until s

-- The last reader hands the lock to a thread that waits in `unlock_upgrade_and_lock`.
unfoldable pub unlock_shared : StateData → Stretch
unlock_shared s =
    let d = drop_shared s in
    let sound = is_lock_shared s in
    if more_shared d
    then record { state = d; verdict = done; notices = []; sound = sound }
    else if d.upgrade
    then record {
      state = record d { upgrade = false; exclusive = true };
      verdict = done;
      notices = one upgrade_cond ∷ release_waiters;
      sound = sound;
    }
    else record {
      state = record d { exclusive_waiting_blocked = false };
      verdict = done;
      notices = release_waiters;
      sound = sound;
    }
