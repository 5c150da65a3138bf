-- ===== src/SharedMutex/Upgrade.antt =====
-- Upgrade ownership: one of the readers, that may become the writer.
use boost_green_thread.Base.{Bool, true, false, [], ◌∷◌, ◌||◌, if◌then◌else◌}
use boost_green_thread.SharedMutex.State.{
  StateData, Stretch, quietly, done, answers, waits, shared_cond, all, CvStatus, no_timeout,
  timeout, more_shared, add_shared, drop_shared, is_lock_upgraded, release_waiters,
}

abbrev refused : StateData → Bool
refused s = s.exclusive || s.exclusive_waiting_blocked || s.upgrade

abbrev taken : StateData → StateData
taken s = record (add_shared s) { upgrade = true }

-- One turn of the loop; the next turn, behind the wait, is the same.
unfoldable pub lock_upgrade : StateData → Stretch
lock_upgrade s = if refused s then quietly s (waits shared_cond) else quietly (taken s) done

unfoldable pub try_lock_upgrade_until : StateData → Stretch
try_lock_upgrade_until s =
    if refused s then quietly s (waits shared_cond) else quietly (taken s) (answers true)

unfoldable pub try_lock_upgrade_until_woken : CvStatus → StateData → Stretch
unfolding try_lock_upgrade_until
try_lock_upgrade_until_woken timeout s =
    if refused s then quietly s (answers false) else quietly (taken s) (answers true)
try_lock_upgrade_until_woken no_timeout s = try_lock_upgrade_until s

unfoldable pub try_lock_upgrade : StateData → Stretch
try_lock_upgrade s = if refused s then quietly s (answers false) else record {
  state = taken s;
  verdict = answers true;
  notices = [];
  sound = is_lock_upgraded (taken s);
}

unfoldable pub unlock_upgrade : StateData → Stretch
unlock_upgrade s =
    let d = record (drop_shared s) { upgrade = false } in
    if more_shared d
    then record { state = d; verdict = done; notices = all shared_cond ∷ []; sound = true }
    else record {
      state = record d { exclusive_waiting_blocked = false };
      verdict = done;
      notices = release_waiters;
      sound = true;
    }
