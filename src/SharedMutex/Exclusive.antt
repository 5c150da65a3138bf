-- ===== src/SharedMutex/Exclusive.antt =====
-- Exclusive ownership.
use boost_green_thread.Base.{true, false, ◌&&◌, ◌||◌, if◌then◌else◌}
use boost_green_thread.SharedMutex.State.{
  StateData, Stretch, quietly, done, answers, waits, exclusive_cond, CvStatus, no_timeout, timeout,
  more_shared, is_locked, is_free, release_waiters,
}

-- One turn of the loop; the next turn, behind the wait, is the same.
unfoldable pub lock : StateData → Stretch
lock s =
    if more_shared s || s.exclusive
    then quietly (record s { exclusive_waiting_blocked = true }) (waits exclusive_cond)
    else quietly (record s { exclusive = true }) done

unfoldable pub try_lock : StateData → Stretch
try_lock s =
    if more_shared s || s.exclusive
    then quietly s (answers false)
    else quietly (record s { exclusive = true }) (answers true)

unfoldable pub try_lock_until : StateData → Stretch
try_lock_until s =
    if more_shared s || s.exclusive
    then quietly (record s { exclusive_waiting_blocked = true }) (waits exclusive_cond)
    else quietly (record s { exclusive = true }) (answers true)

unfoldable pub try_lock_until_woken : CvStatus → StateData → Stretch
unfolding try_lock_until
try_lock_until_woken timeout s =
    if more_shared s || s.exclusive
    then record {
      state = record s { exclusive_waiting_blocked = false };
      verdict = answers false;
      notices = release_waiters;
      sound = true;
    }
    else quietly (record s { exclusive = true }) (answers true)
try_lock_until_woken no_timeout s = try_lock_until s

unfoldable pub unlock : StateData → Stretch
unlock s =
    let s' = record s { exclusive = false; exclusive_waiting_blocked = false } in
    record {
      state = s';
      verdict = done;
      notices = release_waiters;
      sound = is_locked s && is_free s';
    }
