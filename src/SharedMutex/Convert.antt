-- ===== src/SharedMutex/Convert.antt =====
-- Conversions between the three kinds of ownership.
use boost_green_thread.Base.{Bool, true, false, not, [], ◌&&◌, ◌||◌, ◌==◌, if◌then◌else◌}
use boost_green_thread.SharedMutex.State.{
  StateData, Stretch, quietly, done, answers, waits, shared_cond, exclusive_cond, upgrade_cond,
  CvStatus, no_timeout, timeout, more_shared, add_shared, drop_shared, is_locked, is_lock_shared,
  is_lock_upgraded, release_waiters,
}

-- Behind `assert_lock_upgraded` and `unlock_shared`, and behind each wait: a turn of the loop.
unfoldable pub unlock_upgrade_and_lock_woken : StateData → Stretch
unlock_upgrade_and_lock_woken s =
    if more_shared s
    then quietly s (waits upgrade_cond)
    else let s' = record s { upgrade = false; exclusive = true } in
      record { state = s'; verdict = done; notices = []; sound = is_locked s' }

unfoldable pub unlock_upgrade_and_lock : StateData → Stretch
unfolding unlock_upgrade_and_lock_woken
unlock_upgrade_and_lock s =
    let r = unlock_upgrade_and_lock_woken (drop_shared s) in
    record r { sound = is_lock_upgraded s && r.sound }

unfoldable pub unlock_and_lock_upgrade : StateData → Stretch
unlock_and_lock_upgrade s =
    let s' = record (add_shared s) {
      exclusive = false;
      upgrade = true;
      exclusive_waiting_blocked = false;
    } in
    record {
      state = s';
      verdict = done;
      notices = release_waiters;
      sound = is_locked s && is_lock_upgraded s';
    }

unfoldable pub try_unlock_upgrade_and_lock : StateData → Stretch
try_unlock_upgrade_and_lock s =
    let s' = record s { shared_count = 0; exclusive = true; upgrade = false } in
    let sound = is_lock_upgraded s in
    if not s.exclusive && not s.exclusive_waiting_blocked && s.upgrade && s.shared_count == 1
    then record { state = s'; verdict = answers true; notices = []; sound = sound && is_locked s' }
    else record { state = s; verdict = answers false; notices = []; sound = sound }

-- The end of both timed conversions to exclusive ownership.
abbrev seized : StateData → StateData
seized s = record s {
  upgrade = false;
  exclusive = true;
  exclusive_waiting_blocked = false;
  shared_count = 0;
}

-- One turn of `for (;;)` in both, behind the wait.
abbrev seize_woken : CvStatus → StateData → Stretch
seize_woken status s =
    if s.shared_count == 1
    then quietly (seized s) (answers true)
    else quietly s (elim status [ timeout ↦ answers false | no_timeout ↦ waits shared_cond ])

unfoldable pub try_unlock_upgrade_and_lock_until : StateData → Stretch
try_unlock_upgrade_and_lock_until s = record {
  state = if s.shared_count == 1 then seized s else s;
  verdict = if s.shared_count == 1 then answers true else waits shared_cond;
  notices = [];
  sound = is_lock_upgraded s;
}

unfoldable pub try_unlock_upgrade_and_lock_until_woken : CvStatus → StateData → Stretch
try_unlock_upgrade_and_lock_until_woken status s = seize_woken status s

unfoldable pub unlock_and_lock_shared : StateData → Stretch
unlock_and_lock_shared s = record {
  state = record (add_shared s) { exclusive = false; exclusive_waiting_blocked = false };
  verdict = done;
  notices = release_waiters;
  sound = is_locked s;
}

unfoldable pub try_unlock_shared_and_lock : StateData → Stretch
try_unlock_shared_and_lock s =
    let sound = is_lock_shared s in
    if not s.exclusive && not s.exclusive_waiting_blocked && not s.upgrade && s.shared_count == 1
    then record {
      state = record s { shared_count = 0; exclusive = true };
      verdict = answers true;
      notices = [];
      sound = sound;
    }
    else record { state = s; verdict = answers false; notices = []; sound = sound }

unfoldable pub try_unlock_shared_and_lock_until : StateData → Stretch
try_unlock_shared_and_lock_until s = record {
  state = if s.shared_count == 1 then seized s else s;
  verdict = if s.shared_count == 1 then answers true else waits shared_cond;
  notices = [];
  sound = is_lock_shared s;
}

unfoldable pub try_unlock_shared_and_lock_until_woken : CvStatus → StateData → Stretch
try_unlock_shared_and_lock_until_woken status s = seize_woken status s

unfoldable pub unlock_upgrade_and_lock_shared : StateData → Stretch
unlock_upgrade_and_lock_shared s = record {
  state = record s { upgrade = false; exclusive_waiting_blocked = false };
  verdict = done;
  notices = release_waiters;
  sound = is_lock_upgraded s;
}

abbrev blocks_upgrade : StateData → Bool
blocks_upgrade s = s.exclusive || s.exclusive_waiting_blocked || s.upgrade

unfoldable pub try_unlock_shared_and_lock_upgrade : StateData → Stretch
try_unlock_shared_and_lock_upgrade s = record {
  state = if blocks_upgrade s then s else record s { upgrade = true };
  verdict = answers (not (blocks_upgrade s));
  notices = [];
  sound = is_lock_shared s;
}

unfoldable pub try_unlock_shared_and_lock_upgrade_until : StateData → Stretch
try_unlock_shared_and_lock_upgrade_until s = record {
  state = if blocks_upgrade s then s else record s { upgrade = true };
  verdict = if blocks_upgrade s then waits exclusive_cond else answers true;
  notices = [];
  sound = is_lock_shared s;
}

unfoldable pub try_unlock_shared_and_lock_upgrade_until_woken : CvStatus → StateData → Stretch
try_unlock_shared_and_lock_upgrade_until_woken status s =
    if blocks_upgrade s
    then quietly s (elim status [ timeout ↦ answers false | no_timeout ↦ waits exclusive_cond ])
    else quietly (record s { upgrade = true }) (answers true)
