-- ===== src/Queue/Push.antt =====
-- The calls that add items. A stretch begins where the caller gets `the_mutex_`; `…_woken` is the
-- stretch behind a wait.
use boost_green_thread.Base.{true, false, not, ◌&&◌, List, [], ◌∷◌, ◌++◌, if◌then◌else◌}
use boost_green_thread.Queue.State.{
  Queue, Stretch, Notice, quietly, full_cv, empty_cv, one, answers, leaves, waits, CvStatus,
  no_timeout, timeout, full,
}

module _ {ℓ} {T : Type ℓ} where
  -- `the_queue_.push(data); empty_cv_.notify_one(); return true;`
  abbrev pub added : Queue T → T → Stretch T
  added q x = record {
    queue = record q { items = q.items ++ x ∷ [] };
    verdict = answers true;
    notices = one empty_cv ∷ [];
  }

  -- From the loop on, in which it waits until the queue is closed or not full.
  unfoldable pub push_woken : T → Queue T → Stretch T
  push_woken x q =
      if full q && q.opened
      then quietly q (waits full_cv)
      else if not q.opened
      then quietly q (answers false)
      else added q x

  unfoldable pub push : T → Queue T → Stretch T
  unfolding push_woken
  push x q = if not q.opened then quietly q (answers false) else push_woken x q

  unfoldable pub try_push : T → Queue T → Stretch T
  try_push x q =
      if not q.opened
      then quietly q (answers false)
      else if full q
      then quietly q (answers false)
      else added q x

  -- From the loop on; `ret` is the status of the last wait, `no_timeout` before the first.
  unfoldable pub try_push_for_woken : T → CvStatus → Queue T → Stretch T
  try_push_for_woken x ret q =
      if full q && q.opened
      then quietly q (waits full_cv)
      else if not q.opened
      then quietly q (answers false)
      else elim ret [ no_timeout ↦ added q x | timeout ↦ quietly q (answers false) ]

  unfoldable pub try_push_for : T → Queue T → Stretch T
  unfolding try_push_for_woken
  try_push_for x q =
      if not q.opened then quietly q (answers false) else try_push_for_woken x no_timeout q

  unfoldable pub try_push_until_woken : T → CvStatus → Queue T → Stretch T
  try_push_until_woken x ret q =
      if full q && q.opened
      then quietly q (waits full_cv)
      else if not q.opened
      then quietly q (answers false)
      else elim ret [ no_timeout ↦ added q x | timeout ↦ quietly q (answers false) ]

  unfoldable pub try_push_until : T → Queue T → Stretch T
  unfolding try_push_until_woken
  try_push_until x q =
      if not q.opened then quietly q (answers false) else try_push_until_woken x no_timeout q

  -- One more notice in front.
  abbrev pub noting : Notice → Stretch T → Stretch T
  noting n r = record r { notices = n ∷ r.notices }

  -- The `for` loop: `first` stops at `last` or when the queue is full.
  unfoldable pub push_some_loop : List T → Queue T → Stretch T
  push_some_loop [] q = quietly q (leaves [])
  push_some_loop (x ∷ xs) q =
      let rest = push_some_loop xs (record q { items = q.items ++ x ∷ [] }) in
      if full q then quietly q (leaves (x ∷ xs)) else noting (one empty_cv) rest

  unfoldable pub push_some : List T → Queue T → Stretch T
  unfolding push_some_loop
  push_some xs q = if not q.opened then quietly q (leaves xs) else push_some_loop xs q

  unfoldable pub push_all_loop : List T → Queue T → Stretch T
  push_all_loop [] q = quietly q (answers true)
  push_all_loop (x ∷ xs) q =
      noting (one empty_cv) (push_all_loop xs (record q { items = q.items ++ x ∷ [] }))

  unfoldable pub push_all : List T → Queue T → Stretch T
  unfolding push_all_loop
  push_all xs q = if not q.opened then quietly q (answers false) else push_all_loop xs q
