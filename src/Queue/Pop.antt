-- ===== src/Queue/Pop.antt =====
-- The calls that take items.
use boost_green_thread.Base.{false, ◌&&◌, [], ◌∷◌, if◌then◌else◌}
use boost_green_thread.Queue.State.{
  Queue, Stretch, quietly, full_cv, empty_cv, one, answers, delivers, waits, CvStatus, no_timeout,
  timeout, empty,
}

module _ {ℓ} {T : Type ℓ} where
  -- Behind the test for an empty queue: swap the front out, pop it, notify one pusher.
  abbrev pub taken : Queue T → Stretch T
  taken q = elim q.items [
    | [] ↦ quietly q (answers false)
    | x ∷ rest ↦ record {
      queue = record q { items = rest };
      verdict = delivers x;
      notices = one full_cv ∷ [];
    }
  ]

  -- One turn of the loop, and what follows it; the next turn, behind the wait, is the same.
  unfoldable pub pop : Queue T → Stretch T
  pop q = if empty q && q.opened then quietly q (waits empty_cv) else taken q

  unfoldable pub try_pop : Queue T → Stretch T
  try_pop q = taken q

  -- From the loop on; `ret` is the status of the last wait, `no_timeout` before the first.
  unfoldable pub try_pop_for_woken : CvStatus → Queue T → Stretch T
  try_pop_for_woken ret q =
      if empty q && q.opened
      then quietly q (waits empty_cv)
      else if empty q
      then quietly q (answers false)
      else elim ret [ no_timeout ↦ taken q | timeout ↦ quietly q (answers false) ]

  unfoldable pub try_pop_for : Queue T → Stretch T
  unfolding try_pop_for_woken
  try_pop_for q = try_pop_for_woken no_timeout q

  unfoldable pub try_pop_until_woken : CvStatus → Queue T → Stretch T
  try_pop_until_woken ret q =
      if empty q && q.opened
      then quietly q (waits empty_cv)
      else if empty q
      then quietly q (answers false)
      else elim ret [ no_timeout ↦ taken q | timeout ↦ quietly q (answers false) ]

  unfoldable pub try_pop_until : Queue T → Stretch T
  unfolding try_pop_until_woken
  try_pop_until q = try_pop_until_woken no_timeout q
