-- ===== src/Queue/Bounds.antt =====
-- The bound on the queue's length, and what a closed queue does.
use boost_green_thread.Base.{
  ◌+◌, ◌≤◌, ◌<◌, Bool, true, false, if◌then◌else◌, List, [], ◌∷◌, ◌++◌, length, length-append, ◌≡◌,
  ◌≢◌, refl, arith,
}
use boost_green_thread.Queue.State.{
  Queue, Cond, full_cv, empty_cv, timeout, answers, waits, full, empty,
}
use boost_green_thread.Queue.Push.{
  push_some_loop, push_all, try_push_for_woken, try_push_until_woken,
}
use boost_green_thread.Queue.Pop.{try_pop_for_woken, try_pop_until_woken}
use boost_green_thread.Queue.History.{Op, stretch}
use boost_green_thread.Queue.Order.{push_all_loop_lem}

module _ {ℓ} {T : Type ℓ} where
  push_some_loop_fits :
      (xs : List T) (q : Queue T)
      → length q.items ≤ q.capacity
      → (length (push_some_loop xs q).queue.items ≤ (push_some_loop xs q).queue.capacity)
        × ((push_some_loop xs q).queue.capacity ≡ q.capacity)
        × ((push_some_loop xs q).queue.opened ≡ q.opened)
  unfolding push_some_loop
  push_some_loop_fits [] q h = (h, refl, refl)
  push_some_loop_fits (x ∷ xs) q h = ground (
    arith,
    length-append q.items (x ∷ []),
    push_some_loop_fits xs (record q { items = q.items ++ x ∷ [] }),
  )

  abbrev pub is_push_all : Op T → Bool
  is_push_all (Op.push_all _) = true
  is_push_all _ = false

  -- No call but `push_all` brings the queue over its capacity, which no call changes.
  pub capacity_kept :
      (q : Queue T) (op : Op T)
      → is_push_all op ≡ false
      → length q.items ≤ q.capacity
      → (length (stretch op q).queue.items ≤ q.capacity)
        × ((stretch op q).queue.capacity ≡ q.capacity)
  unfolding stretch
  capacity_kept q (Op.push_some xs) e h = ground (arith, push_some_loop_fits xs q)
  capacity_kept q (Op.push_all xs) e h = cc
  capacity_kept q (Op.push x) e h = ground (arith, length-append q.items (x ∷ []))
  capacity_kept q (Op.push_woken x) e h = ground (arith, length-append q.items (x ∷ []))
  capacity_kept q (Op.try_push x) e h = ground (arith, length-append q.items (x ∷ []))
  capacity_kept q (Op.try_push_for x) e h = ground (arith, length-append q.items (x ∷ []))
  capacity_kept q (Op.try_push_for_woken x c) e h = ground (arith, length-append q.items (x ∷ []))
  capacity_kept q (Op.try_push_until x) e h = ground (arith, length-append q.items (x ∷ []))
  capacity_kept q (Op.try_push_until_woken x c) e h = ground (arith, length-append q.items (x ∷ []))
  capacity_kept q op e h = ground arith

  -- `push_all` does not look at the capacity: on an open queue it puts its whole range in, and goes
  -- over the capacity whenever the range is longer than the room that is left.
  pub push_all_overfills :
      (q : Queue T) (xs : List T)
      → q.opened ≡ true
      → q.capacity < length q.items + length xs
      → ((push_all xs q).verdict ≡ answers true) × (q.capacity < length (push_all xs q).queue.items)
  unfolding push_all
  push_all_overfills q xs e h = ground (arith, push_all_loop_lem xs q, length-append q.items xs)

  -- A closed queue makes no call wait, and takes in nothing: it only gets shorter.
  pub closed_drains :
      (q : Queue T) (op : Op T) (c : Cond)
      → q.opened ≡ false
      → ((stretch op q).verdict ≢ waits c) × (length (stretch op q).queue.items ≤ length q.items)
  unfolding stretch
  closed_drains q Op.open_queue c e = ground arith
  closed_drains q op c e = ground arith

  -- The timed calls do not end when their time runs out: after a wait that timed out they wait again
  -- while the queue is full, or empty, and open; and when a slot or an item has come by then, they
  -- fail and leave it.
  pub timeouts_ignored :
      (q : Queue T) (x : T)
      → q.opened ≡ true
      → ((try_push_for_woken x timeout q).verdict
          ≡ (if full q then waits full_cv else answers false))
        × ((try_push_until_woken x timeout q).verdict
            ≡ (if full q then waits full_cv else answers false))
        × ((try_pop_for_woken timeout q).verdict
            ≡ (if empty q then waits empty_cv else answers false))
        × ((try_pop_until_woken timeout q).verdict
            ≡ (if empty q then waits empty_cv else answers false))
        × ((try_push_for_woken x timeout q).queue ≡ q)
        × ((try_pop_for_woken timeout q).queue ≡ q)
  unfolding try_push_for_woken try_push_until_woken try_pop_for_woken try_pop_until_woken
  timeouts_ignored q x e = ground arith
