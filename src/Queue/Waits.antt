-- ===== src/Queue/Waits.antt =====
-- Who is notified when the queue stops being empty, full or open.
use boost_green_thread.Base.{
  ◌≤◌, Bool, true, false, List, [], ◌∷◌, ◌++◌, length, length-append, ◌≡◌, refl, ◌⊎◌, inl, arith,
}
use boost_green_thread.Queue.State.{Queue, Notice, one, all, full_cv, empty_cv, empty, full}
use boost_green_thread.Queue.Push.{push_some_loop, push_all_loop}
use boost_green_thread.Queue.History.{Op, stretch}
use boost_green_thread.Queue.Order.{push_all_loop_lem}

abbrev pub tells_empty : List Notice → Bool
tells_empty [] = false
tells_empty (one empty_cv ∷ ns) = true
tells_empty (all empty_cv ∷ ns) = true
tells_empty (_ ∷ ns) = tells_empty ns

abbrev pub tells_full : List Notice → Bool
tells_full [] = false
tells_full (one full_cv ∷ ns) = true
tells_full (all full_cv ∷ ns) = true
tells_full (_ ∷ ns) = tells_full ns

module _ {ℓ} {T : Type ℓ} where
  push_some_told :
      (xs : List T) (q : Queue T)
      → (((push_some_loop xs q).queue ≡ q) ⊎ (tells_empty (push_some_loop xs q).notices ≡ true))
  unfolding push_some_loop
  push_some_told [] q = inl refl
  push_some_told (x ∷ xs) q = ground arith

  push_some_grows :
      (xs : List T) (q : Queue T) → length q.items ≤ length (push_some_loop xs q).queue.items
  unfolding push_some_loop
  push_some_grows [] q = omega arith
  push_some_grows (x ∷ xs) q = ground (
    arith,
    length-append q.items (x ∷ []),
    push_some_grows xs (record q { items = q.items ++ x ∷ [] }),
  )

  push_some_capacity :
      (xs : List T) (q : Queue T)
      → ((push_some_loop xs q).queue.capacity ≡ q.capacity)
        × ((push_some_loop xs q).queue.opened ≡ q.opened)
  unfolding push_some_loop
  push_some_capacity [] q = (refl, refl)
  push_some_capacity (x ∷ xs) q =
      ground (arith, push_some_capacity xs (record q { items = q.items ++ x ∷ [] }))

  push_all_told :
      (xs : List T) (q : Queue T)
      → (((push_all_loop xs q).queue ≡ q) ⊎ (tells_empty (push_all_loop xs q).notices ≡ true))
  unfolding push_all_loop
  push_all_told [] q = inl refl
  push_all_told (x ∷ xs) q = ground arith

  -- A call that makes an empty queue not empty notifies `empty_cv`, one that
  -- makes a full queue not full notifies `full_cv`, and one that closes the queue notifies all
  -- threads on both.
  pub changes_told :
      (q : Queue T) (op : Op T)
      → let r = stretch op q in
        ((empty q ≡ false) ⊎ (empty r.queue ≡ true) ⊎ (tells_empty r.notices ≡ true))
        × ((full q ≡ false) ⊎ (full r.queue ≡ true) ⊎ (tells_full r.notices ≡ true))
        × ((q.opened ≡ false)
            ⊎ (r.queue.opened ≡ true)
            ⊎ (r.notices ≡ all full_cv ∷ all empty_cv ∷ []))
  unfolding stretch
  changes_told q (Op.push_some xs) =
      ground (arith, push_some_told xs q, push_some_grows xs q, push_some_capacity xs q)
  changes_told q (Op.push_all xs) =
      ground (arith, push_all_told xs q, push_all_loop_lem xs q, length-append q.items xs)
  changes_told q (Op.push x) = ground (arith, length-append q.items (x ∷ []))
  changes_told q (Op.push_woken x) = ground (arith, length-append q.items (x ∷ []))
  changes_told q (Op.try_push x) = ground (arith, length-append q.items (x ∷ []))
  changes_told q (Op.try_push_for x) = ground (arith, length-append q.items (x ∷ []))
  changes_told q (Op.try_push_for_woken x c) = ground (arith, length-append q.items (x ∷ []))
  changes_told q (Op.try_push_until x) = ground (arith, length-append q.items (x ∷ []))
  changes_told q (Op.try_push_until_woken x c) = ground (arith, length-append q.items (x ∷ []))
  changes_told q op = ground arith
