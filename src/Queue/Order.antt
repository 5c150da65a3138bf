-- ===== src/Queue/Order.antt =====
-- The queue is first in, first out, and loses and repeats nothing.
use mathlib.Core.List.{append_cancel_right}
use boost_green_thread.Base.{
  ℕ, Bool, true, false, Bool-cases, List, [], ◌∷◌, ◌++◌, append-nil, append_assoc, append-cons, ◌≡◌,
  refl, sym, ap, subst, ◌∙◌, inl, inr, arith,
}
use boost_green_thread.Queue.State.{Queue, Stretch, quietly, make, leaves, answers, full}
use boost_green_thread.Queue.Push.{push_some, push_some_loop, push_all_loop}
use boost_green_thread.Queue.History.{Op, stretch, Accepts, delivered, Run, start, later}

module _ {ℓ} {T : Type ℓ} where
  abbrev with_items : Queue T → List T → Queue T
  with_items q xs = record q { items = xs }

  pub push_all_loop_lem :
      (xs : List T) (q : Queue T)
      → ((push_all_loop xs q).queue ≡ with_items q (q.items ++ xs))
        × ((push_all_loop xs q).verdict ≡ answers true)
  unfolding push_all_loop
  push_all_loop_lem [] q = (ap (with_items q) (sym (append-nil q.items)), refl)
  push_all_loop_lem (x ∷ xs) q =
      let ih = push_all_loop_lem xs (with_items q (q.items ++ x ∷ [])) in
      (ih.0 ∙ ap (with_items q) (append-cons q.items x xs), ih.1)

  -- `push_some` splits its range into what it puts in and what it leaves.
  pub push_some_loop_lem :
      (xs : List T) (q : Queue T)
      → (acc rest : List T) × (xs ≡ acc ++ rest)
        × ((push_some_loop xs q).queue ≡ with_items q (q.items ++ acc))
        × ((push_some_loop xs q).verdict ≡ leaves rest)
  unfolding push_some_loop
  push_some_loop_lem [] q = ([], [], refl, ap (with_items q) (sym (append-nil q.items)), refl)
  push_some_loop_lem (x ∷ xs) q =
      let (acc, rest, split, queue, verdict) =
        push_some_loop_lem xs (with_items q (q.items ++ x ∷ [])) in
      elim (Bool-cases (full q)) [
        | inl stop ↦ rw stop ([], x ∷ xs, refl, ap (with_items q) (sym (append-nil q.items)), refl)
        | inr go ↦ rw go (
          x ∷ acc,
          rest,
          ap (◌∷◌ x) split,
          queue ∙ ap (with_items q) (append-cons q.items x acc),
          verdict,
        )
      ]

  push_some_order :
      (xs : List T) (q : Queue T) (acc : List T)
      → Accepts (Op.push_some xs) (push_some_loop xs q).verdict acc
      → q.items ++ acc
        ≡ delivered (push_some_loop xs q).verdict ++ (push_some_loop xs q).queue.items
  push_some_order xs q acc a =
      let (acc', rest, split, queue, verdict) = push_some_loop_lem xs q in
      let same : acc ≡ acc' =
        append_cancel_right acc acc' rest
          (sym (subst (λ v. Accepts (Op.push_some xs) v acc) verdict a) ∙ split) in
      rw (verdict, queue, same)

  abbrev KeepsOrder : Queue T → Op T → List T → Stretch T → Type ℓ
  KeepsOrder q op acc r =
      Accepts op r.verdict acc → q.items ++ acc ≡ delivered r.verdict ++ r.queue.items

  push_some-opened :
      (xs : List T) (q : Queue T) → q.opened ≡ true → push_some xs q ≡ push_some_loop xs q
  unfolding push_some
  push_some-opened xs q e = rw (e, push_some)

  push_some-closed :
      (xs : List T) (q : Queue T) → q.opened ≡ false → push_some xs q ≡ quietly q (leaves xs)
  unfolding push_some
  push_some-closed xs q e = rw (e, push_some)

  push_some-KeepsOrder :
      (q : Queue T) (xs acc : List T) → KeepsOrder q (Op.push_some xs) acc (push_some xs q)
  push_some-KeepsOrder q xs acc = elim (Bool-cases q.opened) [
    | inl opened ↦
        subst (KeepsOrder q (Op.push_some xs) acc) (sym (push_some-opened xs q opened))
          (push_some_order xs q acc)
    | inr closed ↦
        subst (KeepsOrder q (Op.push_some xs) acc) (sym (push_some-closed xs q closed))
          (λ a. ap (◌++◌ q.items) (append_cancel_right acc [] xs (sym a)) ∙ append-nil q.items)
  ]

  step-KeepsOrder : (q : Queue T) (op : Op T) (acc : List T) → KeepsOrder q op acc (stretch op q)
  unfolding stretch
  step-KeepsOrder q (Op.push_some xs) acc a = push_some-KeepsOrder q xs acc a
  step-KeepsOrder q (Op.push_all xs) acc a =
      ground (arith, push_all_loop_lem xs q, append-nil q.items)
  step-KeepsOrder q op acc a = ground (arith, append-nil q.items)

  -- Under any sequence of calls, and whatever the waits do: what has been put in, in this order, is
  -- what has been delivered, in this order, followed by what the queue holds.
  pub fifo :
      {capacity : ℕ} {auto_open : Bool} {q : Queue T} {pushed popped : List T}
      → Run capacity auto_open q pushed popped
      → pushed ≡ popped ++ q.items
  unfolding make
  fifo start = refl
  fifo (later {q} {pushed} {popped} r op acc a) =
      ap (λ l. l ++ acc) (fifo r)
      ∙ append_assoc popped q.items acc
      ∙ ap (◌++◌ popped) (step-KeepsOrder q op acc a)
      ∙ sym (append_assoc popped (delivered (stretch op q).verdict) (stretch op q).queue.items)
