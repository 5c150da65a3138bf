-- ===== src/Condition/Delivery.antt =====
-- Notifications, timeouts and resumptions of one condition variable.
use boost_green_thread.Base.{
  ℕ, true, false, List, [], ◌∷◌, List-cases, ◌≡◌, ◌≢◌, ◌⊎◌, inl, inr, contains, arith,
}
use boost_green_thread.Condition.{Item, timeout, notify_one, notify_all, timeout_handler}
use boost_green_thread.Condition.Waits.{
  away, timed, System, posted, is_cancelled, call_notify_one, call_notify_all, Reach,
}
use boost_green_thread.Condition.Invariant.{
  entry, Reach-Inv, notify_all_queue, notify_all_resumed, notify_all_cancelled,
}

-- Each wait is resumed at most once: `notify_one`, `notify_all` and a posted handler call `resume`
-- only on threads that wait and have not been resumed yet.
pub cv_resumed_once :
    {s : System}
    → Reach s
    → (i j : ℕ)
    → (contains (notify_one s.queue).resumed j ≡ true)
      ⊎ (contains (notify_all s.queue).resumed j ≡ true)
      ⊎ ((posted (s.timer i) ≡ true)
          × (contains (timeout_handler s.queue i (is_cancelled (s.timer i))).0.resumed j ≡ true))
    → (s.pc j ≢ away) × (s.ready j ≡ false)
unfolding notify_one timeout_handler contains entry
cv_resumed_once {s} r i j (inl h) = elim (List-cases s.queue) [
  | inl none_waits ↦ ground (arith, (Reach-Inv r).place j)
  | inr (f, rest, e) ↦ ground (arith, (Reach-Inv r).place j, (Reach-Inv r).place f.thread)
]
cv_resumed_once {s} r i j (inr (inl h)) =
    ground (arith, (Reach-Inv r).place j, notify_all_resumed s.queue j (Reach-Inv r).distinct)
cv_resumed_once r i j (inr (inr h)) = ground (arith, (Reach-Inv r).place i, (Reach-Inv r).place j)

-- No thread wakes for nothing, and the status is right: a thread that has been resumed has been
-- notified, or it waited with a time limit and `wait_rel` says `timeout`.
pub woken_notified :
    {s : System}
    → Reach s
    → (i : ℕ) → s.ready i ≡ true
    → (s.notified i ≡ true) ⊎ ((s.pc i ≡ timed) × (s.status i ≡ timeout))
woken_notified r i e = ground (arith, (Reach-Inv r).place i)

-- `notify_all` leaves nobody behind: afterwards the queue is empty, and every thread that waits has
-- been resumed, or the handler of its timer is posted and will resume it.
pub notify_all_reaches :
    {s : System}
    → Reach s
    → (i : ℕ) → s.pc i ≢ away
    → let t = call_notify_all s in
      (t.queue ≡ []) × ((t.ready i ≡ true) ⊎ (posted (t.timer i) ≡ true))
unfolding call_notify_all
notify_all_reaches {s} r i e = ground (
  arith,
  (Reach-Inv r).place i,
  notify_all_queue s.queue,
  notify_all_resumed s.queue i (Reach-Inv r).distinct,
  notify_all_cancelled s.queue i (Reach-Inv r).distinct (Reach-Inv r).own,
)

-- The first of the queue is notified, and only that one: its item is gone, its thread is resumed or
-- its timer no longer runs, and every other thread's item, timer and resumption are as before.
pub notify_one_first :
    {s : System}
    → Reach s
    → (x : Item) (rest : List Item) → s.queue ≡ x ∷ rest
    → (j : ℕ) → j ≢ x.thread
    → let t = call_notify_one s in
      (t.queue ≡ rest)
      × ((t.ready x.thread ≡ true) ⊎ (posted (t.timer x.thread) ≡ true))
      × (entry t.queue j ≡ entry s.queue j)
      × (t.timer j ≡ s.timer j)
      × (t.ready j ≡ s.ready j)
unfolding call_notify_one entry
notify_one_first r x rest e j n = ground (arith, (Reach-Inv r).place x.thread, (Reach-Inv r).own)
