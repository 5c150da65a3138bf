-- ===== src/Queue/History.antt =====
-- Any sequence of stretches on one queue, with the items that callers have put in and got out by the
-- answers they were given. `the_mutex_` makes each stretch one step.
use boost_green_thread.Base.{ℕ, Bool, true, List, [], ◌∷◌, ◌++◌, ◌≡◌}
use boost_green_thread.Queue.State.{
  Queue, Stretch, Verdict, done, answers, leaves, delivers, waits, CvStatus, make,
}
use boost_green_thread.Queue.State
use boost_green_thread.Queue.Push
use boost_green_thread.Queue.Pop

pub data Op {ℓ} (T : Type ℓ) : Type ℓ where
  open_queue close : Op T
  push push_woken try_push try_push_for try_push_until : T → Op T
  try_push_for_woken try_push_until_woken : T → CvStatus → Op T
  push_some push_all : List T → Op T
  pop try_pop try_pop_for try_pop_until : Op T
  try_pop_for_woken try_pop_until_woken : CvStatus → Op T

module _ {ℓ} {T : Type ℓ} where
  unfoldable pub stretch : Op T → Queue T → Stretch T
  unfolding State.open_queue State.close Push.push Push.try_push Push.try_push_for
      Push.try_push_until Push.push_some Push.push_all Pop.pop Pop.try_pop Pop.try_pop_for
      Pop.try_pop_until
  stretch Op.open_queue q = State.open_queue q
  stretch Op.close q = State.close q
  stretch (Op.push x) q = Push.push x q
  stretch (Op.push_woken x) q = Push.push_woken x q
  stretch (Op.try_push x) q = Push.try_push x q
  stretch (Op.try_push_for x) q = Push.try_push_for x q
  stretch (Op.try_push_for_woken x c) q = Push.try_push_for_woken x c q
  stretch (Op.try_push_until x) q = Push.try_push_until x q
  stretch (Op.try_push_until_woken x c) q = Push.try_push_until_woken x c q
  stretch (Op.push_some xs) q = Push.push_some xs q
  stretch (Op.push_all xs) q = Push.push_all xs q
  stretch Op.pop q = Pop.pop q
  stretch Op.try_pop q = Pop.try_pop q
  stretch Op.try_pop_for q = Pop.try_pop_for q
  stretch (Op.try_pop_for_woken c) q = Pop.try_pop_for_woken c q
  stretch Op.try_pop_until q = Pop.try_pop_until q
  stretch (Op.try_pop_until_woken c) q = Pop.try_pop_until_woken c q

  -- The item of a call that pushes one.
  abbrev pub single : Op T → List T
  single (Op.push x) = x ∷ []
  single (Op.push_woken x) = x ∷ []
  single (Op.try_push x) = x ∷ []
  single (Op.try_push_for x) = x ∷ []
  single (Op.try_push_for_woken x c) = x ∷ []
  single (Op.try_push_until x) = x ∷ []
  single (Op.try_push_until_woken x c) = x ∷ []
  single (Op.push_all xs) = xs
  single _ = []

  -- `acc` is what the call has put in, by its answer: its item or range, or the range up to the
  -- returned iterator.
  abbrev pub Accepts : Op T → Verdict T → List T → Type ℓ
  Accepts (Op.push_some xs) (leaves rest) acc = xs ≡ acc ++ rest
  Accepts op (answers true) acc = acc ≡ single op
  Accepts op _ acc = acc ≡ []

  -- What the call has delivered.
  abbrev pub delivered : Verdict T → List T
  delivered (delivers x) = x ∷ []
  delivered _ = []

  pub data Run (capacity : ℕ) (auto_open : Bool) : Queue T → List T → List T → Type ℓ where
    start : Run capacity auto_open (make capacity auto_open) [] []
    later :
        {q : Queue T} {pushed popped : List T}
        → Run capacity auto_open q pushed popped
        → (op : Op T) (acc : List T) → Accepts op (stretch op q).verdict acc
        → Run capacity auto_open
            (stretch op q).queue
            (pushed ++ acc)
            (popped ++ delivered (stretch op q).verdict)
