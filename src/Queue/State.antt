-- ===== src/Queue/State.antt =====
-- The queue, and what a stretch of code between two releases of `the_mutex_` does.
use boost_green_thread.Base.{ℕ, Bool, true, false, List, [], ◌∷◌, length, leb}

-- `the_mutex_` and the condition variables are in the stretches.
pub record Queue {ℓ} (T : Type ℓ) : Type ℓ where
  pub opened : Bool
  pub capacity : ℕ  -- size_t
  pub items : List T

pub data Cond : Type 0 where
  full_cv empty_cv : Cond

pub data Notice : Type 0 where
  one all : Cond → Notice

-- A call ends, gives a Boolean, leaves the rest of a range, delivers an item, or waits.
pub data Verdict {ℓ} (T : Type ℓ) : Type ℓ where
  done : Verdict T
  answers : Bool → Verdict T
  leaves : List T → Verdict T
  delivers : T → Verdict T
  waits : Cond → Verdict T

pub data CvStatus : Type 0 where
  no_timeout timeout : CvStatus

pub record Stretch {ℓ} (T : Type ℓ) : Type ℓ where
  pub queue : Queue T
  pub verdict : Verdict T
  pub notices : List Notice

module _ {ℓ} {T : Type ℓ} where
  abbrev pub quietly : Queue T → Verdict T → Stretch T
  quietly q v = record { queue = q; verdict = v; notices = [] }

  -- `basic_concurrent_queue(capacity, auto_open)`
  unfoldable pub make : ℕ → Bool → Queue T
  make capacity auto_open = record { opened = auto_open; capacity = capacity; items = [] }

  unfoldable pub open_queue : Queue T → Stretch T
  open_queue q = quietly (record q { opened = true }) (answers true)

  unfoldable pub close : Queue T → Stretch T
  close q = record {
    queue = record q { opened = false };
    verdict = done;
    notices = all full_cv ∷ all empty_cv ∷ [];
  }

  unfoldable pub is_open : Queue T → Bool
  is_open q = q.opened

  abbrev pub is_empty : List T → Bool
  is_empty [] = true
  is_empty (_ ∷ _) = false

  abbrev pub empty : Queue T → Bool
  empty q = is_empty q.items

  abbrev pub full : Queue T → Bool
  full q = leb q.capacity (length q.items)

  unfoldable pub size : Queue T → ℕ
  size q = length q.items
