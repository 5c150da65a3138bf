-- ===== src/Condition.antt =====
-- condition_variable.hpp and condition.cpp: `condition_variable`.
pub mod Waits
pub mod Invariant
pub mod Delivery
pub mod Monitor
mod Examples
use boost_green_thread.Base.{
  ℕ, Bool, true, false, Option, none, some, List, [], ◌∷◌, ◌++◌, points_to, ◌==◌, if◌then◌else◌,
  ◌≡◌, refl, arith,
}
use boost_green_thread.Mutex.Plain.{Mutex}

-- `suspended_item`; `mutex` stands for the pointer `m_`.
pub record Item : Type 0 where
  pub mutex : ℕ
  pub thread : ℕ
  pub timer : Option ℕ

-- `cv_status`
pub data CvStatus : Type 0 where
  no_timeout timeout : CvStatus

-- How a call goes on: it returns, throws `condition_error`, or suspends its caller, without the
-- mutex.
pub data Next : Type 0 where
  returns : Next
  no_perm : Next
  pauses : Next

-- `condition_variable` has one field that matters here, `suspended_`.
pub record Outcome : Type 0 where
  pub suspended : List Item
  pub next : Next
  pub resumed : List ℕ  -- the threads on which `resume` is called, in order
  pub cancelled : List ℕ  -- the timers on which `cancel` is called, in order

abbrev pub keeps : List Item → Next → Outcome
keeps q n = record { suspended = q; next = n; resumed = []; cancelled = [] }

-- Up to `relock_guard`; `m` is the caller's mutex, at the address `a`.
unfoldable pub wait : List Item → Mutex → ℕ → ℕ → Outcome
wait q m a tf =
    if points_to m.owner tf
    then keeps (q ++ record { mutex = a; thread = tf; timer = none } ∷ []) pauses
    else keeps q no_perm

-- The same, with the timer `t` in the caller's frame.
unfoldable pub wait_rel : List Item → Mutex → ℕ → ℕ → ℕ → Outcome
wait_rel q m a tf t =
    if points_to m.owner tf
    then keeps (q ++ record { mutex = a; thread = tf; timer = some t } ∷ []) pauses
    else keeps q no_perm

unfoldable pub erase : List Item → ℕ → List Item
erase [] i = []
erase (x ∷ xs) i = if x.thread == i then xs else x ∷ erase xs i

-- `ec` says whether the timer was cancelled. The status is none where `ret` is left alone.
unfoldable pub timeout_handler : List Item → ℕ → Bool → Outcome × Option CvStatus
timeout_handler q this_thread true =
    (record { suspended = q; next = returns; resumed = this_thread ∷ []; cancelled = [] }, none)
timeout_handler q this_thread false = (
  record {
    suspended = erase q this_thread;
    next = returns;
    resumed = this_thread ∷ [];
    cancelled = [];
  },
  some timeout,
)

-- Cancel the item's timer, whose handler resumes the thread, or else resume it.
abbrev pub notify : Item → Outcome → Outcome
notify p o = elim p.timer [
  | some t ↦ record o { cancelled = t ∷ o.cancelled }
  | none ↦ record o { resumed = p.thread ∷ o.resumed }
]

-- Up to the final `yield`, here and in `notify_all`.
unfoldable pub notify_one : List Item → Outcome
notify_one [] = keeps [] returns
notify_one (p ∷ rest) = notify p (keeps rest returns)

unfoldable pub notify_all : List Item → Outcome
notify_all [] = keeps [] returns
notify_all (p ∷ rest) = notify p (notify_all rest)
