-- ===== src/Mutex/Timed.antt =====
-- `timed_mutex`: an owner, and a queue whose items may carry the timer of `try_lock_rel`.
pub mod Waits
pub mod Invariant
pub mod Delivery
use boost_green_thread.Base.{
  ℕ, Bool, true, false, Option, none, some, List, [], ◌∷◌, ◌++◌, points_to, if◌then◌else◌,
}
use boost_green_thread.Mutex.Outcome.{
  Outcome, keeps, hands_over, hands_over_timed, returns, answers, throws, pauses, deadlock, no_perm,
}
use boost_green_thread.Mutex.Items.{Item, erase}

pub record TimedMutex : Type 0 where
  pub owner : Option ℕ
  pub suspended : List Item

-- `timed_mutex()=default`
abbrev pub unlocked : TimedMutex
unlocked = record { owner = none; suspended = [] }

unfoldable pub lock : TimedMutex → Option ℕ → Outcome TimedMutex
lock m none = keeps m returns
lock m (some tf) = if points_to m.owner tf then keeps m (throws deadlock) else elim m.owner [
  | none ↦ keeps (record m { owner = some tf }) returns
  | some _ ↦
      keeps (record m { suspended = m.suspended ++ record { thread = tf; timer = none } ∷ [] })
        pauses
]

unfoldable pub try_lock : TimedMutex → Option ℕ → TimedMutex × Bool
try_lock m none = (m, false)
try_lock m (some tf) =
    if points_to m.owner tf
    then (m, true)
    else elim m.owner [ none ↦ (record m { owner = some tf }, true) | some _ ↦ (m, false) ]

-- The item's timer is cancelled, and its handler resumes the thread; without one, `unlock` does.
hand_over : Item → List Item → Outcome TimedMutex
hand_over f rest =
    let m : TimedMutex = record { owner = some f.thread; suspended = rest } in
    elim f.timer [ none ↦ hands_over m f.thread | some t ↦ hands_over_timed m f.thread t ]

unfoldable pub unlock : TimedMutex → Option ℕ → Outcome TimedMutex
unfolding hand_over
unlock m none = keeps m returns
unlock m (some tf) =
    if points_to m.owner tf
    then elim m.suspended [
      | [] ↦ keeps (record m { owner = none }) returns
      | f ∷ rest ↦ hand_over f rest
    ]
    else keeps m (throws no_perm)

-- The handler does not look at its error code, and always resumes its thread.
unfoldable pub timeout_handler : TimedMutex → ℕ → Outcome TimedMutex
timeout_handler m this_thread = record {
  state =
      if points_to m.owner this_thread
      then m
      else record m { suspended = erase m.suspended this_thread };
  next = returns;
  resumed = this_thread ∷ [];
  cancelled = [];
}

-- Up to `pause`; `t` is the timer in the caller's frame.
unfoldable pub try_lock_rel : TimedMutex → Option ℕ → ℕ → Outcome TimedMutex
try_lock_rel m none t = keeps m (answers false)
try_lock_rel m (some tf) t =
    if points_to m.owner tf then keeps m (throws deadlock) else elim m.owner [
      | none ↦ keeps (record m { owner = some tf }) (answers true)
      | some _ ↦
          keeps
            (record m { suspended = m.suspended ++ record { thread = tf; timer = some t } ∷ [] })
            pauses
    ]

-- `return owner_==tf;` after `pause`
unfoldable pub try_lock_rel_result : TimedMutex → ℕ → Bool
try_lock_rel_result m tf = points_to m.owner tf
