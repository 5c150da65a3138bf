-- ===== src/Mutex/RecursiveTimed.antt =====
-- `recursive_timed_mutex`: a timed mutex that counts how often its owner has locked it.
use boost_green_thread.Base.{
  ℕ, Bool, true, false, Option, none, some, List, [], ◌∷◌, ◌++◌, points_to, ltb, size_inc, size_dec,
  if◌then◌else◌,
}
use boost_green_thread.Mutex.Outcome.{
  Outcome, keeps, hands_over, hands_over_timed, returns, answers, throws, pauses, no_perm,
}
use boost_green_thread.Mutex.Items.{Item, erase}

pub record RecursiveTimedMutex : Type 0 where
  pub level : ℕ
  pub owner : Option ℕ
  pub suspended : List Item

unfoldable pub lock : RecursiveTimedMutex → Option ℕ → Outcome RecursiveTimedMutex
lock m none = keeps m returns
lock m (some tf) =
    if points_to m.owner tf
    then keeps (record m { level = size_inc m.level }) returns
    else elim m.owner [
      | none ↦ keeps (record m { level = 1; owner = some tf }) returns
      | some _ ↦
          keeps (record m { suspended = m.suspended ++ record { thread = tf; timer = none } ∷ [] })
            pauses
    ]

hand_over : Item → List Item → Outcome RecursiveTimedMutex
hand_over f rest =
    let m : RecursiveTimedMutex = record { level = 1; owner = some f.thread; suspended = rest } in
    elim f.timer [ none ↦ hands_over m f.thread | some t ↦ hands_over_timed m f.thread t ]

unlock_owned : RecursiveTimedMutex → Outcome RecursiveTimedMutex
unfolding hand_over
unlock_owned m =
    let level = size_dec m.level in
    if ltb 0 level then keeps (record m { level = level }) returns else elim m.suspended [
      | [] ↦ keeps (record m { level = 0; owner = none }) returns
      | f ∷ rest ↦ hand_over f rest
    ]

unfoldable pub unlock : RecursiveTimedMutex → Option ℕ → Outcome RecursiveTimedMutex
unfolding unlock_owned
unlock m none = keeps m returns
unlock m (some tf) = if points_to m.owner tf then unlock_owned m else keeps m (throws no_perm)

unfoldable pub try_lock : RecursiveTimedMutex → Option ℕ → RecursiveTimedMutex × Bool
try_lock m none = (m, false)
try_lock m (some tf) =
    let m' =
      if points_to m.owner tf
      then record m { level = size_inc m.level }
      else elim m.owner [ none ↦ record m { level = 1; owner = some tf } | some _ ↦ m ] in
    (m', points_to m'.owner tf)

-- The handler does not look at its error code, and always resumes its thread.
unfoldable pub timeout_handler : RecursiveTimedMutex → ℕ → Outcome RecursiveTimedMutex
timeout_handler m this_thread = record {
  state =
      if points_to m.owner this_thread
      then m
      else record m { suspended = erase m.suspended this_thread };
  next = returns;
  resumed = this_thread ∷ [];
  cancelled = [];
}

-- Up to `pause`; `t` is the timer in the caller's frame.
unfoldable pub try_lock_rel : RecursiveTimedMutex → Option ℕ → ℕ → Outcome RecursiveTimedMutex
try_lock_rel m none t = keeps m (answers false)
try_lock_rel m (some tf) t =
    if points_to m.owner tf
    then keeps (record m { level = size_inc m.level }) (answers true)
    else elim m.owner [
      | none ↦ keeps (record m { level = 1; owner = some tf }) (answers true)
      | some _ ↦
          keeps
            (record m { suspended = m.suspended ++ record { thread = tf; timer = some t } ∷ [] })
            pauses
    ]

-- `return owner_==tf;` after `pause`
unfoldable pub try_lock_rel_result : RecursiveTimedMutex → ℕ → Bool
try_lock_rel_result m tf = points_to m.owner tf
