-- ===== src/Mutex/Recursive.antt =====
-- `recursive_mutex`: a mutex that counts how often its owner has locked it.
use boost_green_thread.Base.{
  ℕ, Bool, false, Option, none, some, List, [], ◌∷◌, ◌++◌, points_to, ltb, size_inc, size_dec,
  if◌then◌else◌,
}
use boost_green_thread.Mutex.Outcome.{Outcome, keeps, hands_over, returns, throws, pauses, no_perm}

pub record RecursiveMutex : Type 0 where
  pub level : ℕ
  pub owner : Option ℕ
  pub suspended : List ℕ

-- `recursive_mutex()=default`
abbrev pub unlocked : RecursiveMutex
unlocked = record { level = 0; owner = none; suspended = [] }

unfoldable pub lock : RecursiveMutex → Option ℕ → Outcome RecursiveMutex
lock m none = keeps m returns
lock m (some tf) =
    if points_to m.owner tf
    then keeps (record m { level = size_inc m.level }) returns
    else elim m.owner [
      | none ↦ keeps (record m { level = 1; owner = some tf }) returns
      | some _ ↦ keeps (record m { suspended = m.suspended ++ tf ∷ [] }) pauses
    ]

-- `owner_==tf` after the pointer has been compared: `--level_`, then the hand-over.
unlock_owned : RecursiveMutex → Outcome RecursiveMutex
unlock_owned m =
    let level = size_dec m.level in
    if ltb 0 level then keeps (record m { level = level }) returns else elim m.suspended [
      | [] ↦ keeps (record m { level = level; owner = none }) returns
      | f ∷ rest ↦ hands_over (record { level = 1; owner = some f; suspended = rest }) f
    ]

unfoldable pub unlock : RecursiveMutex → Option ℕ → Outcome RecursiveMutex
unfolding unlock_owned
unlock m none = keeps m returns
unlock m (some tf) = if points_to m.owner tf then unlock_owned m else keeps m (throws no_perm)

unfoldable pub try_lock : RecursiveMutex → Option ℕ → RecursiveMutex × Bool
try_lock m none = (m, false)
try_lock m (some tf) =
    let m' =
      if points_to m.owner tf
      then record m { level = size_inc m.level }
      else elim m.owner [ none ↦ record m { level = 1; owner = some tf } | some _ ↦ m ] in
    (m', points_to m'.owner tf)
