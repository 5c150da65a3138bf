-- ===== src/Mutex/Plain.antt =====
-- `mutex`: an owner and the queue of threads that wait in `lock`.
use boost_green_thread.Base.{
  ℕ, Bool, false, Option, none, some, List, [], ◌∷◌, ◌++◌, points_to, if◌then◌else◌,
}
use boost_green_thread.Mutex.Outcome.{
  Outcome, keeps, hands_over, returns, throws, pauses, deadlock, no_perm,
}

pub record Mutex : Type 0 where
  pub owner : Option ℕ
  pub suspended : List ℕ

-- `mutex()=default`
abbrev pub unlocked : Mutex
unlocked = record { owner = none; suspended = [] }

-- `tf` is `cur_thread()`: none if the caller is no green thread.
unfoldable pub lock : Mutex → Option ℕ → Outcome Mutex
lock m none = keeps m returns
lock m (some tf) = if points_to m.owner tf then keeps m (throws deadlock) else elim m.owner [
  | none ↦ keeps (record m { owner = some tf }) returns
  | some _ ↦ keeps (record m { suspended = m.suspended ++ tf ∷ [] }) pauses
]

unfoldable pub unlock : Mutex → Option ℕ → Outcome Mutex
unlock m none = keeps m returns
unlock m (some tf) =
    if points_to m.owner tf
    then elim m.suspended [
      | [] ↦ keeps (record m { owner = none }) returns
      | f ∷ rest ↦ hands_over (record { owner = some f; suspended = rest }) f
    ]
    else keeps m (throws no_perm)

-- The lock after the call, and the value returned, `owner_==tf`.
unfoldable pub try_lock : Mutex → Option ℕ → Mutex × Bool
try_lock m none = (m, false)
try_lock m (some tf) =
    let m' =
      if points_to m.owner tf
      then m
      else elim m.owner [ none ↦ record m { owner = some tf } | some _ ↦ m ] in
    (m', points_to m'.owner tf)
