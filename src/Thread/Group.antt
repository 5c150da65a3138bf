-- ===== src/Thread/Group.antt =====
-- `thread_group` (include/boost/green_thread/thread_group.hpp): its list, and `join_all` among threads
-- that join one another and stop.
pub mod Joined
mod Examples
use boost_green_thread.Base.{
  ℕ, Bool, true, false, Option, none, some, List, [], ◌∷◌, ◌++◌, length, ◌==◌, points_to, ◌≡◌,
  if◌then◌else◌,
}
use boost_green_thread.Thread.Joining.{System, Pc, working, joining, call_join, run_on, Step}
use boost_green_thread.Thread.Handle.{
  joinable, join_test, JoinTest, joins, not_joinable, deadlock, invalid_argument, undefined,
}

-- `threads_`: the variables that are in the group. A pointer to no variable is none.
unfoldable pub add_thread : Option ℕ → List ℕ → List ℕ
add_thread none ts = ts
add_thread (some a) ts = ts ++ a ∷ []

unfoldable pub remove_thread : Option ℕ → List ℕ → List ℕ
remove_thread thrd [] = []
remove_thread thrd (a ∷ ts) =
    let rest = remove_thread thrd ts in if points_to thrd a then ts else a ∷ rest

-- `create_thread` of a variable whose constructor has started its thread
unfoldable pub create_thread : ℕ → List ℕ → List ℕ
create_thread a ts = ts ++ a ∷ []

abbrev same_id : Option ℕ → Option ℕ → Bool
same_id none none = true
same_id none (some _) = false
same_id (some f) x = points_to x f

-- The loop of `is_thread_in`, with the id that is looked for
unfoldable pub is_id_in : (ℕ → Option ℕ) → Option ℕ → List ℕ → Bool
is_id_in impl id [] = false
is_id_in impl id (a ∷ ts) =
    let rest = is_id_in impl id ts in if same_id (impl a) id then true else rest

unfoldable pub is_thread_in : (ℕ → Option ℕ) → Option ℕ → List ℕ → Bool
unfolding is_id_in
is_thread_in impl none ts = false
is_thread_in impl (some a) ts = is_id_in impl (impl a) ts

unfoldable pub is_this_thread_in : (ℕ → Option ℕ) → Option ℕ → List ℕ → Bool
unfolding is_id_in
is_this_thread_in impl current ts = is_id_in impl current ts

unfoldable pub size : List ℕ → ℕ
size ts = length ts

-- `thread::join` of the variable that represents `h`, called by thread `c`; the system is as before
-- where it throws.
unfoldable pub join : (ℕ → ℕ) → ℕ → Option ℕ → System → System
unfolding join_test call_join
join sched c h s = elim (join_test sched (some c) h) [ joins f ↦ call_join s c f | _ ↦ s ]

-- One turn of the loop in `join_all`, for the variable that represents `h`
unfoldable pub turn : (ℕ → ℕ) → ℕ → Option ℕ → System → System
unfolding joinable join
turn sched c h s = elim (joinable sched (some c) h) [
  | none ↦ s
  | some b ↦ if b then join sched c h s else s
]

-- A thread is at the variables `todo` of `join_all`; the shared lock keeps the list as it is.
pub record Loop : Type 0 where
  pub system : System
  pub todo : List ℕ

-- Thread `c` runs `join_all`, and the others do what they do; the variables stay as they are.
module _ (sched : ℕ → ℕ) (impl : ℕ → Option ℕ) (c : ℕ) where
  pub data Turn (l : Loop) : Loop → Type 0 where
    turns :
        (a : ℕ) (rest : List ℕ)
        → l.todo ≡ a ∷ rest
        → l.system.pc c ≡ working
        → Turn l (record { system = turn sched c (impl a) l.system; todo = rest })
    resumes : l.system.woken c ≡ true → Turn l (record l { system = run_on l.system c })
    others :
        {s : System} → Step l.system s → s.pc c ≡ l.system.pc c → Turn l (record l { system = s })

  pub data From (l : Loop) : Loop → Type 0 where
    here : From l l
    later : {k m : Loop} → From l k → Turn k m → From l m
