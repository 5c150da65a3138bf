-- ===== src/Thread/Group/Examples.antt =====
-- The theorem on groups, at a concrete state.
use boost_green_thread.Base.{ℕ, Option, none, some, [], ◌∷◌, ◌≡◌, refl}
use boost_green_thread.Thread.Object.{stopped}
use boost_green_thread.Thread.Joining.{call_join, stop, run_on, stops}
use boost_green_thread.Thread.Joining
use boost_green_thread.Thread.Handle.{join_test, joinable}
use boost_green_thread.Thread.Group.{Loop, From, join, turn, turns, resumes, others, here, later}
use boost_green_thread.Thread.Group.Joined.{join_all_waits}

-- Thread 1 calls `join_all` on a group whose variable 0 represents thread 2, which then stops.
abbrev one_scheduler : ℕ → ℕ
one_scheduler _ = 0

abbrev two : ℕ → Option ℕ
two _ = some 2

abbrev begun : Loop
begun = record { system = Joining.init; todo = 0 ∷ [] }

abbrev waits : Loop
waits = record { system = turn one_scheduler 1 (some 2) Joining.init; todo = [] }

abbrev told : Loop
told = record waits { system = stop waits.system 2 none }

abbrev over : Loop
over = record told { system = run_on told.system 1 }

over-From : From one_scheduler two 1 begun over
unfolding turn join joinable join_test call_join stop run_on
over-From =
    later (later (later here (turns 0 [] refl refl)) (others (stops 2 none refl) refl))
      (resumes refl)

join_all_waits_example : (over.system.thread 2).state ≡ stopped
unfolding turn join joinable join_test call_join stop run_on
join_all_waits_example =
    join_all_waits one_scheduler two 1 (0 ∷ []) 0 2 Joining.start over-From refl refl refl refl refl
