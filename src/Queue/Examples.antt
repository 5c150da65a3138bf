-- ===== src/Queue/Examples.antt =====
-- The theorems on the queue at concrete states.
use boost_green_thread.Base.{ℕ, ◌≤◌, true, List, [], ◌∷◌, ◌++◌, length, ◌≡◌, refl, arith}
use boost_green_thread.Queue.State.{Queue, make}
use boost_green_thread.Queue.History.{Op, stretch, Run, start, later}
use boost_green_thread.Queue.Order.{fifo}
use boost_green_thread.Queue.Bounds.{capacity_kept}

-- Open, for two items, with one in it.
abbrev open_one : Queue ℕ
open_one = record { opened = true; capacity = 2; items = 7 ∷ [] }

-- Of three items two fit; then one is taken.
some_then_pop :
    Run {T = ℕ} 2 true
      (record { opened = true; capacity = 2; items = 5 ∷ [] })
      (4 ∷ 5 ∷ [])
      (4 ∷ [])
unfolding stretch make
some_then_pop = later (later start (Op.push_some (4 ∷ 5 ∷ 6 ∷ [])) (4 ∷ 5 ∷ []) refl) Op.pop [] refl

fifo_example : ◌≡◌ {A = List ℕ} (4 ∷ 5 ∷ []) ((4 ∷ []) ++ 5 ∷ [])
fifo_example = fifo some_then_pop

capacity_kept_example :
    (length (stretch (Op.push_some (8 ∷ 9 ∷ [])) open_one).queue.items ≤ 2)
    × ((stretch (Op.push_some (8 ∷ 9 ∷ [])) open_one).queue.capacity ≡ 2)
capacity_kept_example = capacity_kept open_one (Op.push_some (8 ∷ 9 ∷ [])) refl (omega arith)
