-- ===== src/Future/Handles/Examples.antt =====
-- The theorems on handles after a promise has been moved over another one.
use boost_green_thread.Base.{ℕ, zero, suc, ◌<◌, true, false, ◌≡◌, ◌⊎◌, refl, arith}
use boost_green_thread.Base.Counts.{refs}
use boost_green_thread.Future.Handles.Heap.{
  Kind, promise, future, Store, create, get_future, move_assign,
}
use boost_green_thread.Future.Handles.Program.{
  init, Reach, start, later, creates, gets_future, move_assigns,
}
use boost_green_thread.Future.Handles.Invariant.{any_kind, owner}
use boost_green_thread.Future.Handles.Ownership.{lifetime, abandoned_ready}

-- Variables 0 and 1 are promises, variable 2 is a future.
abbrev kinds : ℕ → Kind
kinds zero = promise
kinds (suc zero) = promise
kinds (suc (suc _)) = future

abbrev one_future : Store ℕ ℕ
one_future = get_future 1 2 (create 1 (create 0 init))

abbrev assigned : Store ℕ ℕ
assigned = move_assign promise 0 1 one_future

assigned_reached : Reach 3 kinds assigned
unfolding create get_future
assigned_reached =
    later
      (later
        (later (later start (creates 0 (omega arith) refl refl))
          (creates 1 (omega arith) refl refl))
        (gets_future 1 2 (omega arith) (omega arith) refl refl refl))
      (move_assigns 0 1 (omega arith) (omega arith) refl)

lifetime_example :
    ((assigned.heap.freed 1 ≡ true) × (refs any_kind 3 assigned.state 1 ≡ 0))
    ⊎ ((assigned.heap.freed 1 ≡ false)
        × (0 < refs any_kind 3 assigned.state 1)
        × (assigned.heap.use_count 1 ≡ refs any_kind 3 assigned.state 1))
unfolding move_assign get_future create
lifetime_example = lifetime 3 kinds (omega arith) 1 assigned_reached (omega arith)

abandoned_ready_example :
    (refs (owner kinds) 3 assigned.state 1 ≡ 1)
    ⊎ ((refs (owner kinds) 3 assigned.state 1 ≡ 0) × ((assigned.heap.shared 1).ready ≡ true))
unfolding move_assign get_future create
abandoned_ready_example = abandoned_ready 3 kinds (omega arith) 1 assigned_reached (omega arith)
