-- ===== src/Future/Examples.antt =====
-- The theorem on the specialisations for `void` when one promise is moved, destroyed and waited for.
use boost_green_thread.Base.{ℕ, List, [], ◌∷◌, ◌≡◌}
use boost_green_thread.Future.Handles.Heap.{promise}
use boost_green_thread.Future.Handles.Program.{init}
use boost_green_thread.Future.Handles.Calls.{
  Call, creates, gets_future, moves, destroys, gets, history,
}
use boost_green_thread.Future.Void.Handles
use boost_green_thread.Future.Void.Alike.{void_history}
use boost_green_thread.Future.Void.Programs.{seen, void_programs_agree}

abbrev one_broken : List (Call (Unit {0}) ℕ)
one_broken = creates 0 ∷ gets_future 0 1 ∷ moves 0 2 ∷ destroys promise 2 ∷ gets 1 3 ∷ []

void_programs_agree_example : seen (history one_broken init) ≡ void_history one_broken Handles.init
void_programs_agree_example = void_programs_agree one_broken
