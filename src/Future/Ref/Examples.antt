-- ===== src/Future/Ref/Examples.antt =====
-- The theorem on the specialisations for references when object 4 is set and read through two futures.
use boost_green_thread.Base.{ℕ, List, [], ◌∷◌, ◌≡◌}
use boost_green_thread.Future.Handles.Program.{init}
use boost_green_thread.Future.Handles.Calls.{
  Call, creates, gets_future, shares, copies, sets_value, shared_gets, history,
}
use boost_green_thread.Future.Ref.Handles
use boost_green_thread.Future.Ref.Alike.{ref_history}
use boost_green_thread.Future.Ref.Programs.{ref_programs_agree}

abbrev one_object : List (Call ℕ ℕ)
one_object =
    creates 0
    ∷ gets_future 0 1
    ∷ shares 1 2
    ∷ copies 2 3
    ∷ sets_value 0 4
    ∷ shared_gets 2
    ∷ shared_gets 3
    ∷ []

ref_programs_agree_example : history one_object init ≡ ref_history one_object Handles.init
ref_programs_agree_example = ref_programs_agree one_object
