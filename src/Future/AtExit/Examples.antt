-- ===== src/Future/AtExit/Examples.antt =====
-- The theorems on thread exits when one promise is to get a value.
use boost_green_thread.Base.{ℕ, true, false, some, List, [], ◌∷◌, ◌≡◌, ◌≢◌, ◌⊎◌, refl}
use boost_green_thread.Future.SharedState.{broken_promise, rethrows}
use boost_green_thread.Future.SharedState
use boost_green_thread.Future.AtExit.{
  System, init, finished, exit, Act, sets_value_at_exit, destroys, calls_at_exit, run,
}
use boost_green_thread.Future.AtExit.Left.{any_for, readies, settable, promised, left, nobody}
use boost_green_thread.Future.AtExit.Delivers.{exit_delivers}
use boost_green_thread.Future.AtExit.Abandoned.{destroyed_early}

abbrev one_left : List (Act ℕ ℕ)
one_left = sets_value_at_exit true 0 7 ∷ calls_at_exit true 4 ∷ []

abbrev ending : System ℕ ℕ
ending = run one_left init

exit_delivers_example :
    ((settable (left one_left nobody) (readies ending) ≡ true)
      × ((exit ending).1 ≡ finished)
      × ((exit ending).0.objects ≡ ending.objects)
      × (((any_for 0 (left one_left nobody) ≡ false)
            × ((exit ending).0.channel 0 ≡ ending.channel 0))
          ⊎ ((any_for 0 (left one_left nobody) ≡ true)
              × (some (SharedState.get ((exit ending).0.channel 0).shared).verdict
                  ≡ promised 0 (left one_left nobody)))))
    ⊎ ((settable (left one_left nobody) (readies ending) ≡ false) × ((exit ending).1 ≢ finished))
exit_delivers_example = exit_delivers one_left 0

abbrev too_early : System ℕ ℕ
too_early = run (sets_value_at_exit true 0 7 ∷ destroys 0 ∷ []) init

destroyed_early_example :
    ((SharedState.get (too_early.channel 0).shared).verdict ≡ rethrows broken_promise)
    × ((exit too_early).1 ≢ finished)
unfolding run
destroyed_early_example = destroyed_early [] 0 7 refl refl
