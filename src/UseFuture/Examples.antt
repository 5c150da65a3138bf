-- ===== src/UseFuture/Examples.antt =====
-- The theorem on `use_future` when the operation fails with error 5 and its handlers are then destroyed.
use boost_green_thread.Base.{ℕ, true, none, some, List, [], ◌∷◌, ◌<◌, ◌≡◌, ◌⊎◌}
use boost_green_thread.Future.SharedState
use boost_green_thread.UseFuture.{Event, copies, drops, invokes, start, run}
use boost_green_thread.UseFuture.Answers.{answer, use_future_answers}

abbrev one_failure : List (Event ℕ)
one_failure = copies ∷ drops ∷ invokes (some (5, 0)) none ∷ drops ∷ []

use_future_answers_example :
    ((SharedState.get (run one_failure start).channel.shared).verdict ≡ answer 1 one_failure)
    × ((0 < (run one_failure start).handlers)
        ⊎ ((run one_failure start).channel.shared.ready ≡ true))
use_future_answers_example = use_future_answers one_failure
