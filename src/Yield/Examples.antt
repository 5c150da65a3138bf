-- ===== src/Yield/Examples.antt =====
-- The theorem on `yield` after one call whose handler ran before the thread paused.
use boost_green_thread.Base.{ℕ, false, some, ◌≡◌, ◌⊎◌, refl, arith}
use boost_green_thread.Yield.{
  throws_interrupted, Given, System, init, initiate, complete, run_on, paused, initiates, completes,
  pauses, runs_on, Reach, start, later,
}
use boost_green_thread.Yield.Delivers.{outcome, yield_delivers}

abbrev five : Given ℕ
five = record { error = 0; value = 5 }

abbrev completed : System ℕ
completed = complete five (initiate false 0 init)

abbrev ended : System ℕ
ended = run_on (record completed { pc = paused })

ended-Reach : Reach ended
unfolding initiate complete
ended-Reach =
    later (later (later (later start (initiates false 0 refl)) (completes five refl)) (pauses refl))
      (runs_on refl (omega arith))

yield_delivers_example :
    (g : Given ℕ) × (ended.given 0 ≡ some g)
    × ((ended.got 0 ≡ some (outcome (ended.mode 0) g)) ⊎ (ended.got 0 ≡ some throws_interrupted))
unfolding run_on
yield_delivers_example = yield_delivers 0 ended-Reach (omega arith)
