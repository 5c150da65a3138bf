-- ===== src/Thread/Strand/Examples.antt =====
-- The theorem on strands when thread 1, which has been activated again, ends with thread 2 joining it.
use boost_green_thread.Base.{ℕ, none, some, [], ◌∷◌, ◌++◌, ◌≡◌, ◌≢◌, ◌⊎◌, refl, arith}
use boost_green_thread.Thread.Object.{running, stopped}
use boost_green_thread.Thread.Strand.{
  enter, System, init, resume, take, leave, Run, start, resumes, takes, leaves,
}
use boost_green_thread.Thread.Strand.Kept.{activations_kept}

abbrev told_early : System
told_early = resume 1 (take 1 [] (resume 1 init))

abbrev one_ended : System
one_ended = leave 1 [] (2 ∷ []) stopped told_early

one_ended-Run : Run (1 ∷ 1 ∷ 2 ∷ []) (1 ∷ []) one_ended
unfolding resume enter
one_ended-Run =
    leaves 1 [] (2 ∷ []) stopped refl (ground arith)
      (resumes 1 (takes 1 [] refl refl (resumes 1 start)))

activations_kept_example :
    (1 ∷ 1 ∷ 2 ∷ [] ≡ (1 ∷ []) ++ one_ended.posted)
    × (((one_ended.stack ≡ []) × (one_ended.current ≡ none) × (one_ended.state 2 ≢ running))
        ⊎ ((j : ℕ) × (one_ended.stack ≡ j ∷ [])
            × (one_ended.current ≡ some j)
            × (one_ended.state j ≡ running)
            × ((2 ≡ j) ⊎ (one_ended.state 2 ≢ running))))
activations_kept_example = activations_kept 2 one_ended-Run
