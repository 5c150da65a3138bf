-- ===== src/Future/Then/Examples.antt =====
-- The theorems on `then` at small systems.
use boost_green_thread.Base.{
  ℕ, zero, suc, ◌<◌, contains, true, false, none, [], ◌∷◌, ◌≡◌, ◌≢◌, ◌⊎◌, inl, refl, arith,
}
use boost_green_thread.Future.SharedState.{Verdict, gives, waits}
use boost_green_thread.Future.Task.{Ending, returned, threw}
use boost_green_thread.Future.Waiting.Settle.{value}
use boost_green_thread.Future.Then.{
  System, attach, provide, turn, turns, drop, attaches, provides, drops, init, From, here, later,
  result, source,
}
use boost_green_thread.Future.Then.Passes.{then_passes}
use boost_green_thread.Future.Then.Strands.{then_strands}
use boost_green_thread.Future.Then.Leaks.{then_leaks}

abbrev next : ℕ → Verdict ℕ ℕ → ℕ
next i (gives v) = v
next i _ = 0

abbrev passing : ℕ → Verdict ℕ ℕ → Ending ℕ ℕ
passing i x = returned (next i x)

-- Waiter 0 throws, and the others pass the value on.
abbrev first_throws : ℕ → Verdict ℕ ℕ → Ending ℕ ℕ
first_throws zero x = threw 9
first_throws (suc i) x = passing 0 x

-- Two calls of `then`; the source is set, and the first waiter has run.
abbrev two_chained : System ℕ ℕ ℕ
two_chained = (attach passing (attach passing init).system).system

abbrev chained : System ℕ ℕ ℕ
chained = turn passing (provide (value 5) two_chained)

chained-From : From passing init chained
unfolding attach provide
chained-From =
    later
      (later
        (later (later here (attaches (omega arith) (omega arith)))
          (attaches (omega arith) (omega arith)))
        (provides (value 5) (omega arith)))
      (turns (ground arith))

then_passes_example :
    ((chained.src.ready ≡ true)
      × (contains chained.running 0 ≡ false)
      × (result chained 0 ≡ gives (next 0 (source chained))))
    ⊎ (((chained.src.ready ≡ false) ⊎ (contains chained.running 0 ≡ true))
        × (result chained 0 ≡ waits))
unfolding attach provide turn
then_passes_example = then_passes passing next (λ i x. refl) 0 chained-From (omega arith)

abbrev two_listed : System ℕ ℕ ℕ
two_listed = (attach first_throws (attach first_throws init).system).system

abbrev thrown_out : System ℕ ℕ ℕ
thrown_out = turn first_throws (provide (value 5) two_listed)

then_strands_example :
    (thrown_out.src.ready ≡ true)
    × (result thrown_out 1 ≡ waits)
    × ((thrown_out.running ≢ []) ⊎ ((thrown_out.running ≡ []) × (thrown_out.thrown ≢ none)))
unfolding attach contains provide turn
then_strands_example =
    then_strands first_throws two_listed (value 5) [] (1 ∷ []) 0 1 refl refl refl (λ x. (9, refl))
      refl (ground arith) (omega arith) refl (later here (turns (ground arith)))

then_leaks_example :
    let t = drop (attach passing init).system in (t.freed ≡ false) × (t.handles < t.use_count)
unfolding attach
then_leaks_example =
    then_leaks passing here refl (omega arith) (omega arith)
      (later here (drops (omega arith) (inl refl)))
