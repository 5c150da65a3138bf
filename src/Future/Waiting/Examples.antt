-- ===== src/Future/Waiting/Examples.antt =====
-- The theorem on `wait_for_any` on a run with one future.
use boost_green_thread.Base.{ℕ, Bool, true, false, ◌≡◌, ◌⊎◌, contains, refl, arith}
use boost_green_thread.Future.SharedState.{SharedState, fresh}
use boost_green_thread.Future.Waiting.Settle.{value}
use boost_green_thread.Future.Waiting.Any
use boost_green_thread.Future.Waiting.AnyReturns.{any_wakeup_kept}

abbrev new : ℕ → SharedState ℕ ℕ
new _ = fresh

-- No waiter throws.
abbrev calm : ℕ → ℕ → Bool
calm _ _ = false

-- The caller has registered its waiter and waits; then future 0 is set; then the waiter has run.
abbrev any_begun : Any.System ℕ ℕ
any_begun = record (Any.setup 0 (Any.init new)) { pc = Any.checking }

abbrev any_waits : Any.System ℕ ℕ
any_waits = Any.check any_begun

abbrev any_set : Any.System ℕ ℕ
any_set = Any.settled calm 0 (value 5) any_waits

abbrev any_over : Any.System ℕ ℕ
any_over = Any.check (Any.waiter_runs 0 any_set)

any_set_reached : Any.Reach calm 1 any_set
unfolding Any.setup Any.check Any.settled
any_set_reached =
    Any.later
      (Any.later
        (Any.later
          (Any.later (Any.start new (λ _. refl) (λ i j q. refl))
            (Any.registers 0 refl (omega arith)))
          (Any.begins refl))
        (Any.checks refl))
      (Any.settles 0 (value 5) (omega arith))

any_wakeup_kept_example :
    (((any_set.futures 0).ready ≡ true) × (any_set.due 0 ≡ true) × (any_over.pc ≡ Any.returned 0))
    ⊎ (((any_set.futures 0).ready ≡ false) × (contains (any_set.futures 0).ext_waiters 0 ≡ true))
unfolding Any.setup Any.check Any.settled
any_wakeup_kept_example = any_wakeup_kept calm 1 0 any_set_reached refl (omega arith)
