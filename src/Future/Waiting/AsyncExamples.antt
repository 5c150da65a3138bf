-- ===== src/Future/Waiting/AsyncExamples.antt =====
-- The theorems on `async_wait_for_all` and `async_wait_for_any` on short runs.
use boost_green_thread.Base.{
  ℕ, ◌<◌, Bool, true, false, none, some, [], contains, ◌≡◌, ◌⊎◌, refl, arith,
}
use boost_green_thread.Base.Tally.{tally}
use boost_green_thread.Future.SharedState.{
  SharedState, fresh, gives, add_external_waiter, set_value,
}
use boost_green_thread.Future.SharedState
use boost_green_thread.Future.Waiting.Settle.{value}
use boost_green_thread.Future.Waiting.AsyncAll
use boost_green_thread.Future.Waiting.AsyncAllReady.{readies, async_all_exact}
use boost_green_thread.Future.Waiting.AsyncAny
use boost_green_thread.Future.Waiting.AsyncAnyReady.{async_any_exact}

abbrev new : ℕ → SharedState ℕ ℕ
new _ = fresh

abbrev done_already : ℕ → SharedState ℕ ℕ
done_already _ = record { ready = true; value = some 5; except = none; ext_waiters = [] }

-- No waiter throws.
abbrev calm : ℕ → ℕ → Bool
calm _ _ = false

-- One future, which becomes ready; its waiter counts and sets the value.
abbrev all_told : AsyncAll.System ℕ ℕ
all_told =
    AsyncAll.tell 0
      (AsyncAll.count 1 0 (AsyncAll.settled calm 0 (value 5) (AsyncAll.setup (AsyncAll.init new))))

all_told-Reach : AsyncAll.Reach calm 1 all_told
unfolding AsyncAll.setup AsyncAll.settled AsyncAll.count contains
all_told-Reach =
    AsyncAll.later
      (AsyncAll.later
        (AsyncAll.later
          (AsyncAll.later (AsyncAll.start new (λ i. refl) (λ i j q. refl))
            (AsyncAll.registers (omega arith)))
          (AsyncAll.settles 0 (value 5) (omega arith)))
        (AsyncAll.counts 0 refl))
      (AsyncAll.tells 0 refl)

async_all_exact_example :
    (all_told.failed ≡ false)
    × (((all_told.result.ready ≡ true) × (tally 1 (readies all_told) ≡ 1))
        ⊎ ((all_told.result.ready ≡ false) × (tally 1 (readies all_told) < 1)))
unfolding AsyncAll.setup AsyncAll.settled AsyncAll.count AsyncAll.tell contains
async_all_exact_example =
    async_all_exact calm 1 (omega arith) all_told-Reach (omega arith) refl (λ i. ground arith)

-- One future, whose waiter sets the value.
abbrev any_told : AsyncAny.System ℕ ℕ
any_told =
    AsyncAny.tell 0
      (AsyncAny.mark 0 (AsyncAny.test 0 (AsyncAny.setup (AsyncAny.init done_already))))

any_told-Reach : AsyncAny.Reach calm 1 any_told
unfolding AsyncAny.setup AsyncAny.test AsyncAny.mark contains
any_told-Reach =
    AsyncAny.later
      (AsyncAny.later
        (AsyncAny.later
          (AsyncAny.later (AsyncAny.start done_already (λ i. refl) (λ i j q. refl))
            (AsyncAny.registers (omega arith)))
          (AsyncAny.tests 0 refl))
        (AsyncAny.marks 0 refl))
      (AsyncAny.tells 0 refl)

async_any_exact_example :
    ((r : ℕ) × ((SharedState.get any_told.result).verdict ≡ gives r)
      × ((any_told.futures r).ready ≡ true))
    ⊎ ((any_told.result.ready ≡ false) × ((any_told.futures 0).ready ≡ false))
unfolding AsyncAny.setup AsyncAny.test AsyncAny.mark AsyncAny.tell contains
async_any_exact_example =
    async_any_exact calm 1 0 any_told-Reach refl (λ j. ground arith) (omega arith)
