-- ===== src/Condition/Examples.antt =====
-- The theorems on the condition variable at concrete states.
use boost_green_thread.Base.{ℕ, false, some, [], ◌≡◌, ◌≢◌, refl, inl, contains}
use boost_green_thread.Mutex.Plain.{Mutex}
use boost_green_thread.Condition.{notify_one}
use boost_green_thread.Condition.Waits.{
  away, System, init, call_wait, call_wait_rel, waits, waits_rel, Reach, start, later,
}
use boost_green_thread.Condition.Delivery.{cv_resumed_once}

abbrev owned_by : ℕ → Mutex
owned_by i = record { owner = some i; suspended = [] }

-- Thread 1 in `wait`, then thread 2 in `wait_rel`.
abbrev two_wait : System
two_wait = call_wait_rel (call_wait init (owned_by 1) 9 1) (owned_by 2) 9 2

two_wait-Reach : Reach two_wait
unfolding call_wait
two_wait-Reach = later (later start (waits (owned_by 1) 9 1 refl)) (waits_rel (owned_by 2) 9 2 refl)

cv_resumed_once_example : (two_wait.pc 1 ≢ away) × (two_wait.ready 1 ≡ false)
unfolding call_wait call_wait_rel notify_one contains
cv_resumed_once_example = cv_resumed_once two_wait-Reach 0 1 (inl refl)
