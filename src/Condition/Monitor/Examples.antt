-- ===== src/Condition/Monitor/Examples.antt =====
-- Thread 1 waits for the predicate, and thread 2 makes it hold.
use boost_green_thread.Base.{ℕ, true, ◌≡◌, ◌⊎◌, refl, inr}
use boost_green_thread.Condition.Monitor.{
  outside, queued, released, paused, Monitor, take, let_go, look, queue_up, assign, notify,
}
use boost_green_thread.Condition.Monitor
use boost_green_thread.Condition.Monitor.Steps
use boost_green_thread.Condition.Monitor.Wakeups.{monitor_wakes}

abbrev decided : Monitor
decided = look 1 (take 1 Monitor.init)

abbrev one_paused : Monitor
one_paused = let_go paused 1 (queue_up decided.mutex queued 1 decided)

abbrev made_true : Monitor
made_true = assign true 2 (take 2 one_paused)

made_true_reached : Steps.Reach made_true
unfolding take look queue_up let_go
made_true_reached =
    Steps.later
      (Steps.later
        (Steps.later
          (Steps.later
            (Steps.later (Steps.later Steps.start (Steps.enters 1 refl)) (Steps.looks 1 refl))
            (Steps.queues 1 refl))
          (Steps.lets_go 1 refl))
        (Steps.enters 2 refl))
      (Steps.assigns 2 true refl)

monitor_wakes_example :
    (made_true.woken 1 ≡ true)
    ⊎ ((j : ℕ) × (made_true.owes j ≡ true) × ((notify j made_true).woken 1 ≡ true))
unfolding take look queue_up let_go assign
monitor_wakes_example = monitor_wakes 1 made_true_reached (inr refl) refl
