-- ===== src/Thread/Examples.antt =====
-- The theorems on green threads at concrete states.
use boost_green_thread.Base.{true, some, contains, ◌≡◌, ◌≢◌, ◌⊎◌, refl}
use boost_green_thread.Thread.Object.{stopped}
use boost_green_thread.Thread.Joining.{
  System, init, call_join, stop, Reach, start, later, joins, joiners_woken,
}

-- Thread 1 joins thread 2, which then stops.
abbrev joined_two : System
joined_two = call_join init 1 2

joined_two-Reach : Reach joined_two
joined_two-Reach = later start (joins 1 2 refl)

joiners_woken_example :
    (joined_two.woken 1 ≡ true)
    ⊎ ((contains (joined_two.thread 2).join_queue 1 ≡ true)
        × ((joined_two.thread 2).state ≢ stopped)
        × ((stop joined_two 2 (some 7)).woken 1 ≡ true))
unfolding call_join
joiners_woken_example = joiners_woken joined_two-Reach 1 2 (some 7) refl
