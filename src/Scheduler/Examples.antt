-- ===== src/Scheduler/Examples.antt =====
-- The theorem on the scheduler at a concrete state.
use boost_green_thread.Base.{◌<◌, true, false, ltb, ◌≡◌, ◌⊎◌, inr, refl, arith}
use boost_green_thread.Scheduler.{start, on_check_timer, join_waits}
use boost_green_thread.Scheduler.Shutdown.{
  System, init, after_make_thread, Reach, begin, later, starts, makes_thread,
  join_waits_for_threads,
}

abbrev one_live : System
one_live = after_make_thread (record init { scheduler = start 4 init.scheduler })

one_live-Reach : Reach false one_live
one_live-Reach = later (later begin (starts 4)) (makes_thread (omega arith) (inr refl))

join_waits_for_threads_example :
    (one_live.scheduler.thread_count ≡ one_live.live)
    × (join_waits one_live.scheduler ≡ ltb 0 one_live.live)
    × (((0 < one_live.live)
          × (on_check_timer one_live.scheduler ≡ record one_live.scheduler { timer_armed = true }))
        ⊎ ((one_live.live ≡ 0)
            × (one_live.scheduler.started ≡ false)
            × (on_check_timer one_live.scheduler
                ≡ record one_live.scheduler { timer_armed = true }))
        ⊎ ((one_live.live ≡ 0)
            × (one_live.scheduler.started ≡ true)
            × ((on_check_timer one_live.scheduler).io_stopped ≡ true)
            × ((on_check_timer one_live.scheduler).notified ≡ true)))
join_waits_for_threads_example = join_waits_for_threads one_live-Reach
