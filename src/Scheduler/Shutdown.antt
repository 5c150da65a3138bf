-- ===== src/Scheduler/Shutdown.antt =====
-- Threads of one scheduler come and go, its timer checks, and callers join.
use boost_green_thread.Base.{
  ℕ, suc, ◌+◌, ◌-◌, ◌<◌, Bool, true, false, ltb, ◌≡◌, refl, ◌⊎◌, inl, inr, size_mod, arith,
}
use boost_green_thread.Scheduler.{
  Scheduler, make, make_thread, start, add_thread, on_thread_exit, on_check_timer, join_waits,
  join_ends,
}

-- `live` green threads have been made and have not posted their exit. `leaving` calls of `join` are
-- past its loop, and have given `mtx_` up, but have not ended.
pub record System : Type 0 where
  pub scheduler : Scheduler
  pub live : ℕ
  pub leaving : ℕ

abbrev pub init : System
init = record { scheduler = make; live = 0; leaving = 0 }

unfoldable pub after_make_thread : System → System
after_make_thread s = record s { scheduler = make_thread s.scheduler; live = s.live + 1 }

unfoldable pub after_exit : System → System
after_exit s = record s { scheduler = on_thread_exit s.scheduler; live = s.live - 1 }

unfoldable pub after_join : System → System
after_join s = record s { scheduler = join_ends s.scheduler; leaving = s.leaving - 1 }

-- A check runs when the timer is armed. `join` ends behind the worker threads, if there are any, for
-- which `io_service_.stop()` has been called. `racing` says whether threads are also made while a
-- `join` is past its loop.
pub data Step (racing : Bool) (s : System) : System → Type 0 where
  makes_thread :
      s.live + 1 < size_mod
      → (racing ≡ true) ⊎ (s.leaving ≡ 0)
      → Step racing s (after_make_thread s)
  exits : 0 < s.live → Step racing s (after_exit s)
  starts : (n : ℕ) → Step racing s (record s { scheduler = start n s.scheduler })
  adds : (n : ℕ) → Step racing s (record s { scheduler = add_thread n s.scheduler })
  checks :
      s.scheduler.timer_armed ≡ true
      → Step racing s (record s { scheduler = on_check_timer s.scheduler })
  passes : join_waits s.scheduler ≡ false → Step racing s (record s { leaving = suc s.leaving })
  joins :
      0 < s.leaving
      → (s.scheduler.threads ≡ 0) ⊎ (s.scheduler.io_stopped ≡ true)
      → Step racing s (after_join s)

pub data Reach (racing : Bool) : System → Type 0 where
  begin : Reach racing init
  later : {s t : System} → Reach racing s → Step racing s t → Reach racing t

pub record Inv (racing : Bool) (s : System) : Type 0 where
  pub counted : s.scheduler.thread_count ≡ s.live
  pub small : s.live < size_mod
  pub begun : (racing ≡ true) ⊎ (s.live ≡ 0) ⊎ (s.scheduler.started ≡ true)
  pub empty : (racing ≡ true) ⊎ (s.leaving ≡ 0) ⊎ (s.live ≡ 0)

pub Step-Inv : {b : Bool} {s t : System} → Step b s t → Inv b s → Inv b t
unfolding after_make_thread make_thread after_exit on_thread_exit start add_thread on_check_timer
    join_waits after_join join_ends
Step-Inv (makes_thread h r) v = ground arith
Step-Inv (exits h) v = ground arith
Step-Inv (starts n) v = ground arith
Step-Inv (adds n) v = ground arith
Step-Inv (checks h) v = ground arith
Step-Inv (passes h) v = ground arith
Step-Inv (joins h k) v = ground arith

pub Reach-Inv : {b : Bool} {s : System} → Reach b s → Inv b s
Reach-Inv begin = record {
  counted = refl;
  small = omega arith;
  begun = inr (inl refl);
  empty = inr (inl refl);
}
Reach-Inv (later r st) = Step-Inv st (Reach-Inv r)

-- The scheduler does not stop under a running thread, as long as no thread is made while a `join` is
-- past its loop and has not ended: `thread_count_` is the number of live threads, `join` waits
-- exactly while there are any, and a check stops the service and notifies `join` exactly if there are
-- none and one has been made, and otherwise arms the timer again.
pub join_waits_for_threads :
    {s : System}
    → Reach false s
    → (s.scheduler.thread_count ≡ s.live)
      × (join_waits s.scheduler ≡ ltb 0 s.live)
      × (((0 < s.live) × (on_check_timer s.scheduler ≡ record s.scheduler { timer_armed = true }))
          ⊎ ((s.live ≡ 0)
              × (s.scheduler.started ≡ false)
              × (on_check_timer s.scheduler ≡ record s.scheduler { timer_armed = true }))
          ⊎ ((s.live ≡ 0)
              × (s.scheduler.started ≡ true)
              × ((on_check_timer s.scheduler).io_stopped ≡ true)
              × ((on_check_timer s.scheduler).notified ≡ true)))
unfolding join_waits on_check_timer
join_waits_for_threads r = ground (arith, Reach-Inv r)

-- A thread that is made while a `join` is past its loop and has not ended is forgotten: when this
-- `join` ends, the thread is live, yet no `join` waits, and the check only arms the timer again.
-- There are fewer than 2 ^ 64 - 1 live threads.
pub join_forgets :
    {s : System}
    → Reach true s
    → 0 < s.leaving
    → s.live + 1 < size_mod
    → let t = after_join (after_make_thread s) in
      (0 < t.live)
      × (join_waits t.scheduler ≡ false)
      × (on_check_timer t.scheduler ≡ record t.scheduler { timer_armed = true })
unfolding after_make_thread make_thread after_join join_ends join_waits on_check_timer
join_forgets r h l = ground (arith, Reach-Inv r)
