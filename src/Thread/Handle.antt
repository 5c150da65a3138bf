-- ===== src/Thread/Handle.antt =====
-- `thread` (include/boost/green_thread/thread_only.hpp, src/thread_object.cpp): variables that
-- represent threads. `data_` is null behind a start.
pub mod Unique
use boost_green_thread.Base.{
  ℕ, suc, Bool, true, false, not, ◌&&◌, Option, none, some, update, ◌==◌, points_to, if◌then◌else◌,
}

-- `impl_` of each variable; `sched` is the `sched_` of each thread that has been made.
pub record Threads : Type 0 where
  pub next : ℕ
  pub sched : ℕ → ℕ
  pub impl : ℕ → Option ℕ

pub data Verdict : Type 0 where
  returns not_a_thread terminates : Verdict

-- What `join` comes to; `undefined` dereferences null, `joins` goes on to `thread_object::join`.
pub data JoinTest : Type 0 where
  not_joinable deadlock invalid_argument undefined : JoinTest
  joins : (f : ℕ) → JoinTest

abbrev pub default_scheduler : ℕ
default_scheduler = 0

-- `start(sched)` of the variable `a`
unfoldable pub start_in : ℕ → ℕ → Threads → Threads
start_in k a s = record {
  next = suc s.next;
  sched = update s.sched s.next k;
  impl = update s.impl a (some s.next);
}

-- `start()`, where `current` is the calling thread or none
unfoldable pub start : Option ℕ → ℕ → Threads → Threads
unfolding start_in
start none a s = start_in default_scheduler a s
start (some i) a s = start_in (s.sched i) a s

-- The move constructor, of `b` from `a`
unfoldable pub move_construct : ℕ → ℕ → Threads → Threads
move_construct a b s = record s { impl = update (update s.impl b (s.impl a)) a none }

-- `b = std::move(a)`
unfoldable pub move_assign : ℕ → ℕ → Threads → Threads × Verdict
move_assign a b s = elim (s.impl b) [
  | some _ ↦ (s, terminates)
  | none ↦ (record s { impl = update (update s.impl a none) b (s.impl a) }, returns)
]

unfoldable pub swap : ℕ → ℕ → Threads → Threads
swap a b s = record s { impl = update (update s.impl a (s.impl b)) b (s.impl a) }

unfoldable pub detach : Option ℕ → ℕ → Threads → Threads × Verdict
detach current a s = elim (s.impl a) [
  | none ↦ (s, not_a_thread)
  | some f ↦
      if points_to current f
      then (s, not_a_thread)
      else (record s { impl = update s.impl a none }, returns)
]

-- The end of a variable
unfoldable pub destroy : ℕ → Threads → Threads
destroy a s = record s { impl = update s.impl a none }

-- None where `current_thread_object()->sched_` dereferences null.
unfoldable pub joinable : (ℕ → ℕ) → Option ℕ → Option ℕ → Option Bool
joinable sched current none = some false
joinable sched none (some f) = none
joinable sched (some i) (some f) = some (not (i == f) && sched f == sched i)

unfoldable pub join_test : (ℕ → ℕ) → Option ℕ → Option ℕ → JoinTest
unfolding joinable
join_test sched current none = not_joinable
join_test sched current (some f) =
    if points_to current f then deadlock else elim (joinable sched current (some f)) [
      | none ↦ undefined
      | some b ↦ if b then joins f else invalid_argument
    ]
