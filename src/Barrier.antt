-- ===== src/Barrier.antt =====
-- barrier.hpp: `barrier`. `m_mutex` makes a stretch between two waits one step.
pub mod Rendezvous
mod Examples
use boost_green_thread.Base.{
  ℕ, zero, suc, ◌+◌, ◌-◌, ◌≤◌, ◌<◌, Bool, true, false, Option, none, some, ◌==◌, if◌then◌else◌, ◌≡◌,
  ◌≢◌, ◌⊎◌, refl, unsigned_mod, unsigned_inc, unsigned_dec, arith,
}

-- `m_count` and `m_generation`; `size` is what the completion function `fct_` returns.
pub record Barrier : Type 0 where
  pub count : ℕ  -- unsigned
  pub generation : ℕ  -- unsigned
  pub size : ℕ  -- unsigned

-- What a constructor is given: nothing, a functor or a pointer to a function that returns nothing or a
-- number; a null pointer is as nothing.
pub data Completion : Type 0 where
  no_completion void_functor void_pointer : Completion
  size_functor size_pointer : ℕ → Completion

-- What `fct_` then returns.
unfoldable pub completion_size : Completion → ℕ → ℕ
completion_size (size_functor k) n = k
completion_size (size_pointer k) n = k
completion_size _ n = n

-- `check_counter`; none if it throws.
unfoldable pub check_counter : ℕ → Option ℕ
check_counter n = if n == 0 then none else some n

-- The constructors
unfoldable pub make : Completion → ℕ → Option Barrier
unfolding check_counter completion_size
make c n = elim (check_counter n) [
  | none ↦ none
  | some count ↦ some (record { count = count; generation = 0; size = completion_size c count })
]

-- `wait` ends with a Boolean, or waits on `m_cond` with the generation it has seen.
pub data Verdict : Type 0 where
  answers : Bool → Verdict
  waits : (gen : ℕ) → Verdict

pub record Stretch : Type 0 where
  pub barrier : Barrier
  pub verdict : Verdict
  pub notified : Bool  -- `m_cond.notify_all()`

-- The loop of `wait`, first and behind each wait.
unfoldable pub wait_woken : ℕ → Barrier → Stretch
wait_woken gen b = record {
  barrier = b;
  verdict = if gen == b.generation then waits gen else answers false;
  notified = false;
}

unfoldable pub wait : Barrier → Stretch
unfolding wait_woken
wait b =
    let count = unsigned_dec b.count in
    if count == 0
    then record {
      barrier = record b { generation = unsigned_inc b.generation; count = b.size };
      verdict = answers true;
      notified = true;
    }
    else wait_woken b.generation (record b { count = count })

-- The barrier after `n` threads have come to it, one after another.
unfoldable pub arrivals : ℕ → Barrier → Barrier
arrivals zero b = b
arrivals (suc n) b = arrivals n (wait b).barrier

-- Fewer arrivals than are missing only lower the count.
arrivals-lt :
    (n : ℕ) (b : Barrier)
    → n < b.count
    → b.count < unsigned_mod
    → arrivals n b ≡ record { count = b.count - n; generation = b.generation; size = b.size }
unfolding arrivals wait
arrivals-lt zero b h k = ground arith
arrivals-lt (suc n) b h k = ground (arith, arrivals-lt n (wait b).barrier)

-- A generation: of `m_count` threads that come to the barrier, exactly the last answers true and
-- notifies, the others wait with the generation that they have seen; each of them, and none before,
-- then answers false when it is woken; and the barrier is set for the next `size` threads.
pub generation_completes :
    (n : ℕ) (b : Barrier)
    → n < b.count
    → b.count < unsigned_mod
    → b.generation < unsigned_mod
    → let s = wait (arrivals n b) in
      ((suc n < b.count)
        × (s.verdict ≡ waits b.generation)
        × ((wait_woken b.generation s.barrier).verdict ≡ waits b.generation)
        × (s.notified ≡ false))
      ⊎ ((suc n ≡ b.count)
          × (s.verdict ≡ answers true)
          × ((wait_woken b.generation s.barrier).verdict ≡ answers false)
          × (s.notified ≡ true)
          × (s.barrier.count ≡ b.size))
unfolding wait
generation_completes n b h k g = ground (arith, arrivals-lt n b)
