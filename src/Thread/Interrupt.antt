-- ===== src/Thread/Interrupt.antt =====
-- Interruption of green threads.
use boost_green_thread.Base.{
  ℕ, Bool, true, not, ◌&&◌, ◌==◌, if◌then◌else◌, unsigned_inc, unsigned_dec,
}
use boost_green_thread.Thread.Object.{ThreadObject}

-- `thread_object::interrupt` and `thread::interrupt`
unfoldable pub interrupt : ThreadObject → ThreadObject
interrupt t = if t.interrupt_disable_level == 0 then record t { interrupt_requested = true } else t

-- Whether `pause` throws `thread_interrupted` when its thread runs again.
unfoldable pub pause_throws : ThreadObject → Bool
pause_throws t = t.interrupt_disable_level == 0 && t.interrupt_requested

-- `disable_interruption()` and `~disable_interruption()`
unfoldable pub disable : ThreadObject → ThreadObject
disable t = record t { interrupt_disable_level = unsigned_inc t.interrupt_disable_level }

unfoldable pub enable_again : ThreadObject → ThreadObject
enable_again t = record t { interrupt_disable_level = unsigned_dec t.interrupt_disable_level }

-- `restore_interruption()`, whose `level_` starts at 0, and `~restore_interruption()`: both swap.
unfoldable pub swap_level : ℕ → ThreadObject → ThreadObject × ℕ
swap_level level t = (record t { interrupt_disable_level = level }, t.interrupt_disable_level)

unfoldable pub interruption_enabled : ThreadObject → Bool
interruption_enabled t = t.interrupt_disable_level == 0

-- `return cf->interrupt_requested_==0;`
unfoldable pub interruption_requested : ThreadObject → Bool
interruption_requested t = not t.interrupt_requested

-- Whether `interruption_point` throws.
unfoldable pub interruption_point_throws : ThreadObject → Bool
interruption_point_throws t = t.interrupt_requested
