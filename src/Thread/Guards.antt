-- ===== src/Thread/Guards.antt =====
-- Nested `disable_interruption` and `restore_interruption`.
use boost_green_thread.Base.{
  ℕ, ◌+◌, ◌<◌, Bool, true, false, if◌then◌else◌, ◌≡◌, ◌∙◌, refl, ap, unsigned_mod, arith,
}
use boost_green_thread.Thread.Object.{ThreadObject}
use boost_green_thread.Thread.Interrupt.{interrupt, pause_throws, disable, enable_again, swap_level}

-- What a thread runs through, as far as the guards go: other threads' `interrupt`, blocks one after
-- another, and blocks in the scope of a guard.
pub data Block : Type 0 where
  poked : Block
  both : Block → Block → Block
  disabled restored : Block → Block

-- The guard's destructor runs at the end of its scope.
unfoldable pub exec : Block → ThreadObject → ThreadObject
unfolding interrupt disable enable_again swap_level
exec poked t = interrupt t
exec (both a b) t = exec b (exec a t)
exec (disabled b) t = enable_again (exec b (disable t))
exec (restored b) t = let (t', level) = swap_level 0 t in (swap_level level (exec b t')).0

abbrev pub depth : Block → ℕ
depth poked = 0
depth (both a b) = depth a + depth b
depth (disabled b) = depth b + 1
depth (restored b) = depth b

-- Whether `restored` occurs.
abbrev pub restores : Block → Bool
restores poked = false
restores (both a b) = if restores a then true else restores b
restores (disabled b) = restores b
restores (restored b) = true

-- The guards balance: whatever blocks are nested in whatever guards, the disable level behind them
-- is the level before, as long as it does not overflow.
pub guards_balance :
    (b : Block) (t : ThreadObject)
    → t.interrupt_disable_level + depth b < unsigned_mod
    → (exec b t).interrupt_disable_level ≡ t.interrupt_disable_level
unfolding exec
guards_balance poked t h = ground arith
guards_balance (both a b) t h = ground (arith, guards_balance a t, guards_balance b (exec a t))
guards_balance (disabled b) t h = ground (arith, guards_balance b (disable t))
guards_balance (restored b) t h = refl

-- Above level 0 an interrupt has no effect, and blocks without `restored` stay above it.
disabled_exec :
    (b : Block) (t : ThreadObject)
    → 0 < t.interrupt_disable_level
    → t.interrupt_disable_level + depth b < unsigned_mod
    → restores b ≡ false
    → exec b t ≡ t
unfolding exec
disabled_exec poked t p h r = ground arith
disabled_exec (both a b) t p h r =
    let first = disabled_exec a t p (omega arith) (ground arith) in
    ap (exec b) first ∙ disabled_exec b t p (omega arith) (ground arith)
disabled_exec (disabled b) t p h r =
    ap enable_again (disabled_exec b (disable t) (ground arith) (ground arith) r) ∙ ground arith
disabled_exec (restored b) t p h r = cc

disabled_drops_at :
    (b : Block) (t : ThreadObject)
    → t.interrupt_disable_level + depth b + 1 < unsigned_mod
    → restores b ≡ false
    → exec (disabled b) t ≡ t
unfolding exec
disabled_drops_at b t h r =
    ap enable_again (disabled_exec b (disable t) (ground arith) (ground arith) r) ∙ ground arith

-- An interrupt that comes while interruption is disabled is dropped, and not kept for later: blocks
-- in the scope of a `disable_interruption`, with no `restore_interruption` among them, leave the
-- thread as it was, and after them `pause` throws only if it would have thrown before.
pub disabled_drops :
    (b : Block) (t : ThreadObject)
    → t.interrupt_disable_level + depth b + 1 < unsigned_mod
    → restores b ≡ false
    → (exec (disabled b) t ≡ t) × (pause_throws (exec (disabled b) t) ≡ pause_throws t)
disabled_drops b t h r = let same = disabled_drops_at b t h r in (same, ap pause_throws same)
