-- ===== src/Base/Tally.antt =====
-- How many of the first `n` places of a family of Booleans are true.
use Prim.Native.Nat.{ℕ, zero, suc, ◌+◌, ◌≤◌, ◌<◌}
use mathlib.Core.Path.{◌≡◌}
use mathlib.Core.Bool.{Bool, true, false}
use native.Mathlib.Omega.{arith}
use boost_green_thread.Base.Tests.{if◌then◌else◌}
use boost_green_thread.Base.Families.{update}

unfoldable pub tally : ℕ → (ℕ → Bool) → ℕ
tally zero f = 0
tally (suc n) f = tally n f + (if f n then 1 else 0)

pub tally-le : (n : ℕ) (f : ℕ → Bool) → tally n f ≤ n
unfolding tally
tally-le zero f = omega arith
tally-le (suc n) f = ground (arith, tally-le n f)

pub tally_full : (n : ℕ) (f : ℕ → Bool) (i : ℕ) → tally n f ≡ n → i < n → f i ≡ true
unfolding tally
tally_full zero f i e h = absurd (omega arith)
tally_full (suc n) f i e h = ground (arith, tally-le n f, tally_full n f i)

tally_beyond :
    (n : ℕ) (f : ℕ → Bool) (i : ℕ) (b : Bool) → n ≤ i → tally n (update f i b) ≡ tally n f
unfolding tally
tally_beyond zero f i b h = omega arith
tally_beyond (suc n) f i b h = ground (arith, tally_beyond n f i b)

pub tally-set :
    (n : ℕ) (f : ℕ → Bool) (i : ℕ) (b : Bool)
    → i < n
    → tally n (update f i b) + (if f i then 1 else 0) ≡ tally n f + (if b then 1 else 0)
unfolding tally
tally-set zero f i b h = absurd (omega arith)
tally-set (suc n) f i b h = ground (arith, tally-set n f i b, tally_beyond n f i b)

pub tally-update :
    (n : ℕ) (f : ℕ → Bool) (i : ℕ) → i < n → f i ≡ false → tally n (update f i true) ≡ tally n f + 1
tally-update n f i h e = ground (arith, tally-set n f i true)

pub tally_none : (n : ℕ) → tally n (λ _. false) ≡ 0
unfolding tally
tally_none zero = omega arith
tally_none (suc n) = omega (arith, tally_none n)

pub tally-cong : (n : ℕ) (f g : ℕ → Bool) → ((i : ℕ) → i < n → f i ≡ g i) → tally n f ≡ tally n g
unfolding tally
tally-cong zero f g h = omega arith
tally-cong (suc n) f g h =
    ground (arith, tally-cong n f g (λ i l. h i (omega arith)), h n (omega arith))
