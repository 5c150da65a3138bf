-- ===== src/Base/Counts.antt =====
-- How many of the first `n` pointers that `w` selects point to `p`.
use boost_green_thread.Base.{
  ℕ, zero, suc, ◌+◌, ◌≤◌, ◌<◌, Bool, true, false, ◌&&◌, Option, ◌≡◌, points_to, update, arith,
}

abbrev pub one_if : Bool → ℕ
one_if true = 1
one_if false = 0

module _ (w : ℕ → Bool) where
  unfoldable pub refs : ℕ → (ℕ → Option ℕ) → ℕ → ℕ
  refs zero f p = 0
  refs (suc n) f p = refs n f p + one_if (w n && points_to (f n) p)

  refs_above :
      (n : ℕ) (f : ℕ → Option ℕ) (a : ℕ) (v : Option ℕ) (p : ℕ)
      → n ≤ a
      → refs n (update f a v) p ≡ refs n f p
  unfolding refs
  refs_above zero f a v p h = omega arith
  refs_above (suc n) f a v p h = ground (arith, refs_above n f a v p)

  pub refs-update :
      (n : ℕ) (f : ℕ → Option ℕ) (a : ℕ) (v : Option ℕ) (p : ℕ)
      → a < n
      → refs n (update f a v) p + one_if (w a && points_to (f a) p)
        ≡ refs n f p + one_if (w a && points_to v p)
  unfolding refs
  refs-update zero f a v p h = absurd (omega arith)
  refs-update (suc n) f a v p h = ground (arith, refs-update n f a v p, refs_above n f a v p)

  pub refs_none :
      (n : ℕ) (f : ℕ → Option ℕ) (p : ℕ) → ((h : ℕ) → points_to (f h) p ≡ false) → refs n f p ≡ 0
  unfolding refs
  refs_none zero f p q = omega arith
  refs_none (suc n) f p q = ground (arith, refs_none n f p q, q n)

  pub refs-le : (n : ℕ) (f : ℕ → Option ℕ) (p : ℕ) → refs n f p ≤ n
  unfolding refs
  refs-le zero f p = omega arith
  refs-le (suc n) f p = ground (arith, refs-le n f p)

  pub refs_one :
      (n : ℕ) (f : ℕ → Option ℕ) (p a : ℕ)
      → a < n
      → w a ≡ true
      → points_to (f a) p ≡ true
      → 0 < refs n f p
  unfolding refs
  refs_one zero f p a h x y = absurd (omega arith)
  refs_one (suc n) f p a h x y = ground (arith, refs_one n f p a)
