-- ===== src/Spinlock/Examples.antt =====
-- The theorem on the spinlock when one thread has it.
use boost_green_thread.Base.{ℕ, ◌≡◌, ◌≢◌, ◌⊎◌, refl, arith}
use boost_green_thread.Spinlock.{
  System, inside, spinning, init, try, start, later, locks, spin_exclusion,
}

abbrev taken : System
taken = try 0 init

spin_exclusion_example :
    (((try 1 taken).pc 1 ≡ inside) × (taken.pc 0 ≢ inside))
    ⊎ ((k : ℕ) × ((try 1 taken).pc 1 ≡ spinning)
        × (taken.pc k ≡ inside)
        × ((k ≡ 0) ⊎ (taken.pc 0 ≢ inside)))
unfolding try
spin_exclusion_example = spin_exclusion 1 0 (later start (locks 0 refl)) (ground arith)
