-- ===== src/Barrier/Examples.antt =====
-- The theorem on the barrier when one of two threads has come.
use boost_green_thread.Base.{ℕ, ◌<◌, true, false, ◌≡◌, ◌⊎◌, refl, arith}
use boost_green_thread.Base.Tally.{tally}
use boost_green_thread.Barrier.Rendezvous.{
  System, outside, inside, init, arrive, look, Reach, start, later, arrives, rendezvous,
}

abbrev twos : ℕ → ℕ
twos _ = 2

abbrev one_in : System
one_in = arrive 2 0 (init 2 twos (λ _. (omega arith, omega arith)))

one_in-Reach : Reach 2 twos (λ _. (omega arith, omega arith)) one_in
one_in-Reach = later start (arrives 0 (omega arith) refl)

rendezvous_example :
    (one_in.elected ≡ one_in.trips)
    × (((one_in.entered 0 ≡ one_in.trips)
          × (one_in.arrived 0 ≡ true)
          × (tally 2 one_in.arrived < twos one_in.trips)
          × ((look 0 0 one_in).pc 0 ≡ inside 0))
        ⊎ ((one_in.entered 0 < one_in.trips)
            × (one_in.asleep 0 ≡ false)
            × ((look 0 0 one_in).pc 0 ≡ outside)))
unfolding arrive
rendezvous_example =
    rendezvous 2 twos (λ _. (omega arith, omega arith)) 0 0 one_in-Reach refl (omega arith)
