-- ===== src/UseFuture/Answers.antt =====
-- What the future of an operation gives, against a description that looks only at the events.
use boost_green_thread.Base.{
  ℕ, suc, ◌-◌, true, false, none, some, List, [], ◌∷◌, ◌==◌, ◌≡◌, ◌≢◌, ◌⊎◌, ◌<◌, inl, inr,
  Bool-cases, refl, arith, if◌then◌else◌,
}
use boost_green_thread.Future.SharedState.{
  SharedState, Exn, broken_promise, thrown, Verdict, gives, rethrows, waits,
}
use boost_green_thread.Future.SharedState
use boost_green_thread.UseFuture.{
  Failure, system_error, other, Operation, start, Event, copies, drops, calls, invokes, step, run,
}
use boost_green_thread.UseFuture

module _ {T : Type 0} where
  abbrev pub answer_of : ℕ → T → Verdict T Failure
  answer_of ec t = if ec == 0 then gives t else rethrows (thrown (system_error ec))

  -- With `n` handlers left: the first call of a handler answers, or the first function that throws
  -- before; if no handler is left before, the promise is broken.
  abbrev pub answer : ℕ → List (Event T) → Verdict T Failure
  answer n [] = waits
  answer n (copies ∷ xs) = answer (suc n) xs
  answer n (drops ∷ xs) = if n == 1 then rethrows broken_promise else answer (n - 1) xs
  answer n (calls ec t ∷ xs) = answer_of ec t
  answer n (invokes none none ∷ xs) = answer n xs
  answer n (invokes none (some e) ∷ xs) = rethrows (thrown (other e))
  answer n (invokes (some (ec, t)) e ∷ xs) = answer_of ec t

  abbrev given : Operation T → Verdict T Failure
  given o = (SharedState.get o.channel.shared).verdict

  -- A handler is left, and the promise is not set.
  abbrev Open : Operation T → Type 0
  Open o =
      (o.handlers ≢ 0)
      × (o.channel.attached ≡ true)
      × (o.channel.shared.ready ≡ false)
      × (o.channel.shared.except ≡ none)

  step-ready :
      (x : Event T) (o : Operation T)
      → o.channel.shared.ready ≡ true
      → (step x o).channel.shared ≡ o.channel.shared
  unfolding step
  step-ready copies o q = refl
  step-ready drops o q = ground (arith, q)
  step-ready (calls ec t) o q = ground (arith, q)
  step-ready (invokes none none) o q = refl
  step-ready (invokes none (some e)) o q = ground (arith, q)
  step-ready (invokes (some (ec, t)) none) o q = ground (arith, q)
  step-ready (invokes (some (ec, t)) (some e)) o q = ground (arith, q)

  run-ready :
      (xs : List (Event T)) (o : Operation T)
      → o.channel.shared.ready ≡ true
      → (run xs o).channel.shared ≡ o.channel.shared
  unfolding run
  run-ready [] o q = refl
  run-ready (x ∷ xs) o q = ground (arith, run-ready xs (step x o), step-ready x o q)

  run-exact :
      (xs : List (Event T)) (o : Operation T) → Open o → given (run xs o) ≡ answer o.handlers xs
  unfolding run step SharedState.get
  run-exact [] o v = ground (arith, v)
  run-exact (copies ∷ xs) o v = ground (arith, v, run-exact xs (step copies o))
  run-exact (drops ∷ xs) o v =
      ground (arith, v, run-exact xs (step drops o), run-ready xs (step drops o))
  run-exact (calls ec t ∷ xs) o v = ground (arith, v, run-ready xs (step (calls ec t) o))
  run-exact (invokes none none ∷ xs) o v = ground (arith, v, run-exact xs o)
  run-exact (invokes none (some e) ∷ xs) o v =
      ground (arith, v, run-ready xs (step (invokes none (some e)) o))
  run-exact (invokes (some (ec, t)) none ∷ xs) o v =
      ground (arith, v, run-ready xs (step (invokes (some (ec, t)) none) o))
  run-exact (invokes (some (ec, t)) (some e) ∷ xs) o v =
      ground (arith, v, run-ready xs (step (invokes (some (ec, t)) (some e)) o))

  -- A handler is left to answer, or the promise is set.
  abbrev Answerable : Operation T → Type 0
  Answerable o = ((o.handlers ≢ 0) × (o.channel.attached ≡ true)) ⊎ (o.channel.shared.ready ≡ true)

  step-Answerable :
      (x : Event T) (o : Operation T) → o.handlers ≢ 0 → Answerable o → Answerable (step x o)
  unfolding step
  step-Answerable copies o h v = ground (arith, v)
  step-Answerable drops o h v = ground (arith, v, h)
  step-Answerable (calls ec t) o h v = ground (arith, v)
  step-Answerable (invokes none none) o h v = v
  step-Answerable (invokes none (some e)) o h v = ground (arith, v)
  step-Answerable (invokes (some (ec, t)) none) o h v = ground (arith, v)
  step-Answerable (invokes (some (ec, t)) (some e)) o h v = ground (arith, v)

  run-Answerable : (xs : List (Event T)) (o : Operation T) → Answerable o → Answerable (run xs o)
  unfolding run
  run-Answerable [] o v = v
  run-Answerable (x ∷ xs) o v = elim (Bool-cases (o.handlers == 0)) [
    | inl q ↦ ground (arith, q, v)
    | inr q ↦
        let next = run-Answerable xs (step x o) (step-Answerable x o (ground (arith, q)) v) in
        ground (arith, q, next)
  ]

  -- The future of an operation: whatever happens to the handlers, it gives the value or the error of the
  -- first call of one, or what the function of `do_handler_invoke` throws before, or `broken_promise` if
  -- no handler is left before that; and it is ready at the latest when no handler is left.
  pub use_future_answers :
      (xs : List (Event T))
      → ((SharedState.get (run xs start).channel.shared).verdict ≡ answer 1 xs)
        × ((0 < (run xs start).handlers) ⊎ ((run xs start).channel.shared.ready ≡ true))
  unfolding UseFuture.start
  use_future_answers xs = (
    run-exact xs start (omega arith, refl, refl, refl),
    ground (arith, run-Answerable xs start (inl (omega arith, refl))),
  )
