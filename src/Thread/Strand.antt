-- ===== src/Thread/Strand.antt =====
-- The activations of the green threads that share a strand (src/thread_object.cpp): `activate`, `resume`,
-- `activate_thread`, `one_step`, `pause` and `yield`. asio runs the handlers of a strand one at a time
-- and in the order in which they were posted, and `dispatch` from within a handler of the same strand
-- runs its function at once.
pub mod Kept
mod Examples
use boost_green_thread.Base.{
  ℕ, suc, Bool, true, false, Option, none, some, List, [], ◌∷◌, ◌++◌, ◌≡◌, ◌≢◌, update,
}
use boost_green_thread.Thread.Object.{State, ready, running, blocked, stopped}

-- `posted` has the functions `activate_thread` that wait in the strand, and `stack` the threads whose
-- `one_step` is under way, the innermost first. `current` is what `get_current_thread_object()` gives in
-- the worker thread that runs the handler, none for null.
pub record System : Type 0 where
  pub state : ℕ → State
  pub posted : List ℕ
  pub stack : List ℕ
  pub current : Option ℕ

abbrev pub init : System
init = record { state = λ _. ready; posted = []; stack = []; current = none }

-- `resume`, also of a caller that is not in this strand, for which `dispatch` posts
unfoldable pub resume : ℕ → System → System
resume i s = record s { posted = s.posted ++ i ∷ [] }

-- `activate_thread`, and `one_step` up to `runner_()`
unfoldable pub enter : ℕ → System → System
enter i s = record s { state = update s.state i running; stack = i ∷ s.stack; current = some i }

-- The strand takes its next handler.
abbrev pub take : ℕ → List ℕ → System → System
take i rest s = enter i (record s { posted = rest })

-- `activate` of thread `i`, in this strand
unfoldable pub activate : ℕ → System → System
unfolding enter resume
activate i s = elim s.current [ none ↦ resume i s | some _ ↦ enter i s ]

-- The functions of a join queue, for those of its threads that are in this strand
unfoldable pub activate_all : List ℕ → System → System
unfolding activate
activate_all [] s = s
activate_all (i ∷ js) s = activate_all js (activate i s)

-- The coroutine of thread `j` hands back READY, BLOCKED or STOPPED: `~tls_guard`, and what `one_step`
-- does behind its loop, with the join queue `js`; `rest` are the calls of `one_step` further out.
unfoldable pub leave : ℕ → List ℕ → List ℕ → State → System → System
unfolding resume activate_all
leave j rest js x s =
    let out = record s { state = update s.state j x; current = none } in
    let settled : System = elim x [
      | ready ↦ resume j out
      | running ↦ out
      | blocked ↦ out
      | stopped ↦ activate_all js out
    ] in
    record settled { stack = rest }

-- The activations that thread `j` asks for when it hands back `x`: a thread that has given way is to run
-- again, and one that has ended is to wake the threads that join it.
abbrev pub asks : ℕ → List ℕ → State → List ℕ
asks j js ready = j ∷ []
asks j js running = []
asks j js blocked = []
asks j js stopped = js

-- The strand after the activations `asked` have been called for, in this order, and the activations
-- `ran` have run. Mutexes, condition variables and timers call `resume`, whoever runs them.
pub data Run : (asked ran : List ℕ) → System → Type 0 where
  start : Run [] [] init
  resumes :
      {asked ran : List ℕ} {s : System} (i : ℕ)
      → Run asked ran s
      → Run (asked ++ i ∷ []) ran (resume i s)
  takes :
      {asked ran : List ℕ} {s : System} (i : ℕ) (rest : List ℕ)
      → s.posted ≡ i ∷ rest
      → s.stack ≡ []
      → Run asked ran s
      → Run asked (ran ++ i ∷ []) (take i rest s)
  leaves :
      {asked ran : List ℕ} {s : System} (j : ℕ) (rest js : List ℕ) (x : State)
      → s.stack ≡ j ∷ rest
      → x ≢ running
      → Run asked ran s
      → Run (asked ++ asks j js x) ran (leave j rest js x s)
