-- ===== src/Thread/Joining.antt =====
-- Threads that join one another and stop, interleaved in any order.
use boost_green_thread.Base.{
  ℕ, Bool, true, false, Option, some, List, [], ◌∷◌, update, contains, contains-append_one,
  if◌then◌else◌, ◌≡◌, ◌≢◌, refl, ◌⊎◌, arith,
}
use boost_green_thread.Thread.Object.{
  ThreadObject, ready, stopped, make, is_stopped, join, JoinResult, pauses, runner_end, settle,
  activate_thread,
}

-- Running or able to run, suspended in `join` on a thread, at its end.
pub data Pc : Type 0 where
  working : Pc
  joining : ℕ → Pc
  ended : Pc

pub record System : Type 0 where
  pub thread : ℕ → ThreadObject
  pub pc : ℕ → Pc
  pub woken : ℕ → Bool  -- `activate` has been called on it, and it has not run since

abbrev pub init : System
init = record { thread = λ _. make; pc = λ _. working; woken = λ _. false }

abbrev pub after_join : Pc → ℕ → JoinResult → Pc
after_join p f pauses = joining f
after_join p f _ = p

unfoldable pub call_join : System → ℕ → ℕ → System
unfolding join
call_join s i f =
    let (t, r) = join i f (s.thread f) in
    record s { thread = update s.thread f t; pc = update s.pc i (after_join (s.pc i) f r) }

abbrev pub marks : (ℕ → Bool) → List ℕ → ℕ → Bool
marks w is i = if contains is i then true else w i

-- Thread `f` comes to its end, with `e` uncaught or none: `runner_wrapper` ends, and `one_step` gets
-- STOPPED from the coroutine.
unfoldable pub stop : System → ℕ → Option ℕ → System
unfolding runner_end contains
stop s f e =
    let last = settle (runner_end e (s.thread f)).0 stopped in
    record {
      thread = update s.thread f last.thread;
      pc = update s.pc f ended;
      woken = marks s.woken last.activated;
    }

unfoldable pub run_on : System → ℕ → System
run_on s i = record s { pc = update s.pc i working; woken = update s.woken i false }

pub data Step (s : System) : System → Type 0 where
  joins : (i f : ℕ) → s.pc i ≡ working → Step s (call_join s i f)
  stops : (f : ℕ) (e : Option ℕ) → s.pc f ≡ working → Step s (stop s f e)
  wakes : (i : ℕ) → s.woken i ≡ true → Step s (run_on s i)

pub data Reach : System → Type 0 where
  start : Reach init
  later : {s t : System} → Reach s → Step s t → Reach t

-- That `one_step` does what `stop` says: the coroutine of a thread that is activated hands STOPPED
-- to it.
one_step-stopped :
    (t : ThreadObject)
    → activate_thread t (stopped ∷ []) ≡ some (settle (record t { state = ready }) stopped)
unfolding activate_thread
one_step-stopped t = refl

-- What the place of thread `i` says: a joiner waits in the queue of a thread that has not stopped,
-- or it has been woken and that thread has stopped.
abbrev pub Place : System → ℕ → Pc → Type 0
Place s i working = (s.woken i ≡ false) × (is_stopped (s.thread i).state ≡ false)
Place s i ended = (s.woken i ≡ false) × (is_stopped (s.thread i).state ≡ true)
Place s i (joining f) =
    (is_stopped (s.thread i).state ≡ false)
    × (((contains (s.thread f).join_queue i ≡ true)
          × (is_stopped (s.thread f).state ≡ false)
          × (s.woken i ≡ false))
        ⊎ ((is_stopped (s.thread f).state ≡ true) × (s.woken i ≡ true)))

pub record Inv (s : System) : Type 0 where
  pub place : (i : ℕ) → Place s i (s.pc i)
  pub queued :
      (f i : ℕ)
      → contains (s.thread f).join_queue i ≡ true
      → (s.pc i ≡ joining f) × (s.woken i ≡ false)

module _ {s : System} (v : Inv s) where
  open v use {place, queued}

  call_join-Inv : (i f : ℕ) → s.pc i ≡ working → Inv (call_join s i f)
  unfolding call_join contains
  call_join-Inv i f e = record {
    place = λ j. ground (arith, place i, place j, contains-append_one (s.thread f).join_queue i j);
    queued = λ g j h.
        ground (arith, place i, queued g j, contains-append_one (s.thread f).join_queue i j);
  }

  stop-Inv : (f : ℕ) (e : Option ℕ) → s.pc f ≡ working → Inv (stop s f e)
  unfolding stop
  stop-Inv f e w = record {
    place = λ j. ground (arith, place f, place j, queued f j);
    queued = λ g j h. ground (arith, place f, queued g j, queued f j);
  }

  run_on-Inv : (i : ℕ) → s.woken i ≡ true → Inv (run_on s i)
  unfolding run_on
  run_on-Inv i e = record {
    place = λ j. ground (arith, place i, place j);
    queued = λ g j h. ground (arith, place i, queued g j);
  }

pub Reach-Inv : {s : System} → Reach s → Inv s
unfolding contains
Reach-Inv start = record { place = λ i. (refl, refl); queued = λ f i h. cc }
Reach-Inv (later r (joins i f e)) = call_join-Inv (Reach-Inv r) i f e
Reach-Inv (later r (stops f e w)) = stop-Inv (Reach-Inv r) f e w
Reach-Inv (later r (wakes i e)) = run_on-Inv (Reach-Inv r) i e

-- `join` returns only behind the end of the other thread: a joiner that has been woken has joined a
-- thread that has stopped.
pub join_after_stop :
    {s : System}
    → Reach s
    → (i f : ℕ) → s.pc i ≡ joining f
    → s.woken i ≡ true
    → (s.thread f).state ≡ stopped
join_after_stop r i f p w = ground (arith, (Reach-Inv r).place i)

-- No joiner is forgotten: while a thread is suspended in `join`, it stands in the join queue of a
-- thread that has not stopped, and the end of that thread wakes it, or it has been woken already.
pub joiners_woken :
    {s : System}
    → Reach s
    → (i f : ℕ) (e : Option ℕ) → s.pc i ≡ joining f
    → (s.woken i ≡ true)
      ⊎ ((contains (s.thread f).join_queue i ≡ true)
          × ((s.thread f).state ≢ stopped)
          × ((stop s f e).woken i ≡ true))
unfolding stop
joiners_woken r i f e p = ground (arith, (Reach-Inv r).place i)
