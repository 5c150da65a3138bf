-- ===== src/Thread/Object.antt =====
-- `thread_object`: its state machine, joining, and its end. The coroutine `runner_` is outside; what
-- it does shows as the states that it hands to `one_step`.
use boost_green_thread.Base.{
  ℕ, ◌*◌, Bool, true, false, ◌||◌, Option, none, some, List, [], ◌∷◌, ◌++◌, ltb, ◌==◌,
  if◌then◌else◌,
}

-- `state_t`
pub data State : Type 0 where
  ready running blocked stopped : State

-- A clean-up function and its data, each null or a number.
pub record TssValue : Type 0 where
  pub func : Option ℕ
  pub value : Option ℕ

-- Threads, functions, keys and exceptions go by numbers. `fss` has at most one entry for a key.
pub record ThreadObject : Type 0 where
  pub state : State
  pub cleanup_queue : List ℕ
  pub join_queue : List ℕ  -- the threads that `activate` is called on
  pub fss : List (ℕ × TssValue)
  pub this_ref : Bool  -- whether `this_ref_` keeps the object alive
  pub uncaught_exception : Option ℕ
  pub interrupt_disable_level : ℕ  -- an int, as its pattern of 32 bits
  pub interrupt_requested : Bool

-- `thread_object(…)`
abbrev pub make : ThreadObject
make = record {
  state = ready;
  cleanup_queue = [];
  join_queue = [];
  fss = [];
  this_ref = false;
  uncaught_exception = none;
  interrupt_disable_level = 0;
  interrupt_requested = false;
}

abbrev pub is_stopped : State → Bool
is_stopped stopped = true
is_stopped _ = false

unfoldable pub detach : ThreadObject → ThreadObject
detach t = if is_stopped t.state then t else record t { this_ref = true }

-- `while (state_==RUNNING)`, over the states that the coroutine returns; none if these run out.
unfoldable pub run_loop : State → List State → Option State
run_loop running [] = none
run_loop running (s ∷ ss) = run_loop s ss
run_loop s _ = some s

-- `one_step` posts this thread again, activates the threads that have joined it, or does neither.
pub record StepEnd : Type 0 where
  pub thread : ThreadObject
  pub posted : Bool
  pub activated : List ℕ
  pub exit_posted : Bool  -- `on_thread_exit` has been posted to the scheduler

abbrev start_state : State → State
start_state ready = running
start_state s = s

abbrev pub settle : ThreadObject → State → StepEnd
settle t ready = record {
  thread = record t { state = ready };
  posted = true;
  activated = [];
  exit_posted = false;
}
settle t stopped = record {
  thread = record t { state = stopped; join_queue = [] };
  posted = false;
  activated = t.join_queue;
  exit_posted = true;
}
settle t s = record {
  thread = record t { state = s };
  posted = false;
  activated = [];
  exit_posted = false;
}

unfoldable pub one_step : ThreadObject → List State → Option StepEnd
unfolding run_loop
one_step t script = elim (run_loop (start_state t.state) script) [
  | none ↦ none
  | some s ↦ some (settle t s)
]

unfoldable pub activate_thread : ThreadObject → List State → Option StepEnd
unfolding one_step
activate_thread t script = one_step (record t { state = ready }) script

-- `join` up to its `pause`: it throws, returns, or queues the caller, which then suspends.
pub data JoinResult : Type 0 where
  deadlock joined pauses : JoinResult

unfoldable pub join : ℕ → ℕ → ThreadObject → ThreadObject × JoinResult
join this f t =
    if this == f
    then (t, deadlock)
    else if is_stopped t.state
    then (t, joined)
    else (record t { join_queue = t.join_queue ++ this ∷ [] }, pauses)

-- The exception that is rethrown, if any; the thread keeps none.
unfoldable pub propagate_exception : ThreadObject → ThreadObject × Option ℕ
propagate_exception t = (record t { uncaught_exception = none }, t.uncaught_exception)

-- `propagate_exception(f); return;`
abbrev rethrows : ThreadObject → ThreadObject × JoinResult × Option ℕ
rethrows t = let (t', e) = propagate_exception t in (t', joined, e)

-- Up to its `pause`, behind which comes `propagate_exception`.
unfoldable pub join_and_rethrow : ℕ → ℕ → ThreadObject → ThreadObject × JoinResult × Option ℕ
unfolding propagate_exception
join_and_rethrow this f t =
    if this == f
    then (t, deadlock, none)
    else if is_stopped t.state
    then rethrows t
    else (record t { join_queue = t.join_queue ++ this ∷ [] }, pauses, none)

unfoldable pub add_cleanup_function : ℕ → ThreadObject → ThreadObject
add_cleanup_function f t = record t { cleanup_queue = t.cleanup_queue ++ f ∷ [] }

-- A clean-up function alone, or one of `fss_` with its data.
pub data Ran : Type 0 where
  cleanup : ℕ → Ran
  tss_cleanup : ℕ → ℕ → Ran

abbrev pub cleanups : List ℕ → List Ran
cleanups [] = []
cleanups (f ∷ fs) = cleanup f ∷ cleanups fs

abbrev pub tss_cleanups : List (ℕ × TssValue) → List Ran
tss_cleanups [] = []
tss_cleanups ((k, v) ∷ rest) = elim v.func [
  | none ↦ tss_cleanups rest
  | some f ↦ elim v.value [
    | none ↦ tss_cleanups rest
    | some d ↦ tss_cleanup f d ∷ tss_cleanups rest
  ]
]

-- The end of `runner_wrapper`, after `entry_->run()` has returned or thrown `e`, if the clean-up
-- functions add none: `~cleaner` runs, an exception is kept, and the coroutine yields STOPPED.
unfoldable pub runner_end : Option ℕ → ThreadObject → ThreadObject × List Ran
runner_end e t = (
  record t {
    cleanup_queue = [];
    uncaught_exception = elim e [ none ↦ t.uncaught_exception | some x ↦ some x ];
  },
  cleanups t.cleanup_queue ++ tss_cleanups t.fss,
)

-- `~thread_object` calls `std::terminate`.
unfoldable pub terminates : ThreadObject → Bool
terminates t =
    if is_stopped t.state then elim t.uncaught_exception [ none ↦ false | some _ ↦ true ] else true

-- Whether `yield` gives way: `hint` is none for a null hint, or whether it shares the strand.
unfoldable pub yields : ℕ → ℕ → Option Bool → Bool
yields threads thread_count hint =
    threads == 1
    || ltb (threads * 2) thread_count
    || elim hint [ none ↦ true | some same_strand ↦ same_strand ]
