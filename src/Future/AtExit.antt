-- ===== src/Future/AtExit.antt =====
-- `set_value_at_thread_exit` and `set_exception_at_thread_exit` (future/promise.hpp), by way of
-- `at_thread_exit` and the clean-up queue that `~cleaner` runs at the end of a green thread
-- (src/thread_object.cpp).
pub mod Left
pub mod Delivers
pub mod Abandoned
mod Examples
use boost_green_thread.Base.{
  ℕ, suc, ◌+◌, ◌-◌, Bool, true, false, Option, none, some, List, [], ◌∷◌, ◌++◌, update,
  if◌then◌else◌,
}
use boost_green_thread.Future.SharedState.{SharedState, Exn, Outcome, fresh}
use boost_green_thread.Future.SharedState
use boost_green_thread.Future.Promise.{Channel, make}
use boost_green_thread.Future.Promise

-- A clean-up function: one that sets the state of promise `i`, which is none if the promise had no
-- state, or another one, `f`. The second holds its value in an object of its own.
pub data Cleanup (R E : Type 0) : Type 0 where
  value moved_value : (i : Option ℕ) → R → Cleanup R E
  exception : (i : Option ℕ) → Exn E → Cleanup R E
  call : (f : ℕ) → Cleanup R E

-- The promises, the queue, the calls that have run, and the number of objects that hold a value.
pub record System (R E : Type 0) : Type 0 where
  pub channel : ℕ → Channel R E
  pub cleanup_queue : List (Cleanup R E)
  pub called : List ℕ
  pub objects : ℕ

-- How the destructor of `cleaner` ends: the exception that it catches is thrown again at the end of
-- the handler, and leaves a destructor.
pub data Ended : Type 0 where
  finished std_terminate null_pointer : Ended

module _ {R E : Type 0} where
  abbrev pub init : System R E
  init = record { channel = λ _. make; cleanup_queue = []; called = []; objects = 0 }

  -- `green` says whether the caller is a green thread.
  unfoldable pub at_thread_exit : Bool → Cleanup R E → System R E → System R E
  at_thread_exit green f s =
      if green then record s { cleanup_queue = s.cleanup_queue ++ f ∷ [] } else s

  -- `ptr_t f=future_;`
  abbrev pub captured : ℕ → System R E → Option ℕ
  captured i s = if (s.channel i).attached then some i else none

  unfoldable pub set_value_at_thread_exit : Bool → ℕ → R → System R E → System R E
  unfolding at_thread_exit
  set_value_at_thread_exit green i v s = at_thread_exit green (value (captured i s) v) s

  -- The one for a value that is moved
  unfoldable pub set_moved_value_at_thread_exit : Bool → ℕ → R → System R E → System R E
  unfolding at_thread_exit
  set_moved_value_at_thread_exit green i v s =
      at_thread_exit green (moved_value (captured i s) v) (record s { objects = suc s.objects })

  unfoldable pub set_exception_at_thread_exit : Bool → ℕ → Exn E → System R E → System R E
  unfolding at_thread_exit
  set_exception_at_thread_exit green i e s = at_thread_exit green (exception (captured i s) e) s

  -- `~promise()` of promise `i`
  unfoldable pub destroy : ℕ → System R E → System R E
  unfolding Promise.destroy
  destroy i s = record s { channel = update s.channel i (Promise.destroy (s.channel i)) }

  -- `set_value` and `set_exception` of shared_state throw only if it is ready.
  abbrev stored : ℕ → Outcome R E → System R E → System R E
  stored i o s = record s {
    channel = update s.channel i (record (s.channel i) { shared = o.state });
  }

  abbrev ended : Outcome R E → Ended
  ended o = if o.notified then finished else std_terminate

  -- The lambdas; the second deletes its object if `set_value` throws.
  unfoldable pub perform : Cleanup R E → System R E → System R E × Ended
  unfolding SharedState.set_value SharedState.set_exception
  perform (value none v) s = (s, null_pointer)
  perform (value (some i) v) s =
      let o = SharedState.set_value v (s.channel i).shared in (stored i o s, ended o)
  perform (moved_value none v) s = (s, null_pointer)
  perform (moved_value (some i) v) s =
      let o = SharedState.set_value v (s.channel i).shared in
      (record (stored i o s) { objects = if o.notified then s.objects else s.objects - 1 }, ended o)
  perform (exception none e) s = (s, null_pointer)
  perform (exception (some i) e) s =
      let o = SharedState.set_exception e (s.channel i).shared in (stored i o s, ended o)
  perform (call f) s = (record s { called = s.called ++ f ∷ [] }, finished)

  -- `for (std::function<void()> f: temp)`
  unfoldable pub run_cleanups : List (Cleanup R E) → System R E → System R E × Ended
  unfolding perform
  run_cleanups [] s = (s, finished)
  run_cleanups (f ∷ fs) s =
      let rest = run_cleanups fs (perform f s).0 in
      elim (perform f s).1 [
        | finished ↦ rest
        | std_terminate ↦ perform f s
        | null_pointer ↦ perform f s
      ]

  -- The first part of `~cleaner`
  unfoldable pub exit : System R E → System R E × Ended
  unfolding run_cleanups
  exit s = run_cleanups s.cleanup_queue (record s { cleanup_queue = [] })

  -- `set_value` or `set_exception` of promise `i`
  unfoldable pub set_value : ℕ → R → System R E → System R E
  unfolding Promise.set_value
  set_value i v s = record s { channel = update s.channel i (Promise.set_value v (s.channel i)).0 }

  unfoldable pub set_exception : ℕ → Exn E → System R E → System R E
  unfolding Promise.set_exception
  set_exception i e s = record s {
    channel = update s.channel i (Promise.set_exception e (s.channel i)).0;
  }

-- What a thread does with its promises before it ends
pub data Act (R E : Type 0) : Type 0 where
  sets_value_at_exit sets_moved_value_at_exit : (green : Bool) (i : ℕ) → R → Act R E
  sets_exception_at_exit : (green : Bool) (i : ℕ) → Exn E → Act R E
  calls_at_exit : (green : Bool) (f : ℕ) → Act R E
  sets_value : (i : ℕ) → R → Act R E
  sets_exception : (i : ℕ) → Exn E → Act R E
  destroys : (i : ℕ) → Act R E

module _ {R E : Type 0} where
  unfoldable pub act : Act R E → System R E → System R E
  unfolding set_value_at_thread_exit set_moved_value_at_thread_exit set_exception_at_thread_exit
      at_thread_exit set_value set_exception destroy
  act (sets_value_at_exit g i v) s = set_value_at_thread_exit g i v s
  act (sets_moved_value_at_exit g i v) s = set_moved_value_at_thread_exit g i v s
  act (sets_exception_at_exit g i e) s = set_exception_at_thread_exit g i e s
  act (calls_at_exit g f) s = at_thread_exit g (call f) s
  act (sets_value i v) s = set_value i v s
  act (sets_exception i e) s = set_exception i e s
  act (destroys i) s = destroy i s

  unfoldable pub run : List (Act R E) → System R E → System R E
  unfolding act
  run [] s = s
  run (a ∷ acts) s = run acts (act a s)
