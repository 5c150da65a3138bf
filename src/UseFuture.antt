-- ===== src/UseFuture.antt =====
-- `use_future` (include/boost/green_thread/asio/detail/use_future.hpp): the handlers of one operation,
-- which share a promise, and the future that the operation returns.
pub mod Answers
mod Examples
use boost_green_thread.Base.{
  ℕ, zero, suc, ◌-◌, Bool, true, false, Option, none, some, List, [], ◌∷◌, ◌==◌, if◌then◌else◌,
}
use boost_green_thread.Future.SharedState.{SharedState, Exn, thrown, Verdict, fresh}
use boost_green_thread.Future.SharedState
use boost_green_thread.Future.Promise.{Channel, Result, passes, make}
use boost_green_thread.Future.Promise

-- What the promise may be given as an exception: the `system_error` of an error code, or one that comes
-- out of the function.
pub data Failure : Type 0 where
  system_error : (ec : ℕ) → Failure
  promise_already_satisfied : Failure
  other : (e : ℕ) → Failure

-- `*promise_` with its future, the number of handlers that share it, and how many exceptions have come
-- out of a call of a handler or of a thread of `do_handler_invoke`.
pub record Operation (T : Type 0) : Type 0 where
  pub channel : Channel T Failure
  pub handlers : ℕ
  pub escaped : ℕ

module _ {T : Type 0} where
  -- A handler is called and `set_value` or `set_exception` of the promise has ended with `r`.
  abbrev counted : ℕ → Result T Failure → ℕ
  counted n (passes SharedState.done) = n
  counted n r = suc n

  -- `promise_handler(use_future_t)`, then `async_result(h)`, which takes the future
  unfoldable pub start : Operation T
  unfolding Promise.get_future
  start = record { channel = (Promise.get_future make).0; handlers = 1; escaped = 0 }

  -- Handlers are copied and destroyed; the last one destroys the promise.
  unfoldable pub copy : Operation T → Operation T
  copy o = record o { handlers = suc o.handlers }

  unfoldable pub drop : Operation T → Operation T
  unfolding Promise.destroy
  drop o = record o {
    handlers = o.handlers - 1;
    channel = if o.handlers == 1 then Promise.destroy o.channel else o.channel;
  }

  -- `operator()(ec, t)`; that of one argument is for `ec` 0.
  unfoldable pub complete : ℕ → T → Operation T → Operation T × Result T Failure
  unfolding Promise.set_value Promise.set_exception
  complete ec t o =
      let r =
        (if ec == 0
          then Promise.set_value t o.channel
          else Promise.set_exception (thrown (system_error ec)) o.channel) in
      (record o { channel = r.0 }, r.1)

  -- A handler is called by whoever runs the operation.
  unfoldable pub call : ℕ → T → Operation T → Operation T
  unfolding complete
  call ec t o = let r = complete ec t o in record r.0 { escaped = counted o.escaped r.1 }

  -- `do_handler_invoke`: `f` may call a handler, and may throw by itself. An exception that it throws
  -- or lets through goes to the promise.
  abbrev failing : Option (Operation T × Result T Failure) → Option ℕ → Option Failure
  failing none e = elim e [ none ↦ none | some x ↦ some (other x) ]
  failing (some (o, passes SharedState.done)) e = elim e [ none ↦ none | some x ↦ some (other x) ]
  failing (some (o, r)) e = some promise_already_satisfied

  abbrev after : Operation T → Option (Operation T × Result T Failure) → Operation T
  after o none = o
  after o (some (p, r)) = p

  unfoldable pub invoke : Option (ℕ × T) → Option ℕ → Operation T → Operation T
  unfolding complete Promise.set_exception
  invoke c e o =
      let ran : Option (Operation T × Result T Failure) = elim c [
        | none ↦ none
        | some (ec, t) ↦ some (complete ec t o)
      ] in
      let p = after o ran in
      elim (failing ran e) [
        | none ↦ p
        | some x ↦
            let r = Promise.set_exception (thrown x) p.channel in
            record p { channel = r.0; escaped = counted p.escaped r.1 }
      ]

-- What happens to an operation while a handler is left
pub data Event (T : Type 0) : Type 0 where
  copies drops : Event T
  calls : (ec : ℕ) → T → Event T
  invokes : (c : Option (ℕ × T)) → (e : Option ℕ) → Event T

module _ {T : Type 0} where
  unfoldable pub step : Event T → Operation T → Operation T
  unfolding copy drop call invoke
  step copies o = copy o
  step drops o = drop o
  step (calls ec t) o = call ec t o
  step (invokes c e) o = invoke c e o

  unfoldable pub run : List (Event T) → Operation T → Operation T
  unfolding step
  run [] o = o
  run (x ∷ xs) o = if o.handlers == 0 then o else run xs (step x o)
