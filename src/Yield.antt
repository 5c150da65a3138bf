-- ===== src/Yield.antt =====
-- The completion handler of `yield` (include/boost/green_thread/asio/yield.hpp,
-- asio/detail/yield.hpp): a green thread starts asynchronous operations, each with `yield` or
-- `yield[ec]`, and pauses until its handler has run.
pub mod Delivers
mod Examples
use boost_green_thread.Base.{
  ℕ, suc, ◌-◌, ◌<◌, Bool, true, false, not, ◌&&◌, Option, none, some, update, ◌==◌, if◌then◌else◌,
  ◌≡◌,
}
use boost_green_thread.Thread.Object.{ThreadObject, make}
use boost_green_thread.Thread.Interrupt.{pause_throws}

-- Before a call; behind `async_result`, with the operation under way; in `pause`.
pub data Pc : Type 0 where
  outside initiated paused : Pc

-- How `async_result::get` ends. A value that has not been written is none.
pub data Answer (T : Type 0) : Type 0 where
  gives : Option T → Answer T
  throws_system_error : ℕ → Answer T
  throws_interrupted : Answer T

-- What an operation hands to its handler; the error code 0 is success, which is also what the form
-- without an error code stores.
pub record Given (T : Type 0) : Type 0 where
  pub error : ℕ
  pub value : T

-- The members of `async_result` and what they point to: `has_out_ec` is whether `out_ec_` is not
-- null, and `ec` is what `h.ec_` points to, `*out_ec_` or the member `ec_`. `posted` counts the
-- activations of the thread in its strand, and `pending` says whether an operation has its handler
-- still to run. Calls go by their order; `given` and `got` are what they were handed and how they ended.
pub record System (T : Type 0) : Type 0 where
  pub thread : ThreadObject
  pub pc : Pc
  pub has_out_ec : Bool
  pub ec : ℕ
  pub value : Option T
  pub pending : Bool
  pub posted : ℕ
  pub calls : ℕ
  pub mode : ℕ → Bool
  pub given : ℕ → Option (Given T)
  pub got : ℕ → Option (Answer T)

module _ {T : Type 0} where
  abbrev pub init : System T
  init = record {
    thread = make;
    pc = outside;
    has_out_ec = false;
    ec = 0;
    value = none;
    pending = false;
    posted = 0;
    calls = 0;
    mode = λ _. false;
    given = λ _. none;
    got = λ _. none;
  }

  -- The constructors of `yield_handler` and `async_result`, for `yield[ec]` or for `yield`; the operation
  -- starts. `stale` is what `*out_ec_` holds.
  unfoldable pub initiate : Bool → ℕ → System T → System T
  initiate out stale s = record s {
    pc = initiated;
    has_out_ec = out;
    ec = if out then stale else 0;
    value = none;
    pending = true;
    mode = update s.mode s.calls out;
  }

  -- `operator()` of the handler, in a worker thread: `activate` posts to the strand.
  unfoldable pub complete : Given T → System T → System T
  complete g s = record s {
    ec = g.error;
    value = some g.value;
    pending = false;
    posted = suc s.posted;
    given = update s.given s.calls (some g);
  }

  -- `get`, behind its pause
  unfoldable pub get : System T → Answer T
  unfolding pause_throws
  get s =
      if pause_throws s.thread
      then throws_interrupted
      else if not s.has_out_ec && not (s.ec == 0)
      then throws_system_error s.ec
      else gives s.value

  unfoldable pub run_on : System T → System T
  unfolding get
  run_on s = record s {
    pc = outside;
    posted = s.posted - 1;
    calls = suc s.calls;
    got = update s.got s.calls (some (get s));
  }

  -- The strand runs a posted activation only while the thread does not run. `alters` is what others do
  -- to the thread, such as `interrupt`.
  pub data Step (s : System T) : System T → Type 0 where
    initiates : (out : Bool) (stale : ℕ) → s.pc ≡ outside → Step s (initiate out stale s)
    completes : (g : Given T) → s.pending ≡ true → Step s (complete g s)
    pauses : s.pc ≡ initiated → Step s (record s { pc = paused })
    runs_on : s.pc ≡ paused → 0 < s.posted → Step s (run_on s)
    alters : (t : ThreadObject) → Step s (record s { thread = t })

  pub data Reach : System T → Type 0 where
    start : Reach init
    later : {s t : System T} → Reach s → Step s t → Reach t
