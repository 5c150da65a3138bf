-- ===== src/Executor/Function.antt =====
-- `async_function` (include/boost/green_thread/future/async.hpp): one thread that makes the calls in
-- its queue, each of which carries its promise.
pub mod Stranded
use boost_green_thread.Base.{
  ℕ, suc, ◌-◌, ◌<◌, Bool, true, false, update, contains, List, [], length, if◌then◌else◌, ◌≡◌,
  size_mod,
}
use boost_green_thread.Queue.State.{Queue, Verdict, done, answers, delivers, waits, leaves, close}
use boost_green_thread.Queue.Push.{push}
use boost_green_thread.Queue.Pop.{pop}
use boost_green_thread.Future.Promise.{Channel, make}
use boost_green_thread.Future.Promise
use boost_green_thread.Future.Task.{Ending, returned, threw}

-- The thread at the increment of its iterator, in the call `k`, behind its loop, or ended by an
-- exception that came out of `execute`.
pub data Worker : Type 0 where
  popping : Worker
  running : (k : ℕ) → Worker
  ended died : Worker

-- Calls go by their order; `accepted` are those that the queue took.
pub record Function (R E : Type 0) : Type 0 where
  pub queue : Queue ℕ
  pub submitted : ℕ
  pub accepted : ℕ → Bool
  pub promises : ℕ → Channel R E
  pub worker : Worker

abbrev pub next : Verdict ℕ → Worker
next (delivers k) = running k
next (answers _) = ended
next (waits _) = popping
next (leaves _) = popping
next done = popping

abbrev pub taken : Verdict ℕ → Bool
taken (answers b) = b
taken _ = false

module _ {R E : Type 0} where
  -- A promise whose future has been taken, before its call.
  abbrev pub open_promise : Channel R E
  open_promise = (Promise.get_future make).0

  abbrev pub init : Function R E
  init = record {
    queue = record { opened = true; capacity = size_mod - 1; items = [] };
    submitted = 0;
    accepted = λ _. false;
    promises = λ _. make;
    worker = popping;
  }

  -- `async_call`; an element that the queue does not take is destroyed with its promise.
  unfoldable pub async_call : Function R E → Function R E
  unfolding push Promise.get_future Promise.destroy
  async_call s =
      let k = s.submitted in
      let o = push k s.queue in
      record s {
        queue = o.queue;
        submitted = suc k;
        accepted = update s.accepted k (taken o.verdict);
        promises =
            update s.promises k
              (if taken o.verdict then open_promise else Promise.destroy open_promise);
      }

  -- `iterator::operator++` in the loop of `execute`
  unfoldable pub advance : Function R E → Function R E
  unfolding pop
  advance s = let o = pop s.queue in record s { queue = o.queue; worker = next o.verdict }

  -- `call`, where the function ends so; an exception leaves `execute`, which destroys the element.
  unfoldable pub call : Ending R E → ℕ → Function R E → Function R E
  unfolding Promise.set_value Promise.destroy
  call (returned v) k s = record s {
    promises = update s.promises k (Promise.set_value v (s.promises k)).0;
    worker = popping;
  }
  call (threw e) k s = record s {
    promises = update s.promises k (Promise.destroy (s.promises k));
    worker = died;
  }

  -- `queue_->close();` in the destructor, which then joins the thread
  unfoldable pub shut : Function R E → Function R E
  unfolding close
  shut s = record s { queue = (close s.queue).queue }

  -- `endings k` is how the function ends in call `k`. Fewer than 2 ^ 64 - 1 calls wait.
  pub data Step (endings : ℕ → Ending R E) (s : Function R E) : Function R E → Type 0 where
    submits : length s.queue.items < size_mod - 1 → Step endings s (async_call s)
    advances : s.worker ≡ popping → Step endings s (advance s)
    calls : (k : ℕ) → s.worker ≡ running k → Step endings s (call (endings k) k s)
    shuts : Step endings s (shut s)

  -- What can follow `s`, until the members are destroyed.
  pub data From (endings : ℕ → Ending R E) (s : Function R E) : Function R E → Type 0 where
    here : From endings s s
    later : {t u : Function R E} → From endings s t → Step endings t u → From endings s u
