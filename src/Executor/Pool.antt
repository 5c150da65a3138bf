-- ===== src/Executor/Pool.antt =====
-- The queue, the tasks that have been submitted, and the threads of the pool, interleaved in any
-- order. A call on the queue, from the stretch in which it ends, is one step; so is a task.
use boost_green_thread.Base.{
  ℕ, suc, ◌-◌, ◌<◌, Bool, true, false, List, [], ◌∷◌, ◌≡◌, ◌≢◌, ◌⊎◌, update, length, size_mod,
  if◌then◌else◌,
}
use boost_green_thread.Queue.State.{
  Queue, Verdict, delivers, answers, done, leaves, waits, close, Notice, one, all, empty_cv,
  full_cv,
}
use boost_green_thread.Queue.Push.{push}
use boost_green_thread.Queue.Pop.{pop}
use boost_green_thread.Future.Task.{Task, Ending}
use boost_green_thread.Future.Task
use boost_green_thread.Future.SharedState.{fresh}

-- A thread of the pool: at the increment of its iterator, asleep there on `empty_cv_`, with the task
-- `k`, or out of its loop.
pub data Worker : Type 0 where
  popping waiting : Worker
  running : (k : ℕ) → Worker
  ended : Worker

-- Tasks go by the order in which they are submitted; `accepted` are those that the queue took,
-- and `taker` is the thread that has taken a task from it.
pub record Pool (R E : Type 0) : Type 0 where
  pub queue : Queue ℕ
  pub submitted : ℕ
  pub accepted : ℕ → Bool
  pub tasks : ℕ → Task R E
  pub workers : ℕ → Worker
  pub taker : ℕ → ℕ

-- `popped_=queue_->pop(value_); if(!popped_) queue_=0;`
abbrev pub next : Verdict ℕ → Worker
next (delivers k) = running k
next (answers _) = ended
next (waits _) = waiting
next (leaves _) = popping
next done = popping

abbrev pub wake : Worker → Worker
wake waiting = popping
wake x = x

-- What the notifications do; `w` is the thread that `notify_one` reaches. Nobody waits on `full_cv_`.
unfoldable pub told : ℕ → List Notice → (ℕ → Worker) → ℕ → Worker
told w [] ws = ws
told w (one empty_cv ∷ ns) ws = told w ns (update ws w (wake (ws w)))
told w (all empty_cv ∷ ns) ws = told w ns (λ i. wake (ws i))
told w (one full_cv ∷ ns) ws = told w ns ws
told w (all full_cv ∷ ns) ws = told w ns ws

abbrev pub taken : Verdict ℕ → Bool
taken (answers b) = b
taken _ = false

abbrev pub takers : (ℕ → ℕ) → ℕ → Verdict ℕ → ℕ → ℕ
takers f w (delivers k) = update f k w
takers f w _ = f

module _ {R E : Type 0} where
  -- A task whose future has been taken, before it runs.
  abbrev pub waiting_task : Task R E
  waiting_task = record { obtained = true; attached = true; shared = fresh }

  -- `queue_` has the capacity `size_type(-1)`.
  abbrev pub init : Pool R E
  init = record {
    queue = record { opened = true; capacity = size_mod - 1; items = [] };
    submitted = 0;
    accepted = λ _. false;
    tasks = λ _. Task.make;
    workers = λ _. popping;
    taker = λ _. 0;
  }

  -- `operator()`: it takes the task's future and pushes the task. If the queue is closed, nothing
  -- keeps the task, and its destructor runs.
  unfoldable pub submit : ℕ → Pool R E → Pool R E
  unfolding push told Task.get_future Task.destroy
  submit w s =
      let k = s.submitted in
      let t = (Task.get_future Task.make).0 in
      let o = push k s.queue in
      let refused : Task R E = record t { attached = false; shared = Task.destroy t } in
      record s {
        queue = o.queue;
        submitted = suc k;
        accepted = update s.accepted k (taken o.verdict);
        tasks = update s.tasks k (if taken o.verdict then t else refused);
        workers = told w o.notices s.workers;
      }

  -- `iterator::operator++` in the loop of thread `w`
  unfoldable pub advance : ℕ → Pool R E → Pool R E
  unfolding pop
  advance w s =
      let o = pop s.queue in
      record s {
        queue = o.queue;
        workers = update s.workers w (next o.verdict);
        taker = takers s.taker w o.verdict;
      }

  -- `i();`, where `a` is how the function of task `k` ends
  unfoldable pub run_task : Ending R E → ℕ → ℕ → Pool R E → Pool R E
  unfolding Task.call
  run_task a w k s = record s {
    tasks = update s.tasks k (Task.call a (s.tasks k)).0;
    workers = update s.workers w popping;
  }

  -- `queue_.close();` in the destructor
  unfoldable pub shut : Pool R E → Pool R E
  unfolding close told
  shut s =
      let o = close s.queue in record s { queue = o.queue; workers = told 0 o.notices s.workers }

  -- `n` threads; `endings k` is how the function of task `k` ends. Fewer than 2 ^ 64 - 1 tasks wait.
  -- `notify_one` reaches a thread that waits, if there is one.
  pub data Step (n : ℕ) (endings : ℕ → Ending R E) (s : Pool R E) : Pool R E → Type 0 where
    submits :
        (w : ℕ)
        → length s.queue.items < size_mod - 1
        → ((w < n) × (s.workers w ≡ waiting)) ⊎ ((v : ℕ) → s.workers v ≢ waiting)
        → Step n endings s (submit w s)
    advances : (w : ℕ) → w < n → s.workers w ≡ popping → Step n endings s (advance w s)
    runs :
        (w k : ℕ) → w < n → s.workers w ≡ running k → Step n endings s (run_task (endings k) w k s)
    shuts : Step n endings s (shut s)

  pub data Reach (n : ℕ) (endings : ℕ → Ending R E) : Pool R E → Type 0 where
    start : Reach n endings init
    later : {s t : Pool R E} → Reach n endings s → Step n endings s t → Reach n endings t
