-- ===== src/Future/Then.antt =====
-- `then` of the future classes (future/promise.hpp): waiters on a source state, each with a function,
-- a promise for its result and a pointer to the source.
pub mod Passes
pub mod Strands
pub mod Leaks
mod Examples
use boost_green_thread.Base.{
  ℕ, suc, ◌+◌, ◌-◌, ◌<◌, Bool, true, false, Option, none, some, List, [], ◌∷◌, ◌++◌, ◌≢◌, ◌⊎◌,
  update, ◌==◌, if◌then◌else◌, size_mod, size_inc, size_dec, ◌≡◌,
}
use boost_green_thread.Future.SharedState.{SharedState, Verdict, fresh}
use boost_green_thread.Future.SharedState
use boost_green_thread.Future.Promise.{Channel, make}
use boost_green_thread.Future.Promise
use boost_green_thread.Future.Task.{Ending, returned, threw}
use boost_green_thread.Future.Waiting.Settle.{Settle, settle}

-- The source with its `use_count_`; `handles` are the promises and futures that point to it. Calls of
-- `then` go by their order, and `results` are the promises `p_` of their waiters. `running` are the
-- waiters that the call which has made the source ready has not run to their end, and `thrown` is the
-- exception that has come out of that call.
pub record System (R V E : Type 0) : Type 0 where
  pub src : SharedState R E
  pub use_count : ℕ  -- size_t
  pub handles : ℕ
  pub freed : Bool
  pub made : ℕ
  pub results : ℕ → Channel V E
  pub running : List ℕ
  pub thrown : Option E

-- The state afterwards, and the exception that comes out.
pub record Ran (R V E : Type 0) : Type 0 where
  pub system : System R V E
  pub thrown : Option E

module _ {R V E : Type 0} where
  abbrev pub init : System R V E
  init = record {
    src = fresh;
    use_count = 1;
    handles = 1;
    freed = false;
    made = 0;
    results = λ _. make;
    running = [];
    thrown = none;
  }

  -- Another variable points to the source, or one no longer does.
  unfoldable pub copy : System R V E → System R V E
  copy s = record s { handles = suc s.handles; use_count = size_inc s.use_count }

  unfoldable pub drop : System R V E → System R V E
  drop s = record s {
    handles = s.handles - 1;
    use_count = size_dec s.use_count;
    freed = if size_dec s.use_count == 0 then true else s.freed;
  }

  -- What a future that `then` has returned gives, and the future of the source.
  abbrev pub result : System R V E → ℕ → Verdict V E
  result s k = (SharedState.get (s.results k).shared).verdict

  abbrev pub source : System R V E → Verdict R E
  source s = (SharedState.get s.src).verdict

  -- `set_value`, `set_exception` or `owner_destroyed` of the source, up to the loop over its waiters
  unfoldable pub provide : Settle R E → System R V E → System R V E
  unfolding SharedState.set_value SharedState.set_exception SharedState.owner_destroyed
  provide c s =
      let o = settle c s.src in record s { src = o.state; running = s.running ++ o.called }

-- `fn i` is how the function of waiter `i` ends, by what `get` of its future gives.
module _ {R V E : Type 0} (fn : ℕ → Verdict R E → Ending V E) where
  -- `invoke`, by `set_promise_value`, which does not catch.
  unfoldable pub invoke : ℕ → System R V E → Ran R V E
  unfolding SharedState.get Promise.set_value
  invoke i s = elim (fn i (SharedState.get s.src).verdict) [
    | returned v ↦ record {
      system = record s { results = update s.results i (Promise.set_value v (s.results i)).0 };
      thrown = none;
    }
    | threw e ↦ record { system = s; thrown = some e }
  ]

  -- The next waiter of `for(auto &w: ext_waiters_)`, for which `mtx_` is free; an exception ends the
  -- loop.
  unfoldable pub turn : System R V E → System R V E
  unfolding invoke
  turn s = elim s.running [
    | [] ↦ s
    | i ∷ is ↦
        let o = invoke i s in
        elim o.thrown [
          | none ↦ record o.system { running = is }
          | some e ↦ record o.system { running = []; thrown = some e }
        ]
  ]

  -- `then`. A waiter that is listed keeps its pointer to the source; one that runs at once gives it up
  -- again, and its promise goes with it if it throws.
  unfoldable pub attach : System R V E → Ran R V E
  unfolding invoke SharedState.add_external_waiter Promise.destroy Promise.get_future
  attach s =
      let i = s.made in
      let taken = (Promise.get_future make).0 in
      let listed : System R V E = record s {
        src = (SharedState.add_external_waiter i s.src).state;
        made = suc i;
        results = update s.results i taken;
      } in
      if s.src.ready
      then elim (invoke i listed).thrown [
        | none ↦ invoke i listed
        | some e ↦ record {
          system = record listed { results = update s.results i (Promise.destroy taken) };
          thrown = some e;
        }
      ]
      else record { system = record listed { use_count = size_inc s.use_count }; thrown = none }

  -- Fewer than 2 ^ 64 - 1 pointers lead to the source. Who runs the loop keeps its pointer.
  pub data Step (s : System R V E) : System R V E → Type 0 where
    attaches : 0 < s.handles → s.use_count + 1 < size_mod → Step s (attach s).system
    provides : (c : Settle R E) → 0 < s.handles → Step s (provide c s)
    turns : s.running ≢ [] → Step s (turn s)
    copies : 0 < s.handles → s.use_count + 1 < size_mod → Step s (copy s)
    drops : 0 < s.handles → (s.running ≡ []) ⊎ (1 < s.handles) → Step s (drop s)

  pub data From (s : System R V E) : System R V E → Type 0 where
    here : From s s
    later : {t u : System R V E} → From s t → Step t u → From s u
