-- ===== src/Future/Then/Passes.antt =====
-- What the futures that `then` returns give, when no function throws.
use boost_green_thread.Base.{
  ℕ, ◌<◌, true, false, Bool-cases, none, some, List, [], ◌∷◌, update, ◌==◌, contains,
  contains-append_one, append_one-Distinct, Distinct, List-cases, ◌≢◌, append-nil, suc, size_inc,
  size_dec, ◌-◌, if◌then◌else◌, Bool, ◌≡◌, ◌⊎◌, inl, inr, refl, sym, subst, arith,
}
use boost_green_thread.Future.SharedState.{SharedState, Verdict, gives, waits, fresh}
use boost_green_thread.Future.SharedState
use boost_green_thread.Future.Promise.{Channel}
use boost_green_thread.Future.Promise
use boost_green_thread.Future.Task.{Ending, returned}
use boost_green_thread.Future.Waiting.Settle.{Settle}
use boost_green_thread.Future.Then.{
  System, invoke, provide, turn, attach, copy, drop, Step, attaches, provides, turns, copies, drops,
  init, From, here, later, result, source,
}

module _ {R V E : Type 0} (fn : ℕ → Verdict R E → Ending V E) where
  abbrev Open : System R V E → ℕ → Type 0
  Open s k =
      ((s.results k).attached ≡ true)
      × ((s.results k).shared.ready ≡ false)
      × ((s.results k).shared.except ≡ none)

  abbrev Given : System R V E → ℕ → V → Type 0
  Given s k v =
      ((s.results k).shared.ready ≡ true)
      × ((s.results k).shared.value ≡ some v)
      × ((s.results k).shared.except ≡ none)

  module _ (g : ℕ → Verdict R E → V)
      (total : (i : ℕ) (x : Verdict R E) → fn i x ≡ returned (g i x)) where
    abbrev set : ℕ → System R V E → System R V E
    set i s = record s {
      results = update s.results i (Promise.set_value (g i (source s)) (s.results i)).0;
    }

    invoke-set :
        (i : ℕ) (s : System R V E) → invoke fn i s ≡ record { system = set i s; thrown = none }
    unfolding invoke
    invoke-set i s = ground (arith, total i (source s))

    turn-set :
        (s : System R V E) (i : ℕ) (is : List ℕ)
        → s.running ≡ i ∷ is
        → turn fn s ≡ record (set i s) { running = is }
    unfolding turn
    turn-set s i is q = ground (arith, q, invoke-set i s)

    set-Given : (i : ℕ) (s : System R V E) (k : ℕ) (v : V) → Given s k v → Given (set i s) k v
    unfolding Promise.set_value SharedState.set_value
    set-Given i s k v w = ground (arith, w)

    set-gives : (k : ℕ) (s : System R V E) → Open s k → Given (set k s) k (g k (source s))
    unfolding Promise.set_value SharedState.set_value
    set-gives k s w = ground (arith, w)

    record Inv (s : System R V E) : Type 0 where
      opened :
          (k : ℕ) → k < s.made → (s.src.ready ≡ false) ⊎ (contains s.running k ≡ true) → Open s k
      listed : (k : ℕ) → k < s.made → s.src.ready ≡ false → contains s.src.ext_waiters k ≡ true
      made : (k : ℕ) → contains s.src.ext_waiters k ≡ true → k < s.made
      made_running : (k : ℕ) → contains s.running k ≡ true → k < s.made
      given :
          (k : ℕ)
          → k < s.made
          → s.src.ready ≡ true
          → contains s.running k ≡ false
          → Given s k (g k (source s))
      once : Distinct s.src.ext_waiters
      once_running : Distinct s.running
      quiet : s.src.ready ≡ false → s.running ≡ []

    provide-Inv : (c : Settle R E) (s : System R V E) → Inv s → Inv (provide c s)
    unfolding provide SharedState.set_value SharedState.set_exception SharedState.owner_destroyed
        contains SharedState.get
    provide-Inv c s v =
        let same = append-nil s.running in
        record {
          opened = λ k h e. ground (arith, v.opened k, v.made_running k, v.quiet, same);
          listed = λ k h e. ground (arith, v.listed k);
          made = λ k e. ground (arith, v.made k);
          made_running = λ k e. ground (arith, v.made k, v.made_running k, v.quiet, same);
          given = λ k h e f. ground (arith, v.given k, v.listed k, v.quiet, same);
          once = ground (arith, v.once);
          once_running = ground (arith, v.once, v.once_running, v.quiet, same);
          quiet = λ e. ground (arith, v.quiet, same);
        }

    -- The next waiter gives its value, and the others are as before.
    turned-Inv :
        (s : System R V E) (i : ℕ) (is : List ℕ)
        → s.running ≡ i ∷ is
        → Inv s
        → Inv (record (set i s) { running = is })
    unfolding contains Promise.set_value SharedState.set_value
    turned-Inv s i is q v = record {
      opened = λ k h e. ground (arith, v.opened k, v.once_running, v.quiet);
      listed = λ k h e. ground (arith, v.listed k);
      made = λ k e. ground (arith, v.made k);
      made_running = λ k e. ground (arith, v.made_running k);
      given = λ k h e f. ground (arith, v.given k, v.opened i, v.made_running i, set-gives i s);
      once = v.once;
      once_running = ground (arith, v.once_running);
      quiet = λ e. ground (arith, v.quiet);
    }

    turn-Inv : (s : System R V E) → s.running ≢ [] → Inv s → Inv (turn fn s)
    turn-Inv s some_left v = elim (List-cases s.running) [
      | inl q ↦ absurd (some_left q)
      | inr (i, is, q) ↦ subst Inv (sym (turn-set s i is q)) (turned-Inv s i is q v)
    ]

    -- The waiter of a new call is the last on the list, or has run at once.
    attach-Inv : (s : System R V E) → Inv s → Inv (attach fn s).system
    unfolding attach contains SharedState.get Promise.set_value SharedState.set_value
    attach-Inv s v =
        let called = total s.made (source s) in
        let appended = contains-append_one s.src.ext_waiters s.made in
        let distinct = append_one-Distinct s.src.ext_waiters s.made in
        record {
          opened = λ k h e. ground (arith, v.opened k, v.made_running k, v.quiet, called);
          listed = λ k h e. ground (arith, v.listed k, called, appended k);
          made = λ k e. ground (arith, v.made k, called, appended k);
          made_running = λ k e. ground (arith, v.made_running k, called);
          given = λ k h e f. ground (arith, v.given k, called);
          once = ground (arith, v.once, v.made s.made, called, distinct);
          once_running = ground (arith, v.once_running, called);
          quiet = λ e. ground (arith, v.quiet, called);
        }

    same-Inv :
        (s : System R V E) (u h : ℕ) (f : Bool)
        → Inv s
        → Inv (record s { use_count = u; handles = h; freed = f })
    same-Inv s u h f v = record {
      opened = v.opened;
      listed = v.listed;
      made = v.made;
      made_running = v.made_running;
      given = v.given;
      once = v.once;
      once_running = v.once_running;
      quiet = v.quiet;
    }

    Step-Inv : {s t : System R V E} → Step fn s t → Inv s → Inv t
    unfolding copy drop
    Step-Inv {s} (attaches h l) v = attach-Inv s v
    Step-Inv {s} (provides c h) v = provide-Inv c s v
    Step-Inv {s} (turns h) v = turn-Inv s h v
    Step-Inv {s} (copies h l) v = same-Inv s (size_inc s.use_count) (suc s.handles) s.freed v
    Step-Inv {s} (drops h l) v =
        same-Inv s (size_dec s.use_count) (s.handles - 1)
          (if size_dec s.use_count == 0 then true else s.freed) v

    From-Inv : {s : System R V E} → From fn init s → Inv s
    unfolding contains
    From-Inv here = record {
      opened = λ k h. absurd (omega arith);
      listed = λ k h. absurd (omega arith);
      made = λ k e. ground arith;
      made_running = λ k e. ground arith;
      given = λ k h. absurd (omega arith);
      once = tt;
      once_running = tt;
      quiet = λ e. refl;
    }
    From-Inv (later r st) = Step-Inv st (From-Inv r)

    -- A chain of futures: while no function throws, the future that `then` returned for the call `k`
    -- gives what its function makes of the result of the source, value or exception, once the source is
    -- ready and the call that has made it ready is past the waiter of `k`, and it waits before.
    -- Between two waiters, `then` may be called again, and pointers to the source may come and go.
    pub then_passes :
        {s : System R V E} (k : ℕ)
        → From fn init s
        → k < s.made
        → ((s.src.ready ≡ true)
            × (contains s.running k ≡ false)
            × (result s k ≡ gives (g k (source s))))
          ⊎ (((s.src.ready ≡ false) ⊎ (contains s.running k ≡ true)) × (result s k ≡ waits))
    unfolding SharedState.get
    then_passes {s} k r h =
        let v = From-Inv r in
        elim (Bool-cases s.src.ready) [
          | inr e ↦ inr (inl e, ground (arith, v.opened k h (inl e)))
          | inl e ↦ elim (Bool-cases (contains s.running k)) [
            | inl c ↦ inr (inr c, ground (arith, v.opened k h (inr c)))
            | inr c ↦ inl (e, c, ground (arith, v.given k h e c))
          ]
        ]
