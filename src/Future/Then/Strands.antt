-- ===== src/Future/Then/Strands.antt =====
-- What a function that throws does to the waiters behind it.
use boost_green_thread.Base.{
  ℕ, ◌<◌, true, false, Option-cases, none, List, append-nil, refl, [], ◌∷◌, ◌++◌, contains, ◌≡◌,
  ◌≢◌, ◌⊎◌, inl, inr, ◌∙◌, arith,
}
use boost_green_thread.Future.SharedState.{SharedState, Verdict, waits, fresh}
use boost_green_thread.Future.SharedState
use boost_green_thread.Future.Task.{Ending, Ending-cases, threw}
use boost_green_thread.Future.Waiting.Settle.{Settle, settle, value, exception, destroyed}
use boost_green_thread.Future.Then.{
  System, invoke, provide, turn, attach, copy, drop, attaches, provides, turns, copies, drops, From,
  here, later, result, source,
}

middle : (before : List ℕ) (i : ℕ) (after : List ℕ) → before ++ i ∷ after ≢ []
middle [] i after = ground arith
middle (b ∷ bs) i after = ground arith

module _ {R V E : Type 0} (fn : ℕ → Verdict R E → Ending V E) where
  invoke-others :
      (i k : ℕ) (s : System R V E)
      → i ≢ k
      → ((invoke fn i s).system.results k ≡ s.results k)
        × ((invoke fn i s).system.src ≡ s.src)
        × ((invoke fn i s).system.made ≡ s.made)
  unfolding invoke
  invoke-others i k s h = elim (Ending-cases (fn i (source s))) [
    | inl (v, q) ↦ ground (arith, q)
    | inr (e, q) ↦ ground (arith, q)
  ]

  invoke-throws :
      (i : ℕ) (s : System R V E)
      → ((x : Verdict R E) → (e : E) × (fn i x ≡ threw e))
      → (invoke fn i s).thrown ≢ none
  unfolding invoke
  invoke-throws i s h = let (e, q) = h (source s) in ground (arith, q)

  settle_called :
      (c : Settle R E) (s : SharedState R E) → s.ready ≡ false → (settle c s).called ≡ s.ext_waiters
  unfolding SharedState.set_value SharedState.set_exception SharedState.owner_destroyed
  settle_called (value v) s e = ground (arith, e)
  settle_called (exception x) s e = ground (arith, e)
  settle_called destroyed s e = ground (arith, e)

  -- The loop has not got past `i`, or has ended with an exception.
  abbrev Short : ℕ → List ℕ → ℕ → System R V E → Type 0
  Short i after k s =
      ((before : List ℕ) × (s.running ≡ before ++ i ∷ after) × (contains before k ≡ false))
      ⊎ ((s.running ≡ []) × (s.thrown ≢ none))

  record Stuck (i : ℕ) (after : List ℕ) (k : ℕ) (s : System R V E) : Type 0 where
    made : k < s.made
    over : s.src.ready ≡ true
    open_ : (s.results k).shared.ready ≡ false
    short : Short i after k s

  module _ (i : ℕ) (after : List ℕ) (k : ℕ)
      (throws : (x : Verdict R E) → (e : E) × (fn i x ≡ threw e)) (apart : i ≢ k) where
    attach-Stuck : (s : System R V E) → Stuck i after k s → Stuck i after k (attach fn s).system
    unfolding attach invoke
    attach-Stuck s w = elim (Ending-cases (fn s.made (source s))) [
      | inl (v, q) ↦ record {
        made = ground (arith, w.made, w.over, q);
        over = ground (arith, w.over, q);
        open_ = ground (arith, w.made, w.over, w.open_, q);
        short = ground (arith, w.short, w.over, q);
      }
      | inr (e, q) ↦ record {
        made = ground (arith, w.made, w.over, q);
        over = ground (arith, w.over, q);
        open_ = ground (arith, w.made, w.over, w.open_, q);
        short = ground (arith, w.short, w.over, q);
      }
    ]

    provide-Stuck :
        (c : Settle R E) (s : System R V E) → Stuck i after k s → Stuck i after k (provide c s)
    unfolding provide SharedState.set_value SharedState.set_exception SharedState.owner_destroyed
    provide-Stuck c s w = record {
      made = ground (arith, w.made, w.over);
      over = ground (arith, w.over);
      open_ = ground (arith, w.over, w.open_);
      short = ground (arith, w.over, w.short, append-nil s.running);
    }

    -- The waiter `b` is the next, and it is not `k`.
    turn-Stuck :
        (s : System R V E) (b : ℕ) (bs : List ℕ)
        → s.running ≡ b ∷ bs
        → b ≢ k
        → ((invoke fn b s).thrown ≡ none
            → (before : List ℕ) × (bs ≡ before ++ i ∷ after) × (contains before k ≡ false))
        → Stuck i after k s
        → Stuck i after k (turn fn s)
    unfolding turn
    turn-Stuck s b bs q d next w = elim (Option-cases (invoke fn b s).thrown) [
      | inl e ↦
          let more = next e in
          record {
            made = ground (arith, w.made, q, e, invoke-others b k s d);
            over = ground (arith, w.over, q, e, invoke-others b k s d);
            open_ = ground (arith, w.open_, q, e, invoke-others b k s d);
            short = inl (more.0, ground (arith, more, q, e), more.2);
          }
      | inr (x, e) ↦ record {
        made = ground (arith, w.made, q, e, invoke-others b k s d);
        over = ground (arith, w.over, q, e, invoke-others b k s d);
        open_ = ground (arith, w.open_, q, e, invoke-others b k s d);
        short = inr (ground (arith, q, e));
      }
    ]

    turns-Stuck :
        (s : System R V E) → s.running ≢ [] → Stuck i after k s → Stuck i after k (turn fn s)
    unfolding contains
    turns-Stuck s some_left w = elim w.short [
      | inr (q, _) ↦ absurd (some_left q)
      | inl ([], q, out) ↦ turn-Stuck s i after q apart (λ e. absurd (invoke-throws i s throws e)) w
      | inl (b ∷ bs, q, out) ↦
          turn-Stuck s b (bs ++ i ∷ after) q (ground arith) (λ e. (bs, refl, ground arith)) w
    ]

    From-Stuck : {s t : System R V E} → From fn s t → Stuck i after k s → Stuck i after k t
    unfolding copy drop
    From-Stuck here w = w
    From-Stuck (later {t} r (attaches h l)) w = attach-Stuck t (From-Stuck r w)
    From-Stuck (later {t} r (provides c h)) w = provide-Stuck c t (From-Stuck r w)
    From-Stuck (later {t} r (turns h)) w = turns-Stuck t h (From-Stuck r w)
    From-Stuck (later r (copies h l)) w =
        let v = From-Stuck r w in
        record { made = v.made; over = v.over; open_ = v.open_; short = v.short }
    From-Stuck (later r (drops h l)) w =
        let v = From-Stuck r w in
        record { made = v.made; over = v.over; open_ = v.open_; short = v.short }

  -- A function that throws strands the waiters behind it: if waiter `i` of a source that is not ready
  -- and has no loop over its waiters always throws, then, whatever happens once somebody has settled
  -- the source, the source is ready, the future of another waiter `k`, listed nowhere before `i`, has
  -- no result, and when the loop is over, an exception has come out of it.
  pub then_strands :
      (s : System R V E) {t : System R V E} (c : Settle R E) (before after : List ℕ) (i k : ℕ)
      → s.src.ready ≡ false
      → s.running ≡ []
      → s.src.ext_waiters ≡ before ++ i ∷ after
      → ((x : Verdict R E) → (e : E) × (fn i x ≡ threw e))
      → contains before k ≡ false
      → i ≢ k
      → k < s.made
      → (s.results k).shared.ready ≡ false
      → From fn (provide c s) t
      → (t.src.ready ≡ true)
        × (result t k ≡ waits)
        × ((t.running ≢ []) ⊎ ((t.running ≡ []) × (t.thrown ≢ none)))
  unfolding provide SharedState.set_value SharedState.set_exception SharedState.owner_destroyed
      SharedState.get
  then_strands s {t} c before after i k unready quiet listed throws out d m pending from =
      let called : (settle c s.src).called ≡ before ++ i ∷ after =
        settle_called c s.src unready ∙ listed in
      let w = From-Stuck i after k throws d from (record {
        made = m;
        over = ground (arith, unready);
        open_ = pending;
        short = inl (before, ground (arith, quiet, called), out);
      }) in
      (
        w.over,
        ground (arith, w.open_),
        elim w.short [
          | inl (before, q, _) ↦ inl (ground (arith, q, middle before i after))
          | inr over ↦ inr over
        ],
      )
