-- ===== src/Future/Then/Leaks.antt =====
-- The pointer from a waiter to the source keeps the source, and with it the waiter, for ever.
use boost_green_thread.Base.{
  ℕ, ◌+◌, ◌<◌, ◌≤◌, true, false, List-cases, Option-cases, [], ◌∷◌, length, length-append, ◌≡◌, inl,
  inr, size_mod, arith,
}
use boost_green_thread.Future.SharedState.{SharedState, Verdict, fresh}
use boost_green_thread.Future.SharedState
use boost_green_thread.Future.Task.{Ending, Ending-cases}
use boost_green_thread.Future.Waiting.Settle.{Settle, settle, value, exception, destroyed}
use boost_green_thread.Future.Then.{
  System, invoke, provide, turn, attach, copy, drop, Step, attaches, provides, turns, copies, drops,
  init, From, here, later, source,
}

module _ {R V E : Type 0} (fn : ℕ → Verdict R E → Ending V E) where
  -- What of a system the waiters' functions leave alone.
  abbrev Same : System R V E → System R V E → Type 0
  Same s t =
      (t.src ≡ s.src) × (t.use_count ≡ s.use_count) × (t.handles ≡ s.handles) × (t.freed ≡ s.freed)

  invoke-Same : (i : ℕ) (s : System R V E) → Same s (invoke fn i s).system
  unfolding invoke
  invoke-Same i s = elim (Ending-cases (fn i (source s))) [
    | inl (v, q) ↦ ground (arith, q)
    | inr (e, q) ↦ ground (arith, q)
  ]

  turn-Same : (s : System R V E) → Same s (turn fn s)
  unfolding turn
  turn-Same s = elim (List-cases s.running) [
    | inl q ↦ ground (arith, q)
    | inr (i, is, q) ↦ elim (Option-cases (invoke fn i s).thrown) [
      | inl e ↦ ground (arith, q, e, invoke-Same i s)
      | inr (x, e) ↦ ground (arith, q, e, invoke-Same i s)
    ]
  ]

  record Inv (s : System R V E) : Type 0 where
    counted : s.use_count ≡ s.handles + length s.src.ext_waiters
    fits : s.use_count < size_mod
    kept : s.freed ≡ true → (s.handles ≡ 0) × (length s.src.ext_waiters ≡ 0)

  settle-waiters :
      (c : Settle R E) (s : SharedState R E) → (settle c s).state.ext_waiters ≡ s.ext_waiters
  unfolding SharedState.set_value SharedState.set_exception SharedState.owner_destroyed
  settle-waiters (value v) s = ground arith
  settle-waiters (exception x) s = ground arith
  settle-waiters destroyed s = ground arith

  provide-Inv : (c : Settle R E) (s : System R V E) → Inv s → Inv (provide c s)
  unfolding provide
  provide-Inv c s v = record {
    counted = ground (arith, v.counted, settle-waiters c s.src);
    fits = ground (arith, v.fits);
    kept = λ e. ground (arith, v.kept, settle-waiters c s.src);
  }

  turn-Inv : (s : System R V E) → Inv s → Inv (turn fn s)
  turn-Inv s v = record {
    counted = ground (arith, v.counted, turn-Same s);
    fits = ground (arith, v.fits, turn-Same s);
    kept = λ e. ground (arith, v.kept, turn-Same s);
  }

  attach-Inv :
      (s : System R V E)
      → 0 < s.handles
      → s.use_count + 1 < size_mod
      → Inv s
      → Inv (attach fn s).system
  unfolding attach invoke
  attach-Inv s h l v =
      let longer = length-append s.src.ext_waiters (s.made ∷ []) in
      elim (Ending-cases (fn s.made (source s))) [
        | inl (x, q) ↦ record {
          counted = ground (arith, v.counted, longer, q);
          fits = ground (arith, v.fits, q);
          kept = λ e. ground (arith, v.kept, q);
        }
        | inr (x, q) ↦ record {
          counted = ground (arith, v.counted, longer, q);
          fits = ground (arith, v.fits, q);
          kept = λ e. ground (arith, v.kept, q);
        }
      ]

  Step-Inv : {s t : System R V E} → Step fn s t → Inv s → Inv t
  unfolding copy drop
  Step-Inv {s} (attaches h l) v = attach-Inv s h l v
  Step-Inv {s} (provides c h) v = provide-Inv c s v
  Step-Inv {s} (turns h) v = turn-Inv s v
  Step-Inv (copies h l) v = record {
    counted = ground (arith, v.counted);
    fits = ground (arith, v.fits);
    kept = λ e. ground (arith, v.kept);
  }
  Step-Inv (drops h k) v = record {
    counted = ground (arith, v.counted, v.fits);
    fits = ground (arith, v.fits);
    kept = λ e. ground (arith, v.kept, v.counted, v.fits);
  }

  From-Inv : {s : System R V E} → From fn init s → Inv s
  From-Inv here = record { counted = omega arith; fits = omega arith; kept = λ e. ground arith }
  From-Inv (later r st) = Step-Inv st (From-Inv r)

  -- The list of waiters only grows.
  Step-longer :
      {s t : System R V E} → Step fn s t → length s.src.ext_waiters ≤ length t.src.ext_waiters
  unfolding attach provide invoke copy drop
  Step-longer {s} (attaches h l) =
      let longer = length-append s.src.ext_waiters (s.made ∷ []) in
      elim (Ending-cases (fn s.made (source s))) [
        | inl (x, q) ↦ ground (arith, longer, q)
        | inr (x, q) ↦ ground (arith, longer, q)
      ]
  Step-longer {s} (provides c h) = ground (arith, settle-waiters c s.src)
  Step-longer {s} (turns h) = ground (arith, turn-Same s)
  Step-longer (copies h l) = omega arith
  Step-longer (drops h k) = omega arith

  From-longer :
      {s t : System R V E} → From fn s t → length s.src.ext_waiters ≤ length t.src.ext_waiters
  From-longer here = omega arith
  From-longer (later r st) = omega (arith, From-longer r, Step-longer st)

  From-append : {s t u : System R V E} → From fn s t → From fn t u → From fn s u
  From-append r here = r
  From-append r (later q st) = later (From-append r q) st

  -- `then` leaks: once it has been called on a source that was not ready, the source, with all its
  -- waiters, is never freed, even when it has been settled and no promise and no future points to it
  -- any more. Fewer than 2 ^ 64 pointers ever lead to it.
  pub then_leaks :
      {s t : System R V E}
      → From fn init s
      → s.src.ready ≡ false
      → 0 < s.handles
      → s.use_count + 1 < size_mod
      → From fn (attach fn s).system t
      → (t.freed ≡ false) × (t.handles < t.use_count)
  unfolding attach
  then_leaks {s} {t} r e h l from =
      let v = From-Inv (From-append (later r (attaches h l)) from) in
      let longer = length-append s.src.ext_waiters (s.made ∷ []) in
      ground (arith, v.counted, v.kept, From-longer from, longer)
