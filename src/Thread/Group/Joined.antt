-- ===== src/Thread/Group/Joined.antt =====
-- What `join_all` has done when it returns.
use boost_green_thread.Base.{
  ℕ, true, Bool-cases, Option, none, some, List, [], ◌∷◌, contains, ◌≡◌, ◌≢◌, ◌⊎◌, inl, inr, refl,
  sym, ap, ◌∙◌, subst, ◌==◌, arith,
}
use boost_green_thread.Thread.Object.{ThreadObject, stopped, is_stopped}
use boost_green_thread.Thread.Joining
use boost_green_thread.Thread.Joining.{
  System, Pc, working, joining, Step, Reach, Inv, Reach-Inv, call_join, stop, run_on, joins, stops,
  wakes,
}
use boost_green_thread.Thread.Handle.{joinable, join_test}
use boost_green_thread.Thread.Object
use boost_green_thread.Thread.Group
use boost_green_thread.Thread.Group.{Loop, Turn, From, turn, turns, resumes, others, here, later}

-- A thread that has stopped stays so.
Step-stopped :
    {s t : System} (f : ℕ)
    → Inv s
    → Step s t
    → is_stopped (s.thread f).state ≡ true
    → is_stopped (t.thread f).state ≡ true
unfolding call_join stop run_on
Step-stopped f v (joins i g e) h = ground (arith)
Step-stopped f v (stops g x e) h = ground (arith, v.place g)
Step-stopped f v (wakes i e) h = h

module _ (sched : ℕ → ℕ) (impl : ℕ → Option ℕ) (c : ℕ) where
  turn-cases :
      (h : Option ℕ) (s : System)
      → (turn sched c h s ≡ s) ⊎ ((f : ℕ) × (h ≡ some f) × (turn sched c h s ≡ call_join s c f))
  unfolding turn Group.join joinable join_test
  turn-cases none s = inl refl
  turn-cases (some f) s = elim (Bool-cases (c == f)) [
    | inl e ↦ inl (ground arith)
    | inr e ↦ elim (Bool-cases (sched f == sched c)) [
      | inl q ↦ inr (f, refl, ground arith)
      | inr q ↦ inl (ground arith)
    ]
  ]

  turn-joins :
      (f : ℕ) (s : System)
      → joinable sched (some c) (some f) ≡ some true
      → turn sched c (some f) s ≡ call_join s c f
  unfolding turn Group.join joinable join_test
  turn-joins f s e = ground arith

  turn-Reach : (h : Option ℕ) {s : System} → Reach s → s.pc c ≡ working → Reach (turn sched c h s)
  turn-Reach h {s} r e = elim (turn-cases h s) [
    | inl q ↦ subst Reach (sym q) r
    | inr (f, _, q) ↦ subst Reach (sym q) (Joining.later r (joins c f e))
  ]

  -- What `call_join` leaves: thread `f` has stopped or `c` waits for it.
  call_join-waits :
      (f : ℕ) (s : System)
      → c ≢ f
      → (is_stopped ((call_join s c f).thread f).state ≡ true)
        ⊎ ((call_join s c f).pc c ≡ joining f)
  unfolding call_join Object.join
  call_join-waits f s e = ground arith

  record Begun (ts : List ℕ) (l : Loop) : Type 0 where
    reached : Reach l.system
    settled :
        (a f : ℕ)
        → contains ts a ≡ true
        → impl a ≡ some f
        → joinable sched (some c) (some f) ≡ some true
        → (contains l.todo a ≡ true)
          ⊎ (is_stopped (l.system.thread f).state ≡ true)
          ⊎ (l.system.pc c ≡ joining f)

  turns-Begun :
      (ts : List ℕ) (l : Loop) (a : ℕ) (rest : List ℕ)
      → Begun ts l
      → l.todo ≡ a ∷ rest
      → l.system.pc c ≡ working
      → Begun ts (record { system = turn sched c (impl a) l.system; todo = rest })
  unfolding contains joinable
  turns-Begun ts l a rest b e w = record {
    reached = turn-Reach (impl a) b.reached w;
    settled = λ k f k_in k_f ok.
        let next = turn sched c (impl a) l.system in
        elim (Bool-cases (k == a)) [
          | inl q ↦
              let same : impl a ≡ some f = ground (arith, k_f) in
              let step : next ≡ call_join l.system c f =
                ap (λ h. turn sched c h l.system) same ∙ turn-joins f l.system ok in
              let waits = call_join-waits f l.system (ground (arith, ok)) in
              inr (
                subst (λ s. (is_stopped (s.thread f).state ≡ true) ⊎ (s.pc c ≡ joining f))
                  (sym step) waits)
          | inr q ↦ elim (turn-cases (impl a) l.system) [
            | inl z ↦ ground (arith, b.settled k f k_in k_f ok, z)
            | inr (g, _, z) ↦
                let kept = Step-stopped f (Reach-Inv b.reached) (joins c g w) in
                ground (arith, b.settled k f k_in k_f ok, z, kept)
          ]
        ];
  }

  Turn-Begun : (ts : List ℕ) {l m : Loop} → Turn sched impl c l m → Begun ts l → Begun ts m
  Turn-Begun ts {l} (turns a rest e w) b = turns-Begun ts l a rest b e w
  Turn-Begun ts {l} (resumes w) b = record {
    reached = Joining.later b.reached (wakes c w);
    settled = λ a f a_in a_f ok.
        let kept = Step-stopped f (Reach-Inv b.reached) (wakes c w) in
        let here = (Reach-Inv b.reached).place c in
        ground (arith, b.settled a f a_in a_f ok, kept, here, w);
  }
  Turn-Begun ts {l} (others st same) b = record {
    reached = Joining.later b.reached st;
    settled = λ a f a_in a_f ok.
        let kept = Step-stopped f (Reach-Inv b.reached) st in
        ground (arith, b.settled a f a_in a_f ok, kept, same);
  }

  From-Begun :
      (ts : List ℕ) {s : System} {m : Loop}
      → Reach s
      → From sched impl c (record { system = s; todo = ts }) m
      → Begun ts m
  From-Begun ts r here = record { reached = r; settled = λ a f a_in a_f ok. inl a_in }
  From-Begun ts r (later q st) = Turn-Begun ts st (From-Begun ts r q)

  -- When `join_all` has come to the end of its list and its caller runs on, every thread that a
  -- variable of the group represents, and that the caller may join, has stopped: one of the caller's
  -- scheduler that is not the caller. Meanwhile threads join, stop and run on in any order, and a
  -- variable may be in the group more than once.
  pub join_all_waits :
      (ts : List ℕ) {s : System} {m : Loop} (a f : ℕ)
      → Reach s
      → From sched impl c (record { system = s; todo = ts }) m
      → m.todo ≡ []
      → m.system.pc c ≡ working
      → contains ts a ≡ true
      → impl a ≡ some f
      → joinable sched (some c) (some f) ≡ some true
      → (m.system.thread f).state ≡ stopped
  unfolding contains
  join_all_waits ts a f r from e w a_in a_f ok =
      ground (arith, (From-Begun ts r from).settled a f a_in a_f ok)
