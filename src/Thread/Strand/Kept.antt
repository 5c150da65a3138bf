-- ===== src/Thread/Strand/Kept.antt =====
-- No activation of the threads of a strand is lost, and the current thread is the one that runs.
use boost_green_thread.Base.{
  ℕ, none, some, List, [], ◌∷◌, ◌++◌, append-nil, append_assoc, ◌≡◌, ◌≢◌, ◌⊎◌, ◌∙◌, inl, inr, refl,
  subst, sym, ap, update, arith,
}
use boost_green_thread.Thread.Object.{State, ready, running, blocked, stopped}
use boost_green_thread.Thread.Strand.{
  System, resume, enter, take, activate, activate_all, leave, asks, Run, resumes, takes, leaves,
  start,
}

-- Which thread is inside, if any
abbrev Single : System → Type 0
Single s =
    ((s.stack ≡ []) × (s.current ≡ none) × ((i : ℕ) → s.state i ≢ running))
    ⊎ ((j : ℕ) × (s.stack ≡ j ∷ [])
        × (s.current ≡ some j)
        × (s.state j ≡ running)
        × ((i : ℕ) → s.state i ≡ running → i ≡ j))

-- Outside any thread, `activate` posts.
activate_all-posts :
    (js : List ℕ) (s : System)
    → s.current ≡ none
    → activate_all js s ≡ record s { posted = s.posted ++ js }
unfolding activate_all activate resume
activate_all-posts [] s e = ground (arith, append-nil s.posted)
activate_all-posts (j ∷ js) s e =
    let same : activate j s ≡ resume j s = ground (arith, e) in
    ap (activate_all js) same
    ∙ activate_all-posts js (resume j s) e
    ∙ ap (λ l. record s { posted = l }) (append_assoc s.posted (j ∷ []) js)

record Inv (asked ran : List ℕ) (s : System) : Type 0 where
  single : Single s
  kept : asked ≡ ran ++ s.posted

resume-Inv :
    {asked ran : List ℕ} (j : ℕ) (s : System)
    → Inv asked ran s
    → Inv (asked ++ j ∷ []) ran (resume j s)
unfolding resume
resume-Inv {asked} {ran} j s v = record {
  single = v.single;
  kept = ap (λ l. l ++ j ∷ []) v.kept ∙ append_assoc ran s.posted (j ∷ []);
}

take-Inv :
    {asked ran : List ℕ} (i : ℕ) (rest : List ℕ) (s : System)
    → s.posted ≡ i ∷ rest
    → s.stack ≡ []
    → Inv asked ran s
    → Inv asked (ran ++ i ∷ []) (take i rest s)
unfolding enter
take-Inv {asked} {ran} i rest s p e v = elim v.single [
  | inl (q, c, none_runs) ↦ record {
    single = inr (i, ground (arith, e), refl, ground arith, λ k r. ground (arith, r, none_runs k));
    kept = v.kept ∙ ap (λ l. ran ++ l) p ∙ sym (append_assoc ran (i ∷ []) rest);
  }
  | inr (j, q, c, w, only) ↦ absurd (ground (arith, q, e))
]

-- What `one_step` does last
settled-Inv :
    {asked ran : List ℕ} (j : ℕ) (js : List ℕ) (x : State) (s : System)
    → ((i : ℕ) → update s.state j x i ≢ running)
    → x ≢ running
    → asked ≡ ran ++ s.posted
    → Inv (asked ++ asks j js x) ran (leave j [] js x s)
unfolding leave resume
settled-Inv {asked} {ran} j js ready s off n c = record {
  single = inl (refl, refl, off);
  kept = ap (λ l. l ++ j ∷ []) c ∙ append_assoc ran s.posted (j ∷ []);
}
settled-Inv j js running s off n c = absurd (n refl)
settled-Inv {asked} j js blocked s off n c = record {
  single = inl (refl, refl, off);
  kept = append-nil asked ∙ c;
}
settled-Inv {asked} {ran} j js stopped s off n c =
    let out : System = record s { state = update s.state j stopped; current = none } in
    subst (λ t. Inv (asked ++ js) ran (record t { stack = [] }))
      (sym (activate_all-posts js out refl))
      (record {
        single = inl (refl, refl, off);
        kept = ap (λ l. l ++ js) c ∙ append_assoc ran s.posted js;
      })

-- What is left when thread `j` has given up: it is inside by itself.
leave-Inv :
    {asked ran : List ℕ} (j : ℕ) (rest js : List ℕ) (x : State) (s : System)
    → s.stack ≡ j ∷ rest
    → x ≢ running
    → Inv asked ran s
    → Inv (asked ++ asks j js x) ran (leave j rest js x s)
unfolding leave resume
leave-Inv {asked} {ran} j rest js x s e n v = elim v.single [
  | inl (q, c, w) ↦ absurd (ground (arith, q, e))
  | inr (k, q, c, r, only) ↦
      let one : k ≡ j = ground (arith, q, e) in
      let last : rest ≡ [] = ground (arith, q, e) in
      let off : (i : ℕ) → update s.state j x i ≢ running =
        λ i u. ground (arith, u, n, only i, one) in
      subst (λ l. Inv (asked ++ asks j js x) ran (leave j l js x s)) (sym last)
        (settled-Inv j js x s off n v.kept)
]

Run-Inv : {asked ran : List ℕ} {s : System} → Run asked ran s → Inv asked ran s
Run-Inv start = record { single = inl (refl, refl, λ i. ground arith); kept = refl }
Run-Inv (resumes {s = s} i r) = resume-Inv i s (Run-Inv r)
Run-Inv (takes {s = s} i rest p e r) = take-Inv i rest s p e (Run-Inv r)
Run-Inv (leaves {s = s} j rest js x e n r) = leave-Inv j rest js x s e n (Run-Inv r)

running-cases : (x : State) → (x ≡ running) ⊎ (x ≢ running)
running-cases ready = inr (ground arith)
running-cases running = inl refl
running-cases blocked = inr (ground arith)
running-cases stopped = inr (ground arith)

-- No activation is lost or made up, also none that comes before the thread has paused: those that were
-- asked for (by `resume`, by a thread that gives way, and for the threads of this strand that join one
-- that ends) are, in their order, those that have run followed by those that are posted. If asio runs
-- the handlers of the strand one at a time, then `get_current_thread_object()` is null while no thread
-- runs, and otherwise the one thread that is RUNNING.
pub activations_kept :
    {asked ran : List ℕ} {s : System} (i : ℕ)
    → Run asked ran s
    → (asked ≡ ran ++ s.posted)
      × (((s.stack ≡ []) × (s.current ≡ none) × (s.state i ≢ running))
          ⊎ ((j : ℕ) × (s.stack ≡ j ∷ [])
              × (s.current ≡ some j)
              × (s.state j ≡ running)
              × ((i ≡ j) ⊎ (s.state i ≢ running))))
activations_kept {asked} {ran} {s} i r =
    let v = Run-Inv r in
    let one : ((s.stack ≡ []) × (s.current ≡ none) × (s.state i ≢ running))
        ⊎ ((j : ℕ) × (s.stack ≡ j ∷ [])
            × (s.current ≡ some j)
            × (s.state j ≡ running)
            × ((i ≡ j) ⊎ (s.state i ≢ running))) =
      elim v.single [
        | inl (q, c, off) ↦ inl (q, c, off i)
        | inr (j, q, c, w, only) ↦ inr (
          j,
          q,
          c,
          w,
          elim (running-cases (s.state i)) [ inl u ↦ inl (only i u) | inr u ↦ inr u ],
        )
      ] in
    (v.kept, one)
