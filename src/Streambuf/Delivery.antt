-- ===== src/Streambuf/Delivery.antt =====
-- What reaches the stream, and in which order.
use boost_green_thread.Base.{
  ℕ, zero, suc, ◌≤◌, ◌<◌, true, false, Bool-cases, Option, none, some, List, [], ◌∷◌, ◌++◌, length,
  length-drop, take, drop, take-append-drop, append_assoc, append-nil, ◌≡◌, ◌≢◌, ◌⊎◌, inl, inr,
  refl, sym, ap, subst, not, ◌||◌, ltb, ◌∙◌, arith,
}
use boost_green_thread.Streambuf.Areas.{
  Written, Flushed, Streambuf, Result, buffer_size, write_all, overflow_buffered, overflow, sync,
  sputc,
}

-- What asio documents of `write_some` and its result: at most the given bytes are transferred, at
-- least one if there is no error, and those from the front; `sent` is all that has been.
pub record WriteLaws (D : Type 0) (write_some : D → List ℕ → Written D) (sent : D → List ℕ)
    : Type 0 where
  pub bounded : (d : D) (xs : List ℕ) → (write_some d xs).transferred ≤ length xs
  pub progress :
      (d : D) (x : ℕ) (xs : List ℕ)
      → (write_some d (x ∷ xs)).failed ≡ false
      → 0 < (write_some d (x ∷ xs)).transferred
  pub appended :
      (d : D) (xs : List ℕ)
      → sent (write_some d xs).stream ≡ sent d ++ take (write_some d xs).transferred xs

module _ {D : Type 0} (write_some : D → List ℕ → Written D) (sent : D → List ℕ)
    (laws : WriteLaws D write_some sent) where
  -- The loop ends; it has written all of `xs`, or failed behind the part `acc` of it.
  abbrev pub Writes : D → List ℕ → Option (Flushed D) → Type 0
  Writes d xs r =
      (f : Flushed D) × (acc rest : List ℕ) × (r ≡ some f)
      × (xs ≡ acc ++ rest)
      × (sent f.stream ≡ sent d ++ acc)
      × ((f.complete ≡ false) ⊎ ((f.complete ≡ true) × (rest ≡ [])))

  write_all-Writes :
      (fuel : ℕ) (d : D) (xs : List ℕ)
      → length xs ≤ fuel
      → Writes d xs (write_all write_some fuel d xs)
  unfolding write_all
  write_all-Writes fuel d [] h = (
    record { stream = d; complete = true },
    [],
    [],
    refl,
    refl,
    sym (append-nil (sent d)),
    inr (refl, refl),
  )
  write_all-Writes zero d (x ∷ xs) h = ground arith
  write_all-Writes (suc fuel) d (x ∷ xs) h =
      let w = write_some d (x ∷ xs) in
      let t = w.transferred in
      let whole = sym (take-append-drop t (x ∷ xs)) in
      elim (Bool-cases w.failed) [
        | inl e ↦ rw e (
          record { stream = w.stream; complete = false },
          take t (x ∷ xs),
          drop t (x ∷ xs),
          refl,
          whole,
          laws.appended d (x ∷ xs),
          inl refl,
        )
        | inr e ↦
            let (f, acc, rest, same, split, written, ending) =
              write_all-Writes fuel w.stream (drop t (x ∷ xs))
                (omega (arith, length-drop t (x ∷ xs), laws.progress d x xs e)) in
            rw e (
              f,
              take t (x ∷ xs) ++ acc,
              rest,
              same,
              whole
                  ∙ ap (λ ys. take t (x ∷ xs) ++ ys) split
                  ∙ sym (append_assoc (take t (x ∷ xs)) acc rest),
              written
                  ∙ ap (λ ys. ys ++ acc) (laws.appended d (x ∷ xs))
                  ∙ append_assoc (sent d) (take t (x ∷ xs)) acc,
              ending,
            )
      ]

  -- A stream without a put area has nothing pending.
  abbrev pub Valid : Streambuf D → Type 0
  Valid s = (s.unbuffered ≡ false) ⊎ (s.pending ≡ [])

  -- The call ends. Either it succeeds, and what has been sent, with what is pending, is longer by
  -- `xs`; or it gives `eof` behind a part `acc`, and all that was pending stays pending.
  abbrev pub Puts : Streambuf D → List ℕ → Option (Result D) → Type 0
  Puts s xs o =
      (r : Result D) × (acc rest : List ℕ) × (o ≡ some r)
      × Valid r.buffer
      × (s.pending ++ xs ≡ acc ++ rest)
      × (sent r.buffer.stream ≡ sent s.stream ++ acc)
      × (((r.char ≡ none) × (r.buffer.pending ≡ s.pending))
          ⊎ ((r.char ≢ none) × (rest ≡ r.buffer.pending)))

  abbrev pub chars : Option ℕ → List ℕ
  chars none = []
  chars (some x) = x ∷ []

  -- What `overflow` does with the outcome of its loop.
  overflow_buffered_stopped :
      (c : Option ℕ) (s : Streambuf D) (f : Flushed D)
      → write_all write_some (length s.pending) s.stream s.pending ≡ some f
      → f.complete ≡ false
      → overflow_buffered write_some c s
        ≡ some (record { buffer = record s { stream = f.stream }; char = none })
  unfolding overflow_buffered
  overflow_buffered_stopped c s f same stopped = ground arith

  overflow_buffered_done :
      (c : Option ℕ) (s : Streambuf D) (f : Flushed D)
      → write_all write_some (length s.pending) s.stream s.pending ≡ some f
      → f.complete ≡ true
      → (r : Result D) × (overflow_buffered write_some c s ≡ some r)
        × (r.buffer ≡ record s { stream = f.stream; pending = chars c })
        × (r.char ≢ none)
  unfolding overflow_buffered
  overflow_buffered_done none s f same all = (
    record { buffer = record s { stream = f.stream; pending = [] }; char = some 0 },
    ground arith,
    refl,
    ground arith,
  )
  overflow_buffered_done (some x) s f same all = (
    record { buffer = record s { stream = f.stream; pending = x ∷ [] }; char = some x },
    ground arith,
    refl,
    ground arith,
  )

  overflow_buffered-Puts :
      (c : Option ℕ) (s : Streambuf D)
      → s.unbuffered ≡ false
      → Puts s (chars c) (overflow_buffered write_some c s)
  overflow_buffered-Puts c s e =
      let (f, acc, rest, same, split, written, ending) =
        write_all-Writes (length s.pending) s.stream s.pending (omega arith) in
      let failing : s.pending ++ chars c ≡ acc ++ (rest ++ chars c) =
        ap (λ ys. ys ++ chars c) split ∙ append_assoc acc rest (chars c) in
      elim ending [
        | inl stopped ↦ (
          record { buffer = record s { stream = f.stream }; char = none },
          acc,
          rest ++ chars c,
          overflow_buffered_stopped c s f same stopped,
          inl e,
          failing,
          written,
          inl (refl, refl),
        )
        | inr (all, nothing) ↦
            let (r, ends, buffer, given) = overflow_buffered_done c s f same all in
            (
              r,
              acc,
              rest ++ chars c,
              ends,
              rw buffer (inl e),
              failing,
              rw buffer written,
              inr (given, rw (buffer, nothing) refl),
            )
      ]

  unbuffered-Puts :
      (x : ℕ) (s : Streambuf D)
      → s.unbuffered ≡ true
      → s.pending ≡ []
      → Puts s (x ∷ []) (overflow write_some (some x) s)
  unfolding overflow
  unbuffered-Puts x s e empty =
      let w = write_some s.stream (x ∷ []) in
      let whole : x ∷ [] ≡ take w.transferred (x ∷ []) ++ drop w.transferred (x ∷ []) =
        sym (take-append-drop w.transferred (x ∷ [])) in
      elim (Bool-cases w.failed) [
        | inl failed ↦ (
          record { buffer = record s { stream = w.stream }; char = none },
          take w.transferred (x ∷ []),
          drop w.transferred (x ∷ []),
          ground arith,
          inr empty,
          rw empty whole,
          laws.appended s.stream (x ∷ []),
          inl (refl, refl),
        )
        | inr fine ↦ (
          record { buffer = record s { stream = w.stream }; char = some x },
          x ∷ [],
          [],
          ground arith,
          inr empty,
          rw empty refl,
          ground (
            arith,
            laws.appended s.stream (x ∷ []),
            laws.bounded s.stream (x ∷ []),
            laws.progress s.stream x [],
          ),
          inr (ground arith, sym empty),
        )
      ]

  overflow-overflow_buffered :
      (c : Option ℕ) (s : Streambuf D)
      → s.unbuffered ≡ false
      → overflow write_some c s ≡ overflow_buffered write_some c s
  unfolding overflow
  overflow-overflow_buffered c s e = ground arith

  overflow-Puts :
      (c : Option ℕ) (s : Streambuf D) → Valid s → Puts s (chars c) (overflow write_some c s)
  unfolding overflow
  overflow-Puts (some x) s v = elim (Bool-cases s.unbuffered) [
    | inr e ↦
        subst (Puts s (x ∷ [])) (sym (overflow-overflow_buffered (some x) s e))
          (overflow_buffered-Puts (some x) s e)
    | inl e ↦ unbuffered-Puts x s e (ground arith)
  ]
  overflow-Puts none s v = elim (Bool-cases s.unbuffered) [
    | inr e ↦
        subst (Puts s []) (sym (overflow-overflow_buffered none s e))
          (overflow_buffered-Puts none s e)
    | inl e ↦ (
      record { buffer = s; char = some 0 },
      [],
      [],
      ground arith,
      v,
      ground arith,
      sym (append-nil (sent s.stream)),
      inr (ground arith, ground arith),
    )
  ]

  -- `sync` always ends. Either it has sent all that was pending, in order, and nothing is pending;
  -- or it gives `eof` and has sent a part from the front.
  pub sync-Puts : (s : Streambuf D) → Valid s → Puts s [] (sync write_some s)
  unfolding sync
  sync-Puts s v = overflow-Puts none s v

  -- Over a stream that keeps to `WriteLaws`, `sputc` ends on every valid buffer, full, unbuffered
  -- or with room, and leaves a valid one. Either it succeeds, and what has been sent followed by
  -- what is pending is longer by this character; or it gives `eof` behind a part that was sent from
  -- the front, and what was pending stays so.
  pub sputc_in_order : (x : ℕ) (s : Streambuf D) → Valid s → Puts s (x ∷ []) (sputc write_some x s)
  unfolding sputc
  sputc_in_order x s v =
      elim (Bool-cases (s.unbuffered || not (ltb (length s.pending) buffer_size))) [
        | inl e ↦
            let full : sputc write_some x s ≡ overflow write_some (some x) s = ground arith in
            subst (Puts s (x ∷ [])) (sym full) (overflow-Puts (some x) s v)
        | inr e ↦ (
          record { buffer = record s { pending = s.pending ++ x ∷ [] }; char = some x },
          [],
          s.pending ++ x ∷ [],
          ground arith,
          inl (ground arith),
          refl,
          sym (append-nil (sent s.stream)),
          inr (ground arith, refl),
        )
      ]

  -- The result of `sync` is the one that `Puts` is about.
  sync-Result :
      (s : Streambuf D) (r : Result D)
      → Valid s
      → sync write_some s ≡ some r
      → (acc rest : List ℕ) × Valid r.buffer
        × (s.pending ++ [] ≡ acc ++ rest)
        × (sent r.buffer.stream ≡ sent s.stream ++ acc)
        × (((r.char ≡ none) × (r.buffer.pending ≡ s.pending))
            ⊎ ((r.char ≢ none) × (rest ≡ r.buffer.pending)))
  sync-Result s r v e =
      let (r', acc, rest, same, v', split, written, cases) = sync-Puts s v in
      let one : r' ≡ r = cc in
      (
        acc,
        rest,
        subst (λ q. Valid q.buffer) one v',
        split,
        subst (λ q. sent q.buffer.stream ≡ sent s.stream ++ acc) one written,
        subst
            (λ q.
              ((q.char ≡ none) × (q.buffer.pending ≡ s.pending))
              ⊎ ((q.char ≢ none) × (rest ≡ q.buffer.pending)))
            one cases,
      )

  -- Over a stream that keeps to `WriteLaws`, a `sync` that fails behind a part of the pending
  -- characters keeps them all pending, so that the next `sync` that succeeds sends this part a
  -- second time.
  pub failed_sync_resends :
      (s : Streambuf D) (r t : Result D)
      → Valid s
      → sync write_some s ≡ some r
      → r.char ≡ none
      → sync write_some r.buffer ≡ some t
      → t.char ≢ none
      → (acc rest : List ℕ) × (s.pending ≡ acc ++ rest)
        × (sent r.buffer.stream ≡ sent s.stream ++ acc)
        × (sent t.buffer.stream ++ t.buffer.pending ≡ (sent s.stream ++ acc) ++ s.pending)
  failed_sync_resends s r t v first fails second works =
      let (acc, rest, v', split, written, cases) = sync-Result s r v first in
      let (acc', rest', v'', split', written', cases') = sync-Result r.buffer t v' second in
      let kept : r.buffer.pending ≡ s.pending = ground arith in
      let over : rest' ≡ t.buffer.pending = ground arith in
      (
        acc,
        rest,
        sym (append-nil s.pending) ∙ split,
        written,
        ap (λ ys. sent t.buffer.stream ++ ys) (sym over)
            ∙ ap (λ ys. ys ++ rest') written'
            ∙ append_assoc (sent r.buffer.stream) acc' rest'
            ∙ ap (λ ys. sent r.buffer.stream ++ ys)
                (sym split' ∙ append-nil r.buffer.pending ∙ kept)
            ∙ ap (λ ys. ys ++ s.pending) written,
      )
