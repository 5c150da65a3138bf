-- ===== src/Streambuf/Reading.antt =====
-- What comes out of the get area, and in which order.
use boost_green_thread.Base.{
  ℕ, zero, suc, ◌+◌, ◌-◌, ◌≤◌, ◌<◌, true, false, Bool-cases, Option, Option-cases, none, some, List,
  [], ◌∷◌, ◌++◌, length, drop, append-nil, append-cons, List-cases, ◌≡◌, ◌≢◌, ◌⊎◌, inl, inr, refl,
  sym, ap, subst, ◌∙◌, ◌==◌, if◌then◌else◌, arith,
}
use boost_green_thread.Streambuf.Areas.{
  Written, Got, Streambuf, Result, DuplexMode, full_duplex, half_duplex, putback_max, buffer_size,
  overflow, overflow_buffered, sync, refill, underflow, write_all, Flushed,
}
use boost_green_thread.Streambuf.Delivery.{WriteLaws, Valid, sync-Puts}

-- What asio documents of `read_some` and its result: no more bytes than the buffer it is given takes,
-- those that have arrived, in their order, and none with an error; `received` is all that has been
-- handed over so far, which writing does not change.
pub record ReadLaws (D : Type 0) (write_some : D → List ℕ → Written D) (read_some : D → ℕ → Got D)
    (received : D → List ℕ) : Type 0 where
  pub limited : (d : D) (n : ℕ) → length (read_some d n).bytes ≤ n
  pub handed :
      (d : D) (n : ℕ)
      → (read_some d n).failed ≡ false
      → received (read_some d n).stream ≡ received d ++ (read_some d n).bytes
  pub kept :
      (d : D) (n : ℕ) → (read_some d n).failed ≡ true → received (read_some d n).stream ≡ received d
  pub unwritten : (d : D) (xs : List ℕ) → received (write_some d xs).stream ≡ received d

-- The characters between `gptr` and `egptr`.
abbrev pub unread : {D : Type 0} → Streambuf D → List ℕ
unread s = drop (s.gptr - putback_max) s.get_buffer

-- `gptr` is inside the get area, which `get_buffer_` has room for.
abbrev pub Filled : {D : Type 0} → Streambuf D → Type 0
Filled s =
    (putback_max ≤ s.gptr)
    × (s.gptr ≤ s.egptr)
    × (s.egptr ≡ putback_max + length s.get_buffer)
    × (s.egptr ≤ buffer_size)

mode_cases : (m : DuplexMode) → (m ≡ full_duplex) ⊎ (m ≡ half_duplex)
mode_cases full_duplex = inl refl
mode_cases half_duplex = inr refl

drop_all : (n : ℕ) (xs : List ℕ) → length xs ≤ n → drop n xs ≡ []
drop_all zero [] h = refl
drop_all (suc n) [] h = refl
drop_all zero (x ∷ xs) h = absurd (omega arith)
drop_all (suc n) (x ∷ xs) h = drop_all n xs (omega arith)

drop_next :
    (n : ℕ) (xs : List ℕ) (x : ℕ) (rest : List ℕ)
    → drop n xs ≡ x ∷ rest
    → (drop (suc n) xs ≡ rest) × (n < length xs)
drop_next zero [] x rest e = ground arith
drop_next (suc n) [] x rest e = ground arith
drop_next zero (y ∷ ys) x rest e = ground arith
drop_next (suc n) (y ∷ ys) x rest e =
    let (same, room) = drop_next n ys x rest e in (same, omega arith)

module _ {D : Type 0} (write_some : D → List ℕ → Written D) (read_some : D → ℕ → Got D) where
  -- `std::streambuf::sbumpc`: the next character, after `underflow` when the get area is empty.
  abbrev bump : Streambuf D → Result D
  bump s = elim (unread s) [
    | [] ↦ record { buffer = s; char = none }
    | x ∷ _ ↦ record { buffer = record s { gptr = suc s.gptr }; char = some x }
  ]

  unfoldable pub sbumpc : Streambuf D → Option (Result D)
  unfolding underflow
  sbumpc s =
      if s.gptr == s.egptr
      then elim (underflow write_some read_some s) [
        | none ↦ none
        | some r ↦ elim r.char [ none ↦ some r | some _ ↦ some (bump r.buffer) ]
      ]
      else some (bump s)

  module _ (sent received : D → List ℕ) (writes : WriteLaws D write_some sent)
      (reads : ReadLaws D write_some read_some received) where
    write_all-received :
        (fuel : ℕ) (d : D) (xs : List ℕ) (f : Flushed D)
        → write_all write_some fuel d xs ≡ some f
        → received f.stream ≡ received d
    unfolding write_all
    write_all-received fuel d [] f e = ground arith
    write_all-received zero d (x ∷ xs) f e = ground arith
    write_all-received (suc fuel) d (x ∷ xs) f e =
        let w = write_some d (x ∷ xs) in
        let more = reads.unwritten d (x ∷ xs) in
        let rest = write_all-received fuel w.stream (drop w.transferred (x ∷ xs)) f in
        elim (Bool-cases w.failed) [
          | inl q ↦ ground (arith, more)
          | inr q ↦ ground (arith, more, rest)
        ]

    -- `sync` leaves the get area alone, and what has been received.
    sync_keeps :
        (s : Streambuf D) (r : Result D)
        → sync write_some s ≡ some r
        → (r.buffer.gptr ≡ s.gptr)
          × (r.buffer.egptr ≡ s.egptr)
          × (r.buffer.get_buffer ≡ s.get_buffer)
          × (received r.buffer.stream ≡ received s.stream)
    unfolding sync overflow overflow_buffered
    sync_keeps s r e =
        elim (Option-cases (write_all write_some (length s.pending) s.stream s.pending)) [
          | inl q ↦ ground arith
          | inr (f, q) ↦
              ground (arith, write_all-received (length s.pending) s.stream s.pending f q)
        ]

    -- The next characters that have been received, or `eof`.
    abbrev Refilled : List ℕ → Result D → Type 0
    Refilled pre r =
        Filled r.buffer
        × (received r.buffer.stream ≡ pre ++ unread r.buffer)
        × ((r.char ≢ none) ⊎ ((r.char ≡ none) × (unread r.buffer ≡ [])))

    refill-Refilled :
        (s : Streambuf D) (pre : List ℕ)
        → Filled s
        → s.gptr ≡ s.egptr
        → received s.stream ≡ pre
        → Refilled pre (refill write_some read_some s)
    unfolding refill
    refill-Refilled s pre fl e same =
        let size = buffer_size - putback_max in
        let g = read_some s.stream size in
        let empty = drop_all (s.gptr - putback_max) s.get_buffer (omega arith) in
        elim (Bool-cases g.failed) [
          | inl q ↦ ground (arith, reads.kept s.stream size q, empty, append-nil pre)
          | inr q ↦ elim (List-cases g.bytes) [
            | inl z ↦ ground (arith, reads.handed s.stream size q, empty, append-nil pre)
            | inr (x, xs, z) ↦
                ground (arith, reads.handed s.stream size q, reads.limited s.stream size)
          ]
        ]

    underflow-Refilled :
        (s : Streambuf D) (pre : List ℕ)
        → Filled s
        → Valid write_some sent writes s
        → s.gptr ≡ s.egptr
        → received s.stream ≡ pre
        → (r : Result D) × (underflow write_some read_some s ≡ some r) × Refilled pre r
    unfolding underflow
    underflow-Refilled s pre fl v e same = elim (mode_cases s.duplex_mode) [
      | inl full ↦ (refill write_some read_some s, ground arith, refill-Refilled s pre fl e same)
      | inr half ↦
          let (r, acc, rest, ends, _, _, _, _) = sync-Puts write_some sent writes s v in
          let (g, eg, buf, rcv) = sync_keeps s r ends in
          (
            refill write_some read_some r.buffer,
            ground arith,
            refill-Refilled r.buffer pre (ground (arith, fl)) (ground (arith, e)) (rcv ∙ same),
          )
    ]

    -- One character out: `pre` is what has come out already.
    abbrev pub Bumped : List ℕ → Result D → Type 0
    Bumped pre r =
        Filled r.buffer
        × (((x : ℕ) × (r.char ≡ some x)
              × (received r.buffer.stream ≡ (pre ++ x ∷ []) ++ unread r.buffer))
            ⊎ ((r.char ≡ none) × (received r.buffer.stream ≡ pre) × (unread r.buffer ≡ [])))

    bump-none : (s : Streambuf D) → unread s ≡ [] → bump s ≡ record { buffer = s; char = none }
    bump-none s z = ground arith

    bump-some :
        (s : Streambuf D) (x : ℕ) (rest : List ℕ)
        → unread s ≡ x ∷ rest
        → bump s ≡ record { buffer = record s { gptr = suc s.gptr }; char = some x }
    bump-some s x rest z = ground arith

    bump-Bumped :
        (s : Streambuf D) (pre : List ℕ)
        → Filled s
        → received s.stream ≡ pre ++ unread s
        → Bumped pre (bump s)
    bump-Bumped s pre fl same = elim (List-cases (unread s)) [
      | inl z ↦
          subst (Bumped pre) (sym (bump-none s z))
            (fl, inr (refl, same ∙ ap (λ ys. pre ++ ys) z ∙ append-nil pre, z))
      | inr (x, rest, z) ↦
          let (after, room) = drop_next (s.gptr - putback_max) s.get_buffer x rest z in
          let moved : suc s.gptr - putback_max ≡ suc (s.gptr - putback_max) = omega arith in
          let left : drop (suc s.gptr - putback_max) s.get_buffer ≡ rest =
            ap (λ k. drop k s.get_buffer) moved ∙ after in
          subst (Bumped pre) (sym (bump-some s x rest z)) (
            (omega arith, omega (arith, fl, room), fl.2, fl.3),
            inl (
              x,
              refl,
              same
                  ∙ ap (λ ys. pre ++ ys) z
                  ∙ sym (append-cons pre x rest)
                  ∙ ap (λ ys. (pre ++ x ∷ []) ++ ys) (sym left),
            ),
          )
    ]

    -- Over a stream that keeps to `WriteLaws` and `ReadLaws`, on a buffer that is valid, with `gptr`
    -- inside its get area and this inside the first `buffer_size` bytes of `get_buffer_`: `sbumpc`, with the `underflow` that it calls on an empty get area and the
    -- `sync` that this calls, always ends, and the characters come out as they have been received, in
    -- order, none lost and none repeated. `pre` is what has come out so far; `eof` comes only when
    -- nothing that has been received is left. A refilled get area again stays inside those bytes.
    pub sbumpc_in_order :
        (s : Streambuf D) (pre : List ℕ)
        → Filled s
        → Valid write_some sent writes s
        → received s.stream ≡ pre ++ unread s
        → (r : Result D) × (sbumpc s ≡ some r) × Bumped pre r
    unfolding sbumpc
    sbumpc_in_order s pre fl v same = elim (Bool-cases (s.gptr == s.egptr)) [
      | inr apart ↦ (bump s, ground arith, bump-Bumped s pre fl same)
      | inl e ↦
          let z = drop_all (s.gptr - putback_max) s.get_buffer (ground (arith, fl)) in
          let all : received s.stream ≡ pre = same ∙ ap (λ ys. pre ++ ys) z ∙ append-nil pre in
          let (r, ends, refilled) = underflow-Refilled s pre fl v (ground arith) all in
          let fill = refilled.0 in
          let rcv = refilled.1 in
          let cases = refilled.2 in
          elim cases [
            | inl gives ↦
                (bump r.buffer, ground (arith, ends, gives), bump-Bumped r.buffer pre fill rcv)
            | inr (eof, empty) ↦
                let bumped : Bumped pre r =
                  (fill, inr (eof, rcv ∙ ap (λ ys. pre ++ ys) empty ∙ append-nil pre, empty)) in
                (r, ground (arith, ends, eof), bumped)
          ]
    ]
