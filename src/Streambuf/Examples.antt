-- ===== src/Streambuf/Examples.antt =====
-- The theorems on buffered streams over two small streams.
use boost_green_thread.Base.{
  ℕ, zero, suc, ◌≤◌, true, false, some, List, [], ◌∷◌, ◌++◌, length, take, drop, ◌≡◌, append-nil,
  ap, sym, refl, inl, arith,
}
use boost_green_thread.Streambuf.Areas.{Written, Got, Streambuf, Result, make, sputc}
use boost_green_thread.Streambuf.Reading.{ReadLaws, Bumped, sbumpc, sbumpc_in_order}
use boost_green_thread.Streambuf.Delivery.{WriteLaws, Puts, sputc_in_order}

-- The bytes sent, and how many writes succeed before the one that fails.
record Wire : Type 0 where
  log : List ℕ
  good : ℕ

abbrev wire_write : Wire → List ℕ → Written Wire
wire_write w xs = elim w.good [
  | suc n ↦ record {
    stream = record { log = w.log ++ take 2 xs; good = n };
    transferred = length (take 2 xs);
    failed = false;
  }
  | zero ↦ record { stream = record w { good = 9 }; transferred = 0; failed = true }
]

two_bounded : (xs : List ℕ) → length (take 2 xs) ≤ length xs
two_bounded [] = omega arith
two_bounded (x ∷ []) = omega arith
two_bounded (x ∷ y ∷ xs) = omega arith

take_two : (xs : List ℕ) → take (length (take 2 xs)) xs ≡ take 2 xs
take_two [] = refl
take_two (x ∷ []) = refl
take_two (x ∷ y ∷ xs) = refl

wire_bounded : (w : Wire) (xs : List ℕ) → (wire_write w xs).transferred ≤ length xs
wire_bounded w xs =
    elim w.good as (λ g. (wire_write (record w { good = g }) xs).transferred ≤ length xs) [
      | suc n ↦ two_bounded xs
      | zero ↦ omega arith
    ]

wire_appended :
    (w : Wire) (xs : List ℕ)
    → (wire_write w xs).stream.log ≡ w.log ++ take (wire_write w xs).transferred xs
wire_appended w xs =
    elim w.good
      as (λ g.
        (wire_write (record w { good = g }) xs).stream.log
        ≡ w.log ++ take (wire_write (record w { good = g }) xs).transferred xs) [
          | suc n ↦ ap (λ ys. w.log ++ ys) (sym (take_two xs))
          | zero ↦ sym (append-nil w.log)
        ]

wire_laws : WriteLaws Wire wire_write (λ w. w.log)
wire_laws = record {
  bounded = wire_bounded;
  progress = λ w x xs e. ground arith;
  appended = wire_appended;
}

-- Three bytes pending; the second write fails.
abbrev hurried : Streambuf Wire
hurried = record (make (record { log = 7 ∷ []; good = 1 })) { pending = 1 ∷ 2 ∷ 3 ∷ [] }

sputc_in_order_example :
    Puts wire_write (λ w. w.log) wire_laws hurried (4 ∷ []) (sputc wire_write 4 hurried)
sputc_in_order_example = sputc_in_order wire_write (λ w. w.log) wire_laws 4 hurried (inl refl)

-- A stream whose peer sends what is still in `ahead`, as much as is asked for; writing takes everything.
record Line : Type 0 where
  log : List ℕ
  taken : List ℕ
  ahead : List ℕ

abbrev line_write : Line → List ℕ → Written Line
line_write l xs = record {
  stream = record l { log = l.log ++ xs };
  transferred = length xs;
  failed = false;
}

abbrev line_read : Line → ℕ → Got Line
line_read l n = record {
  stream = record l { taken = l.taken ++ take n l.ahead; ahead = drop n l.ahead };
  bytes = take n l.ahead;
  failed = false;
}

take_all : (xs : List ℕ) → take (length xs) xs ≡ xs
take_all [] = refl
take_all (x ∷ xs) = ap (λ ys. x ∷ ys) (take_all xs)

line_writes : WriteLaws Line line_write (λ l. l.log)
line_writes = record {
  bounded = λ l xs. omega arith;
  progress = λ l x xs e. ground arith;
  appended = λ l xs. ap (λ ys. l.log ++ ys) (sym (take_all xs));
}

take_short : (n : ℕ) (xs : List ℕ) → length (take n xs) ≤ n
take_short zero xs = omega arith
take_short (suc n) [] = omega arith
take_short (suc n) (x ∷ xs) = omega (arith, take_short n xs)

line_reads : ReadLaws Line line_write line_read (λ l. l.taken)
line_reads = record {
  limited = λ l n. take_short n l.ahead;
  handed = λ l n e. refl;
  kept = λ l n e. ground arith;
  unwritten = λ l xs. refl;
}

-- One character is pending, and two are on their way.
abbrev asking : Streambuf Line
asking = record (make (record { log = []; taken = []; ahead = 5 ∷ 6 ∷ [] })) { pending = 1 ∷ [] }

sbumpc_in_order_example :
    (r : Result Line) × (sbumpc line_write line_read asking ≡ some r)
    × Bumped line_write line_read (λ l. l.log) (λ l. l.taken) line_writes line_reads [] r
sbumpc_in_order_example =
    sbumpc_in_order line_write line_read (λ l. l.log) (λ l. l.taken) line_writes line_reads asking
      [] (omega arith, omega arith, refl, omega arith) (inl refl) refl
