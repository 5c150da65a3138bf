-- ===== src/Streambuf/Areas.antt =====
-- `streambuf_base<Stream>`: its get and put areas. The stream's `async_write_some` and
-- `async_read_some`, with `yield[ec]`, are parameters; a byte is a number, and `eof` is none.
use boost_green_thread.Base.{
  ℕ, zero, suc, ◌+◌, ◌-◌, Bool, true, false, not, ◌||◌, Option, none, some, List, [], ◌∷◌, ◌++◌,
  length, drop, ◌==◌, ltb, if◌then◌else◌,
}

pub data DuplexMode : Type 0 where
  full_duplex half_duplex : DuplexMode

-- What the two calls give: the stream afterwards, the bytes transferred, and whether `ec` is set.
pub record Written (D : Type 0) : Type 0 where
  pub stream : D
  pub transferred : ℕ
  pub failed : Bool

pub record Got (D : Type 0) : Type 0 where
  pub stream : D
  pub bytes : List ℕ
  pub failed : Bool

-- `gptr` and `egptr` count from `eback`, `get_buffer` holds what was read behind the putback area,
-- and `pending` is what stands between `pbase` and `pptr`.
pub record Streambuf (D : Type 0) : Type 0 where
  pub stream : D
  pub get_buffer : List ℕ
  pub gptr : ℕ
  pub egptr : ℕ
  pub pending : List ℕ
  pub unbuffered : Bool
  pub duplex_mode : DuplexMode

abbrev pub putback_max : ℕ
putback_max = 8

abbrev pub buffer_size : ℕ
buffer_size = 1500

-- The constructors, by `init_buffers`.
abbrev pub make : {D : Type 0} → D → Streambuf D
make d = record {
  stream = d;
  get_buffer = [];
  gptr = putback_max;
  egptr = putback_max;
  pending = [];
  unbuffered = false;
  duplex_mode = half_duplex;
}

-- How the loop of `overflow` ends: the stream, and whether all was written.
pub record Flushed (D : Type 0) : Type 0 where
  pub stream : D
  pub complete : Bool

-- A result of type `int_type`, and the buffer afterwards.
pub record Result (D : Type 0) : Type 0 where
  pub buffer : Streambuf D
  pub char : Option ℕ

-- An offset from the current position.
pub data Offset : Type 0 where
  ahead back : ℕ → Offset

module _ {D : Type 0} (write_some : D → List ℕ → Written D) where
  -- `while (size > 0)`; none if the fuel runs out.
  unfoldable pub write_all : ℕ → D → List ℕ → Option (Flushed D)
  write_all fuel d [] = some (record { stream = d; complete = true })
  write_all zero d (x ∷ xs) = none
  write_all (suc fuel) d (x ∷ xs) =
      let w = write_some d (x ∷ xs) in
      let rest = write_all fuel w.stream (drop w.transferred (x ∷ xs)) in
      if w.failed then some (record { stream = w.stream; complete = false }) else rest

  -- `overflow` with a put area; `not_eof(eof)` is some character that does not matter.
  unfoldable pub overflow_buffered : Option ℕ → Streambuf D → Option (Result D)
  unfolding write_all
  overflow_buffered c s = elim (write_all (length s.pending) s.stream s.pending) [
    | none ↦ none
    | some f ↦
        if f.complete
        then elim c [
          | none ↦
              some (record { buffer = record s { stream = f.stream; pending = [] }; char = some 0 })
          | some x ↦
              some (record {
                buffer = record s { stream = f.stream; pending = x ∷ [] };
                char = some x;
              })
        ]
        else some (record { buffer = record s { stream = f.stream }; char = none })
  ]

  unfoldable pub overflow : Option ℕ → Streambuf D → Option (Result D)
  unfolding overflow_buffered
  overflow c s =
      if s.unbuffered
      then elim c [
        | none ↦ some (record { buffer = s; char = some 0 })
        | some x ↦
            let w = write_some s.stream (x ∷ []) in
            some (record {
              buffer = record s { stream = w.stream };
              char = if w.failed then none else some x;
            })
      ]
      else overflow_buffered c s

  unfoldable pub sync : Streambuf D → Option (Result D)
  unfolding overflow
  sync s = overflow none s

  -- `std::streambuf::sputc`: a character goes into the put area while there is room.
  unfoldable pub sputc : ℕ → Streambuf D → Option (Result D)
  unfolding overflow
  sputc x s =
      if s.unbuffered || not (ltb (length s.pending) buffer_size)
      then overflow (some x) s
      else some (record { buffer = record s { pending = s.pending ++ x ∷ [] }; char = some x })

  -- `~streambuf_base`: the stream that is left.
  unfoldable pub destroy : Streambuf D → Option D
  unfolding overflow
  destroy s = elim s.pending [
    | [] ↦ some s.stream
    | _ ∷ _ ↦ elim (overflow none s) [ none ↦ none | some r ↦ some r.buffer.stream ]
  ]

  module _ (read_some : D → ℕ → Got D) where
    -- Behind the `sync` of a half-duplex stream.
    unfoldable pub refill : Streambuf D → Result D
    refill s =
        let g = read_some s.stream (buffer_size - putback_max) in
        if s.gptr == s.egptr
        then if g.failed
          then record { buffer = record s { stream = g.stream }; char = none }
          else elim g.bytes [
            | [] ↦ record { buffer = record s { stream = g.stream }; char = none }
            | x ∷ xs ↦ record {
              buffer = record s {
                stream = g.stream;
                get_buffer = x ∷ xs;
                gptr = putback_max;
                egptr = putback_max + length (x ∷ xs);
              };
              char = some x;
            }
          ]
        else record { buffer = s; char = none }

    unfoldable pub underflow : Streambuf D → Option (Result D)
    unfolding sync refill
    underflow s = elim s.duplex_mode [
      | full_duplex ↦ some (refill s)
      | half_duplex ↦ elim (sync s) [ none ↦ none | some r ↦ some (refill r.buffer) ]
    ]

    -- The buffer, and how many characters can be had without waiting.
    unfoldable pub showmanyc : Streambuf D → Option (Streambuf D × ℕ)
    unfolding underflow
    showmanyc s =
        if s.gptr == s.egptr
        then elim (underflow s) [
          | none ↦ none
          | some r ↦ some (r.buffer, r.buffer.egptr - r.buffer.gptr)
        ]
        else some (s, s.egptr - s.gptr)

module _ {D : Type 0} where
  -- `seekoff` in the get area from the current position; false where it gives -1.
  unfoldable pub seekoff : Offset → Streambuf D → Streambuf D × Bool
  seekoff (ahead n) s =
      if n == 0
      then (s, true)
      else if ltb (s.gptr + n) putback_max
      then (s, false)
      else if ltb (s.gptr + n) s.egptr
      then (record s { gptr = s.gptr + n }, true)
      else (s, false)
  seekoff (back n) s =
      if n == 0
      then (s, true)
      else if ltb s.gptr (putback_max + n)
      then (s, false)
      else if ltb (s.gptr - n) s.egptr
      then (record s { gptr = s.gptr - n }, true)
      else (s, false)

  -- `setbuf`; false where it gives a null pointer.
  unfoldable pub setbuf : Bool → ℕ → Streambuf D → Streambuf D × Bool
  setbuf s_is_null n s = elim s.pending [
    | [] ↦
        if s_is_null
        then if n == 0 then (record s { unbuffered = true }, true) else (s, false)
        else (s, false)
    | _ ∷ _ ↦ (s, false)
  ]
