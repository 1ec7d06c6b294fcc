-- ===== src/Framing/Trip.antt =====
-- What an `Encoder` writes, a `Decoder` of the same limit reads back.
use jcode_go.Common.{
  ℕ, ◌≡◌, refl, ap, Bool, true, false, List, [], ◌∷◌, ◌++◌, Option, none, some, arith, append_assoc,
  map, All,
}
use jcode_go.Errors.{GoError, Result, ok, ◌>>=◌, >>=-ok}
use jcode_go.Framing.{Bytes, Reader, write, read_frame, check_line, trim_suffix, last_is}
use jcode_go.Framing.Reading.{Free, read_line, read_frame-line, trim_newline}

-- `Write` for each value in turn: the bytes that reach the stream.
unfoldable pub write_all : ℕ → List Bytes → Result Bytes
write_all max [] = ok []
write_all max (value ∷ values) = do
  bytes ← write max (ok value)
  more ← write_all max values
  ok (bytes ++ more)

-- `ReadFrame` once for each of `n` expected frames.
unfoldable pub read_all :
    (Bytes → Bool) → ℕ → List Bytes → Reader → Option (List (Result Bytes) × Reader)
read_all is_object max [] r = some ([], r)
read_all is_object max (_ ∷ expected) r = elim (read_frame is_object max r) [
  | none ↦ none
  | some (answer, r') ↦ elim (read_all is_object max expected r') [
    | none ↦ none
    | some (answers, r'') ↦ some (answer ∷ answers, r'')
  ]
]

-- What json.Marshal is sure to return for a struct or a map: one line, with no carriage return
-- at its end, that decodes as an object again.
pub record IsObjectText (is_object : Bytes → Bool) (value : Bytes) : Type 0 where
  pub one_line : Free b'\n' value
  pub no_return : last_is b'\r' value ≡ false
  pub decodes : is_object value ≡ true

trim_suffix-of_last : (c : ℕ) (bs : Bytes) → last_is c bs ≡ false → trim_suffix c bs ≡ bs
unfolding trim_suffix
trim_suffix-of_last c [] h = refl
trim_suffix-of_last c (b ∷ []) h = rw h
trim_suffix-of_last c (b ∷ d ∷ ds) h = ap (◌∷◌ b) (trim_suffix-of_last c (d ∷ ds) h)

pub append_split :
    (first more tail : Bytes) {bytes : Bytes}
    → ◌≡◌ {A = Result Bytes} (ok (first ++ more)) (ok bytes)
    → bytes ++ tail ≡ first ++ (more ++ tail)
append_split first more tail e = cc (append_assoc first more tail)

module _ (is_object : Bytes → Bool) (max : ℕ) where
  write-read_line :
      (value : Bytes) {bytes : Bytes}
      → IsObjectText is_object value
      → write max (ok value) ≡ ok bytes
      → (bytes ≡ value ++ b'\n' ∷ []) × (read_line is_object max value ≡ ok value)
  unfolding write read_line check_line
  write-read_line value t e =
      ground (arith, trim_newline value, trim_suffix-of_last b'\r' value t.no_return)

  -- One frame.
  pub read_frame-write :
      (value tail : Bytes) {bytes : Bytes} (ending : GoError)
      → IsObjectText is_object value
      → write max (ok value) ≡ ok bytes
      → read_frame is_object max (record { rest = bytes ++ tail; ending = ending })
        ≡ some (ok value, record { rest = tail; ending = ending })
  read_frame-write value tail ending t e =
      let (same, answer) = write-read_line value t e in
      rw (same, append_assoc, read_frame-line is_object max value tail ending t.one_line, answer)

  -- Frames written one after the other are read back one by one, in order and unchanged, and the
  -- reader then stands at what follows them.
  pub read_all-write_all :
      (values : List Bytes) (tail bytes : Bytes) (ending : GoError)
      → All (IsObjectText is_object) values
      → write_all max values ≡ ok bytes
      → read_all is_object max values (record { rest = bytes ++ tail; ending = ending })
        ≡ some (map ok values, record { rest = tail; ending = ending })
  unfolding write_all read_all
  read_all-write_all [] tail bytes ending h e = ground arith
  read_all-write_all (value ∷ values) tail bytes ending h e =
      let (first, wrote, later) = >>=-ok (write max (ok value)) _ e in
      let (more, wrote_more, joined) = >>=-ok (write_all max values) _ later in
      rw (
        append_split first more tail joined,
        read_frame-write value (more ++ tail) ending h.0 wrote,
        read_all-write_all values tail more ending h.1 wrote_more,
        read_all,
      )
