-- ===== src/Framing/Reading.antt =====
-- One call of `ReadFrame`: it ends, and takes exactly one line from the reader.
use jcode_go.Common.{
  ℕ, ◌+◌, ◌≡◌, refl, ap, ◌⊎◌, inl, inr, Bool, true, false, ◌&&◌, [], ◌∷◌, ◌++◌, some, arith, length,
  length-append, ltb, ◌==◌, ==_iff, Bool-cases, if◌then◌else◌,
}
use jcode_go.Errors.{GoError, sentinel, eof, wrap, err_frame_too_large, Result, err}
use jcode_go.Framing.{
  Bytes, exceeds, trim_suffix, read_bytes, read_loop, read_frame, check_line, is_eof, is_empty,
  last_is,
}

-- No byte of the list is `c`.
abbrev pub Free : ℕ → Bytes → Type 0
Free c [] = Unit {0}
Free c (b ∷ bs) = ((b == c) ≡ false) × Free c bs

pub read_bytes-line :
    (line rest : Bytes)
    → Free b'\n' line
    → read_bytes (line ++ b'\n' ∷ rest) ≡ (line ++ b'\n' ∷ [], true, rest)
unfolding read_bytes
read_bytes-line [] rest h = refl
read_bytes-line (b ∷ bs) rest h = rw (h.0, read_bytes-line bs rest h.1)

pub read_bytes-Free : (line : Bytes) → Free b'\n' line → read_bytes line ≡ (line, false, [])
unfolding read_bytes
read_bytes-Free [] h = refl
read_bytes-Free (b ∷ bs) h = rw (h.0, read_bytes-Free bs h.1)

pub last_is-newline : (line : Bytes) → last_is b'\n' (line ++ b'\n' ∷ []) ≡ true
last_is-newline [] = refl
last_is-newline (b ∷ []) = refl
last_is-newline (b ∷ c ∷ cs) = last_is-newline (c ∷ cs)

pub is_empty-newline : (line : Bytes) → is_empty (line ++ b'\n' ∷ []) ≡ false
is_empty-newline [] = refl
is_empty-newline (b ∷ bs) = refl

-- Every input is one line and what follows it, or holds no newline.
pub line_cases :
    (bs : Bytes)
    → Free b'\n' bs
      ⊎ ((line : Bytes) × (rest : Bytes) × (bs ≡ line ++ b'\n' ∷ rest) × Free b'\n' line)
line_cases [] = inl tt
line_cases (b ∷ bs) = elim (Bool-cases (b == b'\n')) [
  | inl e ↦ inr ([], bs, ap (λ c. c ∷ bs) ((==_iff b b'\n').0 e), tt)
  | inr e ↦ elim (line_cases bs) [
    | inl h ↦ inl (e, h)
    | inr (line, rest, p, h) ↦ inr (b ∷ line, rest, ap (◌∷◌ b) p, (e, h))
  ]
]

pub trim_newline : (line : Bytes) → trim_suffix b'\n' (line ++ b'\n' ∷ []) ≡ line
unfolding trim_suffix
trim_newline [] = refl
trim_newline (b ∷ bs) = rw (is_empty-newline bs, trim_newline bs)

-- What `ReadFrame` answers for one line, its newline taken off.
unfoldable pub read_line : (Bytes → Bool) → ℕ → Bytes → Result Bytes
unfolding check_line
read_line is_object max line =
    if exceeds max (length line)
    then err (wrap "frame exceeds the limit" (sentinel err_frame_too_large))
    else check_line is_object max (line ++ b'\n' ∷ [])

module _ (is_object : Bytes → Bool) (max : ℕ) where
  pub read_frame-line :
      (line rest : Bytes) (ending : GoError)
      → Free b'\n' line
      → read_frame is_object max (record { rest = line ++ b'\n' ∷ rest; ending = ending })
        ≡ some (read_line is_object max line, record { rest = rest; ending = ending })
  unfolding read_frame read_loop read_line
  read_frame-line line rest ending h =
      rw (read_bytes-line line rest h, last_is-newline line, is_empty-newline line)
        (ground (arith, length-append line (b'\n' ∷ [])))

  -- What it answers for the bytes before the end of the stream, with no newline among them.
  unfoldable pub read_last : Bytes → GoError → Result Bytes
  unfolding check_line
  read_last line ending =
      if ltb 0 max && ltb (max + 1) (length line)
      then err (wrap "frame exceeds the limit" (sentinel err_frame_too_large))
      else if is_eof ending && is_empty line
      then err (sentinel eof)
      else if is_eof ending
      then check_line is_object max line
      else err ending

  pub read_frame-last :
      (line : Bytes) (ending : GoError)
      → Free b'\n' line
      → read_frame is_object max (record { rest = line; ending = ending })
        ≡ some (read_last line ending, record { rest = []; ending = ending })
  unfolding read_frame read_loop read_last
  read_frame-last line ending h = rw (read_bytes-Free line h) (ground arith)
