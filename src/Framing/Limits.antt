-- ===== src/Framing/Limits.antt =====
-- What a frame that `ReadFrame` returns is sure to be, whatever the stream holds.
use jcode_go.Common.{
  ℕ, ◌≡◌, refl, sym, ◌⊎◌, inl, inr, Bool, true, false, ◌&&◌, [], ◌∷◌, ◌++◌, some, some, arith,
  length, ◌==◌, Bool-cases,
}
use mathlib.Core.Path.{subst}
use jcode_go.Errors.{GoError, Result, ok, err}
use jcode_go.Framing.{Bytes, Reader, read_frame, check_line, trim_suffix, is_empty, exceeds}
use jcode_go.Framing.Reading.{
  Free, line_cases, read_line, read_last, read_frame-line, read_frame-last, trim_newline,
}

-- A frame is not empty, holds no newline, keeps within a positive limit and decodes as an object.
pub record IsFrame (is_object : Bytes → Bool) (max : ℕ) (frame : Bytes) : Type 0 where
  pub filled : is_empty frame ≡ false
  pub one_line : Free b'\n' frame
  pub within : exceeds max (length frame) ≡ false
  pub decodes : is_object frame ≡ true

abbrev pub Returned : (Bytes → Bool) → ℕ → Result Bytes → Type 0
Returned is_object max (ok frame) = IsFrame is_object max frame
Returned is_object max (err e) = Unit

-- The reader went over one line, or over all that was left.
abbrev pub Advances : Reader → Reader → Type 0
Advances r r' =
    (r'.ending ≡ r.ending)
    × (((line : Bytes) × (r.rest ≡ line ++ b'\n' ∷ r'.rest) × Free b'\n' line)
        ⊎ ((r'.rest ≡ []) × Free b'\n' r.rest))

Free-trim_suffix : (c d : ℕ) (bs : Bytes) → Free c bs → Free c (trim_suffix d bs)
unfolding trim_suffix
Free-trim_suffix c d [] h = tt
Free-trim_suffix c d (b ∷ bs) h = elim (Bool-cases (is_empty bs && b == d)) [
  | inl e ↦ rw e tt
  | inr e ↦ rw e (h.0, Free-trim_suffix c d bs h.1)
]

abbrev stripped : Bytes → Bytes
stripped line = trim_suffix b'\r' (trim_suffix b'\n' line)

module _ (is_object : Bytes → Bool) (max : ℕ) where
  check_line-eq-ok :
      (line frame : Bytes)
      → check_line is_object max line ≡ ok frame
      → (stripped line ≡ frame)
        × (is_empty frame ≡ false)
        × (exceeds max (length frame) ≡ false)
        × (is_object frame ≡ true)
  unfolding check_line
  check_line-eq-ok line frame e = ground arith

  check_line-IsFrame :
      (line frame : Bytes)
      → Free b'\n' (stripped line)
      → check_line is_object max line ≡ ok frame
      → IsFrame is_object max frame
  check_line-IsFrame line frame h e =
      let (same, filled, within, decodes) = check_line-eq-ok line frame e in
      record {
        filled = filled;
        one_line = subst (Free b'\n') same h;
        within = within;
        decodes = decodes;
      }

  read_line-IsFrame :
      (line frame : Bytes)
      → Free b'\n' line
      → read_line is_object max line ≡ ok frame
      → IsFrame is_object max frame
  unfolding read_line
  read_line-IsFrame line frame h e = ground (
    arith,
    check_line-IsFrame (line ++ b'\n' ∷ []) frame
        (rw (trim_newline line) (Free-trim_suffix b'\n' b'\r' line h)),
  )

  read_last-IsFrame :
      (line frame : Bytes) (ending : GoError)
      → Free b'\n' line
      → read_last is_object max line ending ≡ ok frame
      → IsFrame is_object max frame
  unfolding read_last
  read_last-IsFrame line frame ending h e = ground (
    arith,
    check_line-IsFrame line frame (
        Free-trim_suffix b'\n' b'\r' (trim_suffix b'\n' line)
          (Free-trim_suffix b'\n' b'\n' line h)),
  )

  Returned-all :
      (answer : Result Bytes)
      → ((frame : Bytes) → answer ≡ ok frame → IsFrame is_object max frame)
      → Returned is_object max answer
  Returned-all (ok frame) h = h frame refl
  Returned-all (err e) h = tt

  -- Every call ends after one round of its loop, takes one line (or what is left) from the reader
  -- whatever it answers, and what it returns is a frame.
  pub read_frame-IsFrame :
      (r : Reader)
      → (answer : Result Bytes) × (r' : Reader) × (read_frame is_object max r ≡ some (answer, r'))
        × Advances r r'
        × Returned is_object max answer
  read_frame-IsFrame r = elim (line_cases r.rest) [
    | inl h ↦ (
      read_last is_object max r.rest r.ending,
      record { rest = []; ending = r.ending },
      read_frame-last is_object max r.rest r.ending h,
      (refl, inr (refl, h)),
      Returned-all _ (λ frame. read_last-IsFrame r.rest frame r.ending h),
    )
    | inr (line, rest, p, h) ↦ (
      read_line is_object max line,
      record { rest = rest; ending = r.ending },
      subst
          (λ bytes.
            read_frame is_object max (record { rest = bytes; ending = r.ending })
            ≡ some (read_line is_object max line, record { rest = rest; ending = r.ending }))
          (sym p) (read_frame-line is_object max line rest r.ending h),
      (refl, inl (line, p, h)),
      Returned-all _ (λ frame. read_line-IsFrame line frame h),
    )
  ]
