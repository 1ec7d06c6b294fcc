-- ===== src/Framing.antt =====
-- protocol/framing.go: newline-delimited frames. A writer is the bytes handed to it, a reader is
-- the bytes that are still to come with the error that stands behind them. A limit of 0 stands for
-- every non-positive MaxSize, which means no limit. json.Unmarshal enters as the test `is_object`,
-- true of the bytes that decode into a non-nil map.
pub mod Reading
pub mod Limits
pub mod Trip
mod Examples
use jcode_go.Common.{
  ℕ, zero, suc, ◌+◌, Bool, true, false, not, ◌&&◌, ◌||◌, List, [], ◌∷◌, ◌++◌, Option, none, some,
  length, ltb, ◌==◌, if◌then◌else◌,
}
use jcode_go.Errors.{
  GoError, sentinel, wrap, Sentinel, err_invalid_frame, err_malformed_frame, err_frame_too_large,
  eof, Result, ok, err, errors_is,
}

abbrev pub Bytes : Type 0
Bytes = List ℕ

abbrev pub default_max_frame_size : ℕ
default_max_frame_size = 1048576

abbrev pub starts_object : Bytes → Bool
starts_object [] = false
starts_object (b ∷ _) = b == b'{'

-- `e.MaxSize > 0 && size > e.MaxSize`
abbrev pub exceeds : ℕ → ℕ → Bool
exceeds max size = ltb 0 max && ltb max size

-- The bytes that `Write` hands to the underlying writer, for what json.Marshal returned.
unfoldable pub write : ℕ → Result Bytes → Result Bytes
write max (err e) = err e
write max (ok bytes) =
    if not (starts_object bytes)
    then err (wrap "frame must be a JSON object" (sentinel err_invalid_frame))
    else if exceeds max (length bytes)
    then err (wrap "frame size exceeds the limit" (sentinel err_frame_too_large))
    else ok (bytes ++ b'\n' ∷ [])

pub record Reader : Type 0 where
  pub rest : Bytes
  pub ending : GoError

-- `bufio.Reader.ReadBytes('\n')`: the bytes up to the newline, whether it was found, and the rest.
unfoldable pub read_bytes : Bytes → Bytes × Bool × Bytes
read_bytes [] = ([], false, [])
read_bytes (b ∷ bs) =
    let (part, found, rest) = read_bytes bs in
    if b == b'\n' then (b ∷ [], true, bs) else (b ∷ part, found, rest)

-- `err == io.EOF`
abbrev pub is_eof : GoError → Bool
is_eof (sentinel eof) = true
is_eof _ = false

abbrev pub last_is : ℕ → Bytes → Bool
last_is c [] = false
last_is c (b ∷ []) = b == c
last_is c (b ∷ d ∷ ds) = last_is c (d ∷ ds)

abbrev pub is_empty : Bytes → Bool
is_empty [] = true
is_empty (_ ∷ _) = false

-- `bytes.TrimSuffix(frame, []byte{c})`
unfoldable pub trim_suffix : ℕ → Bytes → Bytes
trim_suffix c [] = []
trim_suffix c (b ∷ bs) = if is_empty bs && b == c then [] else b ∷ trim_suffix c bs

-- The `for` loop of `ReadFrame`, with fuel for its rounds: `none` means that the fuel ran out.
unfoldable pub read_loop : ℕ → ℕ → Bytes → Reader → Option (Result Bytes × Reader)
read_loop zero max frame r = none
read_loop (suc fuel) max frame r =
    let (part, found, rest) = read_bytes r.rest in
    let frame' = frame ++ part in
    let r' = record r { rest = rest } in
    let again = read_loop fuel max frame' r' in
    if ltb 0 max && ltb (max + 1) (length frame')
    then some (err (wrap "frame exceeds the limit" (sentinel err_frame_too_large)), r')
    else if not found && is_eof r.ending && is_empty frame'
    then some (err (sentinel eof), r')
    else if not found && not (is_eof r.ending)
    then some (err r.ending, r')
    else if is_empty frame' || last_is b'\n' frame' || (not found && is_eof r.ending)
    then some (ok frame', r')
    else again

-- What `ReadFrame` does with the line that the loop returns.
unfoldable pub check_line : (Bytes → Bool) → ℕ → Bytes → Result Bytes
check_line is_object max line =
    let frame = trim_suffix b'\r' (trim_suffix b'\n' line) in
    if is_empty frame
    then err (wrap "empty frame" (sentinel err_malformed_frame))
    else if exceeds max (length frame)
    then err (wrap "frame exceeds the limit" (sentinel err_frame_too_large))
    else if is_object frame
    then ok frame
    else err (wrap "invalid JSON frame" (sentinel err_malformed_frame))

abbrev pub finish_line :
    (Bytes → Bool) → ℕ → Option (Result Bytes × Reader) → Option (Result Bytes × Reader)
finish_line is_object max none = none
finish_line is_object max (some (err e, r)) = some (err e, r)
finish_line is_object max (some (ok line, r)) = some (check_line is_object max line, r)

abbrev loop_fuel : ℕ
loop_fuel = 1

-- `Decoder.ReadFrame`; `none` would mean that one round of its loop is not enough.
unfoldable pub read_frame : (Bytes → Bool) → ℕ → Reader → Option (Result Bytes × Reader)
read_frame is_object max r = finish_line is_object max (read_loop loop_fuel max [] r)
