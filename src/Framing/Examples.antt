-- ===== src/Framing/Examples.antt =====
-- Frames on concrete bytes.
use jcode_go.Common.{◌≡◌, refl, [], ◌∷◌, ◌++◌, some, map}
use jcode_go.Errors.{sentinel, eof, Result, ok}
use jcode_go.Framing.{Bytes, Reader, read_frame, starts_object, write}
use jcode_go.Framing.Limits.{Advances, Returned, read_frame-IsFrame}
use jcode_go.Framing.Trip.{write_all, read_all, IsObjectText, read_all-write_all}

-- The bytes of `{}` and of `{ }`.
abbrev compact : Bytes
compact = b'{' ∷ b'}' ∷ []

abbrev spaced : Bytes
spaced = b'{' ∷ b' ' ∷ b'}' ∷ []

compact-IsObjectText : IsObjectText starts_object compact
compact-IsObjectText = record { one_line = (refl, (refl, tt)); no_return = refl; decodes = refl }

spaced-IsObjectText : IsObjectText starts_object spaced
spaced-IsObjectText = record {
  one_line = (refl, (refl, (refl, tt)));
  no_return = refl;
  decodes = refl;
}

abbrev stream : Bytes → Reader
stream bytes = record { rest = bytes; ending = sentinel eof }

abbrev two_lines : Bytes
two_lines = compact ++ b'\n' ∷ spaced ++ b'\n' ∷ []

two_lines_written : write_all 3 (compact ∷ spaced ∷ []) ≡ ok two_lines
unfolding write_all write
two_lines_written = refl

read_all-write_all_example :
    read_all starts_object 3 (compact ∷ spaced ∷ []) (stream (two_lines ++ compact))
    ≡ some (map ok (compact ∷ spaced ∷ []), stream compact)
read_all-write_all_example =
    read_all-write_all starts_object 3 (compact ∷ spaced ∷ []) compact two_lines (sentinel eof)
      (compact-IsObjectText, (spaced-IsObjectText, tt)) two_lines_written

read_frame-IsFrame_example :
    (answer : Result Bytes) × (r' : Reader) × (read_frame starts_object 2 (stream two_lines)
      ≡ some (answer, r'))
    × Advances (stream two_lines) r'
    × Returned starts_object 2 answer
read_frame-IsFrame_example = read_frame-IsFrame starts_object 2 (stream two_lines)
