-- ===== src/Transport.antt =====
-- transport/transport.go: the close of `Safe` and of `Pipe`, which happens once, and the frames that
-- `FakeServer` sends. What the close below answers is an argument.
use jcode_go.Common.{
  ℕ, ◌+◌, Bool, true, false, List, [], ◌∷◌, ◌++◌, Option, none, ◌==◌, if◌then◌else◌,
}
use jcode_go.Errors.{GoError}

-- `closes` counts the closes of the transport below.
pub record Safe : Type 0 where
  pub once : Bool
  pub err : Option GoError
  pub closes : ℕ

-- `NewSafe`
unfoldable pub new_safe : Safe
new_safe = record { once = false; err = none; closes = 0 }

-- `Safe.Close`: the new state and what it returns.
unfoldable pub close_safe : Safe → Option GoError → Safe × Option GoError
close_safe s outcome =
    if s.once
    then (s, s.err)
    else (record { once = true; err = outcome; closes = s.closes + 1 }, outcome)

-- `Pipe.Close`: a second close returns no error.
pub record Pipe : Type 0 where
  pub pipe_once : Bool
  pub pipe_closes : ℕ

unfoldable pub close_pipe : Pipe → Option GoError → Pipe × Option GoError
close_pipe p outcome =
    if p.pipe_once
    then (p, none)
    else (record { pipe_once = true; pipe_closes = p.pipe_closes + 1 }, outcome)

ends_with_newline : List ℕ → Bool
ends_with_newline [] = false
ends_with_newline (b ∷ []) = b == 10
ends_with_newline (b ∷ c ∷ raw) = ends_with_newline (c ∷ raw)

-- `FakeServer.Send`: the bytes that it writes.
unfoldable pub sent_frame : List ℕ → List ℕ
unfolding ends_with_newline
sent_frame raw = if ends_with_newline raw then raw else raw ++ 10 ∷ []
