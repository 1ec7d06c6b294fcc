-- ===== src/Common/Channel.antt =====
-- Go's channels as the program uses them: `Signal` is a channel of empty structs that is only ever
-- closed, and a second close of it panics.

pub data Signal : Type 0 where
  pending closed panicked : Signal

-- `close(ch)`
abbrev pub close : Signal → Signal
close pending = closed
close closed = panicked
close panicked = panicked
