-- ===== src/Client/Reader.antt =====
-- client.go: `readLoop` on one decoder. json.Unmarshal is the parameter `parse`: the value that the
-- bytes of a frame denote, `none` for bytes that are no JSON.
use mathlib.Core.Path.{subst}
use jcode_go.Common.{
  ℕ, zero, suc, ◌+◌, ◌<◌, ◌≡◌, refl, sym, ap, ◌∙◌, ◌⊎◌, inl, inr, Bool, true, false, ◌||◌, List, [],
  ◌∷◌, ◌++◌, Option, none, some, arith, length, length-append, map, All, Bool-cases, if◌then◌else◌,
}
use jcode_go.Errors.{
  GoError, sentinel, eof, errors_is, err_malformed_frame, err_frame_too_large, Result, ok, err,
  >>=-ok,
}
use jcode_go.Json.Value.{Json, object}
use jcode_go.Framing.{Bytes, Reader, read_frame, check_line, is_eof, write}
use jcode_go.Framing.Reading.{read_last, read_frame-last}
use jcode_go.Framing.Limits.{read_frame-IsFrame, Advances}
use jcode_go.Framing.Trip.{write_all, IsObjectText, read_frame-write, append_split}
use jcode_go.Protocol.Event.{ServerFrame, event_kind, fields_json}
use jcode_go.Protocol.Decode.{decode_server_frame}
use jcode_go.Session.TypedEvent.{Event}
use jcode_go.Client.State.{Client}
use jcode_go.Client.Operations.{dispatch_reply, dispatch_event, disconnect, is_ending}

abbrev pub event_of : ServerFrame → Event
event_of f = record { frame = f; kind = event_kind f.event; fields = fields_json f.event }

unfoldable pub handle_frame : Client → ServerFrame → Client
handle_frame c f = elim f.reply_to [
  | some id ↦ dispatch_reply c id f
  | none ↦ dispatch_event c (event_of f)
]

unfoldable pub read_failed : Client → GoError → Client
read_failed c e =
    if is_ending c.state
    then c
    else disconnect c e (errors_is e err_malformed_frame || errors_is e err_frame_too_large)

abbrev pub is_object_value : Option Json → Bool
is_object_value (some (object fs)) = true
is_object_value _ = false

-- The client after a round, and whether the loop goes on.
unfoldable pub round : (Bytes → Option Json) → Client → Result Bytes → Client × Bool
round parse c (err e) = (read_failed c e, false)
round parse c (ok bytes) = elim (decode_server_frame (parse bytes)) [
  | err e ↦ (disconnect c e true, false)
  | ok f ↦ (handle_frame c f, true)
]

empty-cases : (bytes : Bytes) → (bytes ≡ []) ⊎ (0 < length bytes)
empty-cases [] = inl refl
empty-cases (b ∷ bs) = inr (ground arith)

shorter : (r r' : Reader) → Advances r r' → 0 < length r.rest → length r'.rest < length r.rest
shorter r r' (same, inl (line, p, free)) h =
    omega (arith, ap length p, length-append line (b'\n' ∷ r'.rest))
shorter r r' (same, inr (p, free)) h = ground (arith, ap length p)

abbrev go_on : (Client → Option Client) → Client × Bool → Option Client
go_on next (c, true) = next c
go_on next (c, false) = some c

-- The loop with fuel for its rounds; `none` means that the fuel ran out.
unfoldable pub read_loop : (Bytes → Option Json) → ℕ → ℕ → Reader → Client → Option Client
read_loop parse zero max r c = none
read_loop parse (suc fuel) max r c = elim (read_frame (λ b. is_object_value (parse b)) max r) [
  | none ↦ none
  | some (answer, r') ↦ go_on (read_loop parse fuel max r') (round parse c answer)
]

go_on_returns :
    (next : Client → Option Client) (p : Client × Bool)
    → ((c : Client) → (c' : Client) × (next c ≡ some c'))
    → (c' : Client) × (go_on next p ≡ some c')
go_on_returns next (c, true) h = h c
go_on_returns next (c, false) h = (c, refl)

pub handle_all : Client → List ServerFrame → Client
handle_all c [] = c
handle_all c (f ∷ fs) = handle_all (handle_frame c f) fs

module _ (parse : Bytes → Option Json) (max : ℕ) where
  abbrev is_object : Bytes → Bool
  is_object b = is_object_value (parse b)

  loop_round :
      (fuel : ℕ) (r r' : Reader) (c : Client) (answer : Result Bytes)
      → read_frame is_object max r ≡ some (answer, r')
      → read_loop parse (suc fuel) max r c
        ≡ go_on (read_loop parse fuel max r') (round parse c answer)
  unfolding read_loop
  loop_round fuel r r' c answer h = rw (read_loop, h) refl

  -- A call at the end of the stream fails, and any other call leaves fewer bytes.
  abbrev Shrinks : Reader → Type 0
  Shrinks r =
      (answer : Result Bytes) × (r' : Reader) × (read_frame is_object max r ≡ some (answer, r'))
      × (((e : GoError) × (answer ≡ err e)) ⊎ (length r'.rest < length r.rest))

  read_last-empty : (ending : GoError) → (e : GoError) × (read_last is_object max [] ending ≡ err e)
  unfolding read_last check_line
  read_last-empty ending = elim (Bool-cases (is_eof ending)) [
    | inl h ↦ (sentinel eof, ground arith)
    | inr h ↦ (ending, ground arith)
  ]

  shrinks : (r : Reader) → Shrinks r
  shrinks r = elim (empty-cases r.rest) [
    | inl h ↦
        let (e, fails) = read_last-empty r.ending in
        (
          err e,
          record { rest = []; ending = r.ending },
          subst
              (λ bytes.
                read_frame is_object max (record { rest = bytes; ending = r.ending })
                ≡ some (err e, record { rest = []; ending = r.ending }))
              (sym h)
              (read_frame-last is_object max [] r.ending tt
                ∙ ap (λ a. some (a, record { rest = []; ending = r.ending })) fails),
          inl (e, refl),
        )
    | inr h ↦
        let (answer, r', is, advances, _) = read_frame-IsFrame is_object max r in
        (answer, r', is, inr (shorter r r' advances h))
  ]

  round-err : (c : Client) (e : GoError) → round parse c (err e) ≡ (read_failed c e, false)
  unfolding round
  round-err c e = refl

  -- With one round of fuel more than there are bytes, `readLoop` returns, whatever the bytes are.
  pub read_loop_returns :
      (fuel : ℕ) (r : Reader) (c : Client)
      → length r.rest < fuel
      → (c' : Client) × (read_loop parse fuel max r c ≡ some c')
  read_loop_returns zero r c h = absurd (omega arith)
  read_loop_returns (suc fuel) r c h =
      let (answer, r', is, less) = shrinks r in
      let same = loop_round fuel r r' c answer is in
      elim less [
        | inl (e, fails) ↦ (
          read_failed c e,
          same
              ∙ (ap (λ a. go_on (read_loop parse fuel max r') (round parse c a)) fails
                  ∙ ap (go_on (read_loop parse fuel max r')) (round-err c e)),
        )
        | inr l ↦
            let (c', rest) =
              go_on_returns (read_loop parse fuel max r') (round parse c answer)
                (λ d. read_loop_returns fuel r' d (omega arith)) in
            (c', same ∙ rest)
      ]

  round-ok :
      (c : Client) (bytes : Bytes) (f : ServerFrame)
      → decode_server_frame (parse bytes) ≡ ok f
      → round parse c (ok bytes) ≡ (handle_frame c f, true)
  unfolding round
  round-ok c bytes f h = rw (round, h) refl

  -- What a frame's bytes are, and what they decode into.
  abbrev pub Carries : Bytes × ServerFrame → Type 0
  Carries (bytes, f) = IsObjectText is_object bytes × (decode_server_frame (parse bytes) ≡ ok f)

  -- Frames that an encoder of the same limit wrote reach the client one by one and in order, each
  -- decoded and dispatched as it was written, and the loop then goes on at what follows them.
  pub read_loop-write_all :
      (sent : List (Bytes × ServerFrame)) (tail bytes : Bytes) (ending : GoError) (c : Client)
      (fuel : ℕ)
      → All Carries sent
      → write_all max (map (λ s. s.0) sent) ≡ ok bytes
      → read_loop parse
          (length sent + fuel)
          max
          (record { rest = bytes ++ tail; ending = ending })
          c
        ≡ read_loop parse fuel max
            (record { rest = tail; ending = ending })
            (handle_all c (map (λ s. s.1) sent))
  unfolding write_all handle_all
  read_loop-write_all [] tail bytes ending c fuel h e = ground arith
  read_loop-write_all ((value, f) ∷ sent) tail bytes ending c fuel h e =
      let (first, wrote, later) = >>=-ok (write max (ok value)) _ e in
      let (more, wrote_more, joined) = >>=-ok (write_all max (map (λ s. s.0) sent)) _ later in
      let stream : Bytes → Reader = λ b. record { rest = b; ending = ending } in
      let count : suc (length sent) + fuel ≡ suc (length sent + fuel) = omega arith in
      ap (λ n. read_loop parse n max (stream (bytes ++ tail)) c) count
      ∙ (ap (λ b. read_loop parse (suc (length sent + fuel)) max (stream b) c)
            (append_split first more tail joined)
          ∙ (loop_round (length sent + fuel) (stream (first ++ (more ++ tail)))
                (stream (more ++ tail)) c (ok value)
                (read_frame-write is_object max value (more ++ tail) ending h.0.0 wrote)
              ∙ (ap (go_on (read_loop parse (length sent + fuel) max (stream (more ++ tail))))
                    (round-ok c value f h.0.1)
                  ∙ read_loop-write_all sent tail more ending (handle_frame c f) fuel h.1
                      wrote_more)))
