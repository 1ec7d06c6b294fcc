-- ===== src/Turn/Causes.antt =====
-- How a turn ends when the bytes of the server do not decode: `DecodeServerFrame` makes the error,
-- `disconnect` hands it to the subscription, and the turn classifies it.
use jcode_go.Common.{
  ℕ, zero, suc, ◌≡◌, ap, ◌∙◌, eq_iff, refl, ◌⊎◌, inl, inr, true, false, String, Option, none, some,
  arith, str_eq,
}
use jcode_go.Errors.{
  GoError, sentinel, wrap, errors_is, err_invalid_frame, err_malformed_frame, Result, ok, err,
  ◌>>=◌,
}
use jcode_go.Observation.{protocol_error}
use jcode_go.Json.Value.{
  pos, negsuc, Json, null, boolean, number, decimal, text, array, object, Fields,
}
use jcode_go.Json.Fields.{get}
use jcode_go.Protocol.Decode.{
  decode_version, decode_reply_to, decode_tag, decode_event, decode_server_frame,
}
use jcode_go.Framing.{Bytes}
use jcode_go.Client.Subscriber.{Subscriber, IsSound, close_listed}
use jcode_go.Client.State.{Client}
use jcode_go.Client.Operations.{disconnect, drop_connection, stays, subscription_error}
use jcode_go.Client.Reader.{round}
use jcode_go.Turn.Result.{turn_result_of_error, is_protocol_error}
use jcode_go.Turn.State.{Turn, finish_terminal}
use jcode_go.Turn.Dispatch.{receive}

abbrev refused : String → GoError
refused m = wrap m (sentinel err_invalid_frame)

decode_version-refused :
    (v : Option Json) (e : GoError) → decode_version v ≡ err e → e ≡ refused "missing or invalid v"
unfolding decode_version
decode_version-refused (some (number (pos (suc n)))) e h = ground arith
decode_version-refused (some (number (pos zero))) e h = ground arith
decode_version-refused (some (number (negsuc n))) e h = ground arith
decode_version-refused (some null) e h = ground arith
decode_version-refused (some (boolean b)) e h = ground arith
decode_version-refused (some (decimal d)) e h = ground arith
decode_version-refused (some (text t)) e h = ground arith
decode_version-refused (some (array xs)) e h = ground arith
decode_version-refused (some (object fs)) e h = ground arith
decode_version-refused none e h = ground arith

decode_reply_to-refused :
    (v : Option Json) (e : GoError) → decode_reply_to v ≡ err e → e ≡ refused "invalid reply_to"
unfolding decode_reply_to
decode_reply_to-refused none e h = cc
decode_reply_to-refused (some null) e h = cc
decode_reply_to-refused (some (number (pos n))) e h = ground arith
decode_reply_to-refused (some (number (negsuc n))) e h = ground arith
decode_reply_to-refused (some (boolean b)) e h = ground arith
decode_reply_to-refused (some (decimal d)) e h = ground arith
decode_reply_to-refused (some (text t)) e h = ground arith
decode_reply_to-refused (some (array xs)) e h = ground arith
decode_reply_to-refused (some (object fs)) e h = ground arith

decode_tag-refused :
    (v : Option Json) (e : GoError) → decode_tag v ≡ err e → e ≡ refused "missing event tag"
unfolding decode_tag
decode_tag-refused none e h = ground arith
decode_tag-refused (some null) e h = ground arith
decode_tag-refused (some (number n)) e h = ground arith
decode_tag-refused (some (boolean b)) e h = ground arith
decode_tag-refused (some (decimal d)) e h = ground arith
decode_tag-refused (some (text kind)) e h = ground arith
decode_tag-refused (some (array xs)) e h = ground arith
decode_tag-refused (some (object fs)) e h = ground arith

decode_tag-text : (v : Option Json) (kind : String) → decode_tag v ≡ ok kind → v ≡ some (text kind)
unfolding decode_tag
decode_tag-text (some (text t)) kind h = ground arith
decode_tag-text none kind h = cc
decode_tag-text (some null) kind h = cc
decode_tag-text (some (number n)) kind h = cc
decode_tag-text (some (boolean b)) kind h = cc
decode_tag-text (some (decimal d)) kind h = cc
decode_tag-text (some (array xs)) kind h = cc
decode_tag-text (some (object fs)) kind h = cc

-- Only the two events with fields of their own are refused by their type.
decode_event-err :
    (kind : String) (fs : Fields) (e : GoError)
    → decode_event kind fs ≡ err e
    → (str_eq kind "hello_ok" ≡ true) ⊎ (str_eq kind "error" ≡ true)
unfolding decode_event
decode_event-err kind fs e h = ground arith

>>=-err :
    {A B : Type 0} (m : Result A) (f : A → Result B) (e : GoError)
    → m >>= f ≡ err e
    → (m ≡ err e) ⊎ ((a : A) × (m ≡ ok a) × (f a ≡ err e))
>>=-err (ok a) f e h = inr (a, refl, h)
>>=-err (err c) f e h = inl (ground arith)

refused-kind :
    (m : String) (e : GoError) → e ≡ refused m → (turn_result_of_error e).kind ≡ protocol_error
unfolding turn_result_of_error is_protocol_error errors_is
refused-kind m e is = rw is refl

malformed-kind :
    (e : GoError)
    → e ≡ wrap "decode server frame" (sentinel err_malformed_frame)
    → (turn_result_of_error e).kind ≡ protocol_error
unfolding turn_result_of_error is_protocol_error errors_is
malformed-kind e is = rw is refl

-- The tag of the frame is one of the two events whose fields are decoded with the frame.
abbrev pub IsTyped : Option Json → Type 0
IsTyped (some (object fs)) =
    (get "ev" fs ≡ some (text "hello_ok")) ⊎ (get "ev" fs ≡ some (text "error"))
IsTyped _ = ⊥

tag_is :
    (v : Option Json) (kind : String)
    → v ≡ some (text kind)
    → (str_eq kind "hello_ok" ≡ true) ⊎ (str_eq kind "error" ≡ true)
    → (v ≡ some (text "hello_ok")) ⊎ (v ≡ some (text "error"))
tag_is v kind is (inl h) = inl (is ∙ ap (λ k. some (text k)) ((eq_iff kind "hello_ok").0 h))
tag_is v kind is (inr h) = inr (is ∙ ap (λ k. some (text k)) ((eq_iff kind "error").0 h))

decode_server_frame-kind :
    (value : Option Json) (e : GoError)
    → decode_server_frame value ≡ err e
    → ((turn_result_of_error e).kind ≡ protocol_error) ⊎ IsTyped value
unfolding decode_server_frame
decode_server_frame-kind (some (object fs)) e h =
    elim (>>=-err (decode_version (get "v" fs)) _ e h) [
      | inl bad ↦ inl (refused-kind _ e (decode_version-refused (get "v" fs) e bad))
      | inr (v, _, h1) ↦ elim (>>=-err (decode_reply_to (get "reply_to" fs)) _ e h1) [
        | inl bad ↦ inl (refused-kind _ e (decode_reply_to-refused (get "reply_to" fs) e bad))
        | inr (reply_to, _, h2) ↦ elim (>>=-err (decode_tag (get "ev" fs)) _ e h2) [
          | inl bad ↦ inl (refused-kind _ e (decode_tag-refused (get "ev" fs) e bad))
          | inr (kind, tag, h3) ↦ elim (>>=-err (decode_event kind fs) _ e h3) [
            | inl bad ↦ inr (
                tag_is (get "ev" fs) kind (decode_tag-text (get "ev" fs) kind tag)
                  (decode_event-err kind fs e bad))
            | inr (event, _, h4) ↦ absurd (cc h4)
          ]
        ]
      ]
    ]
decode_server_frame-kind (some null) e h =
    inl (refused-kind "server frame is not an object" e (ground arith))
decode_server_frame-kind none e h = inl (malformed-kind e (ground arith))
decode_server_frame-kind (some (number n)) e h = inl (malformed-kind e (ground arith))
decode_server_frame-kind (some (boolean b)) e h = inl (malformed-kind e (ground arith))
decode_server_frame-kind (some (decimal d)) e h = inl (malformed-kind e (ground arith))
decode_server_frame-kind (some (text t)) e h = inl (malformed-kind e (ground arith))
decode_server_frame-kind (some (array xs)) e h = inl (malformed-kind e (ground arith))

-- A terminal error on a client that is not ending reaches each subscription that the map lists.
disconnect-subscription_error :
    (c : Client) (e : GoError) (id : ℕ) (s : Subscriber)
    → stays c.state true ≡ false
    → c.subs id ≡ some s
    → IsSound s
    → s.listed ≡ true
    → subscription_error (disconnect c e true) id ≡ e
unfolding disconnect drop_connection subscription_error close_listed
disconnect-subscription_error c e id s up there sound listed =
    ground (arith, up, there, sound, listed)

receive-err :
    (t : Turn) (e : GoError)
    → t.is_over ≡ false
    → (receive t (err e)).0.result ≡ some (turn_result_of_error e)
unfolding receive finish_terminal
receive-err t e o = ground (arith, o)

round-undecodable :
    (parse : Bytes → Option Json) (bytes : Bytes) (c : Client) (e : GoError)
    → decode_server_frame (parse bytes) ≡ err e
    → round parse c (ok bytes) ≡ (disconnect c e true, false)
unfolding round
round-undecodable parse bytes c e bad = rw (round, bad) refl

-- A frame whose bytes do not decode ends the read loop of a client that is not ending, and with it a
-- turn that runs on one of the client's subscriptions: the subscription fails with the very error of
-- the decoder, and the round of the dispatcher that receives it ends the turn with the result for
-- that error, which is protocol_error unless the bytes are an object whose tag is hello_ok or error.
pub round-protocol_error :
    (parse : Bytes → Option Json) (bytes : Bytes) (c : Client) (e : GoError) (id : ℕ)
    (s : Subscriber) (t : Turn)
    → decode_server_frame (parse bytes) ≡ err e
    → stays c.state true ≡ false
    → c.subs id ≡ some s
    → IsSound s
    → s.listed ≡ true
    → t.is_over ≡ false
    → ((round parse c (ok bytes)).1 ≡ false)
      × (subscription_error (round parse c (ok bytes)).0 id ≡ e)
      × ((receive t (err (subscription_error (round parse c (ok bytes)).0 id))).0.result
          ≡ some (turn_result_of_error e))
      × (((turn_result_of_error e).kind ≡ protocol_error) ⊎ IsTyped (parse bytes))
round-protocol_error parse bytes c e id s t bad up there sound listed o =
    let told = disconnect-subscription_error c e id s up there sound listed in
    rw (round-undecodable parse bytes c e bad, told)
      (refl, refl, receive-err t e o, decode_server_frame-kind (parse bytes) e bad)
