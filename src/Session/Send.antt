-- ===== src/Session/Send.antt =====
-- session.go: `Session.Send`, with the client's `Subscribe` and `Notify`.
mod Examples
use jcode_go.Common.{
  ℕ, ◌≡◌, refl, sym, ap, ◌∙◌, inl, inr, Bool, false, List, [], ◌∷◌, ◌++◌, String, Option, none,
  some, str_eq, arith, ==_iff, Bool-cases, Option-cases, eq_iff, if◌then◌else◌,
}
use jcode_go.Errors.{GoError, event_error, Result, ok, err}
use jcode_go.Protocol.Event as Wire
use jcode_go.Protocol.Event.{hello_ok, ok_reply, error, raw_event, unknown_event}
use jcode_go.Protocol.Request.{RawRequest}
use jcode_go.Session.TypedEvent.{Event}
use jcode_go.Session.Sending.{SendOptions, validate_send_options, new_send_message_request}
use jcode_go.Client.Subscriber.{Subscriber, close_listed, close_subscriber}
use jcode_go.Client.State.{Client}
use jcode_go.Client.Calls.{notify}
use jcode_go.Client.Operations.{subscribe_owned, unsubscribe, bump}

abbrev typed_error : Wire.Event → Option (Result (Unit {0})) → Option (Result (Unit {0}))
typed_error (error code m provider_code) otherwise = some (err (event_error code m provider_code))
typed_error _ otherwise = otherwise

-- The loop of `Send`, on what its subscription delivers; `none` means that it still waits.
unfoldable pub send_loop : List (Result Event) → Option (Result (Unit {0}))
send_loop [] = none
send_loop (err e ∷ inputs) = some (err e)
send_loop (ok e ∷ inputs) =
    let rest = send_loop inputs in
    if str_eq e.kind "message_accepted"
    then some (ok tt)
    else if str_eq e.kind "error"
    then typed_error e.frame.event rest
    else rest

-- What the world does in the course of a call: the outcome of the write, the steps that others take
-- on the client until the call ends, and what the subscription delivers.
pub record Course : Type 0 where
  pub outcome : Option GoError
  pub meanwhile : Client → Client
  pub inputs : List (Result Event)

abbrev reported : Option GoError → Result (Unit {0})
reported none = ok tt
reported (some e) = err e

-- `defer sub.Close()`, for a loop that returns.
abbrev leave : ℕ → Client → Option (Result (Unit {0})) → Client × Option (Result (Unit {0}))
leave id c none = (c, none)
leave id c (some r) = (unsubscribe c id, some r)

-- The subscription, the notification and the loop.
unfoldable pub send_and_wait : Client → Course → Client × Option (Result (Unit {0}))
unfolding send_loop notify subscribe_owned unsubscribe
send_and_wait c w =
    let (subscribed, id) = subscribe_owned c c.options.event_buffer false in
    let (told, failure) = notify subscribed "send_message" w.outcome in
    elim failure [
      | some e ↦ leave id told (some (err e))
      | none ↦ leave id (w.meanwhile told) (send_loop w.inputs)
    ]

abbrev no_wait : Client × Option GoError → Client × Option (Result (Unit {0}))
no_wait (c, e) = (c, some (reported e))

-- `Send`, after the checks of its options and the encoding of its request.
abbrev sent :
    Bool
    → Client
    → Course
    → Result (Unit {0})
    → Result RawRequest
    → Client × Option (Result (Unit {0}))
sent no_reply c w (err e) req = (c, some (err e))
sent no_reply c w (ok valid) (err e) = (c, some (err e))
sent no_reply c w (ok valid) (ok req) =
    if no_reply then no_wait (notify c "send_message" w.outcome) else send_and_wait c w

-- `Send`. The instant of the call is `now`, and `parse` reads the deadline.
unfoldable pub send :
    (String → Option ℕ)
    → ℕ
    → String
    → Client
    → String
    → SendOptions
    → Course
    → Client × Option (Result (Unit {0}))
unfolding send_and_wait
send parse now session c content o w =
    sent o.no_reply c w (validate_send_options parse o now)
      (new_send_message_request session content o)

-- The subscription has left the client's map.
abbrev pub IsUnlisted : Option Subscriber → Type 0
IsUnlisted none = Unit
IsUnlisted (some s) = s.listed ≡ false

close_listed-unlisted : (s : Subscriber) → (close_listed none s).listed ≡ false
unfolding close_listed close_subscriber
close_listed-unlisted s = ground arith

unsubscribe-IsUnlisted : (c : Client) (id : ℕ) → IsUnlisted ((unsubscribe c id).subs id)
unfolding unsubscribe
unsubscribe-IsUnlisted c id = elim (Option-cases (c.subs id)) [
  | inl h ↦ ground (arith, h, ==_iff id id)
  | inr (s, h) ↦ ground (arith, h, ==_iff id id, close_listed-unlisted s)
]

-- The message was accepted before an error ended the subscription.
abbrev pub IsAccepted : List (Result Event) → Type 0
IsAccepted inputs =
    (before : List (Result Event)) × (e : Event) × (after : List (Result Event)) × (inputs
      ≡ before ++ ok e ∷ after)
    × (e.kind ≡ "message_accepted")

IsAccepted-later :
    (i : Result Event) (inputs : List (Result Event)) → IsAccepted inputs → IsAccepted (i ∷ inputs)
IsAccepted-later i inputs (before, e, after, is, k) = (i ∷ before, e, after, ap (λ l. i ∷ l) is, k)

typed_error-ok :
    (b : Bool) (v : Wire.Event) (rest : Option (Result (Unit {0})))
    → (if b then typed_error v rest else rest) ≡ some (ok tt)
    → rest ≡ some (ok tt)
typed_error-ok b v rest h = ground arith

send_loop-IsAccepted :
    (inputs : List (Result Event)) → send_loop inputs ≡ some (ok tt) → IsAccepted inputs
unfolding send_loop
send_loop-IsAccepted [] h = cc
send_loop-IsAccepted (err e ∷ inputs) h = ground arith
send_loop-IsAccepted (ok e ∷ inputs) h = elim (Bool-cases (str_eq e.kind "message_accepted")) [
  | inl k ↦ ([], e, inputs, refl, (eq_iff e.kind "message_accepted").0 k)
  | inr k ↦ IsAccepted-later (ok e) inputs (
      send_loop-IsAccepted inputs
        (typed_error-ok (str_eq e.kind "error") e.frame.event (send_loop inputs) (rw k at h)))
]

leave-IsUnlisted :
    (id : ℕ) (c : Client) (l : Option (Result (Unit {0}))) {c' : Client} {r : Result (Unit {0})}
    → leave id c l ≡ (c', some r)
    → IsUnlisted (c'.subs id) × (l ≡ some r)
leave-IsUnlisted id c none h = cc
leave-IsUnlisted id c (some r) {c'} h =
    (rw (sym (ap (λ p. p.0) h)) (unsubscribe-IsUnlisted c id), ap (λ p. p.1) h)

notify-written :
    (c : Client) (req : String) (outcome : Option GoError)
    → (notify c req outcome).1 ≡ none
    → outcome ≡ none
unfolding notify
notify-written c req outcome h = ground arith

send_and_wait-IsUnlisted :
    (c : Client) (w : Course) {c' : Client} {r : Result (Unit {0})}
    → send_and_wait c w ≡ (c', some r)
    → IsUnlisted (c'.subs (bump c.next_sub))
      × (r ≡ ok tt → (w.outcome ≡ none) × IsAccepted w.inputs)
unfolding send_and_wait subscribe_owned
send_and_wait-IsUnlisted c w {c'} {r} h =
    let told = notify (subscribe_owned c c.options.event_buffer false).0 "send_message" w.outcome in
    elim (Option-cases told.1) [
      | inl n ↦
          let (u, is) = leave-IsUnlisted (bump c.next_sub) _ (send_loop w.inputs) (rw n at h) in
          (
            u,
            λ k. (
              notify-written _ "send_message" w.outcome n,
              send_loop-IsAccepted w.inputs (is ∙ ap (λ x. some x) k),
            ),
          )
      | inr (e, n) ↦
          let (u, is) = leave-IsUnlisted (bump c.next_sub) _ (some (err e)) (rw n at h) in
          (u, λ k. ground (arith, is, k))
    ]

send-send_and_wait :
    (parse : String → Option ℕ) (now : ℕ) (session : String) (c : Client) (content : String)
    (o : SendOptions) (w : Course) {req : RawRequest}
    → validate_send_options parse o now ≡ ok tt
    → new_send_message_request session content o ≡ ok req
    → o.no_reply ≡ false
    → send parse now session c content o w ≡ send_and_wait c w
unfolding send
send-send_and_wait parse now session c content o w valid is reply = simp (valid, is, reply)

-- A `Send` that asks for a reply and returns has taken its subscription out of the client's map,
-- whatever others did to the client in the meantime; and it reports success only if the message was
-- written and the subscription delivered its acceptance.
pub send-IsUnlisted :
    (parse : String → Option ℕ) (now : ℕ) (session : String) (c : Client) (content : String)
    (o : SendOptions) (w : Course) {req : RawRequest} {c' : Client} {r : Result (Unit {0})}
    → validate_send_options parse o now ≡ ok tt
    → new_send_message_request session content o ≡ ok req
    → o.no_reply ≡ false
    → send parse now session c content o w ≡ (c', some r)
    → IsUnlisted (c'.subs (bump c.next_sub))
      × (r ≡ ok tt → (w.outcome ≡ none) × IsAccepted w.inputs)
send-IsUnlisted parse now session c content o w valid is reply h =
    send_and_wait-IsUnlisted c w
      (sym (send-send_and_wait parse now session c content o w valid is reply) ∙ h)
