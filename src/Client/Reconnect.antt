-- ===== src/Client/Reconnect.antt =====
-- client.go: `Reconnect` and `resume`, while it holds `reconnectMu` and the other goroutines do no
-- more than answer. What an attempt meets is an argument: the end of its wait, the outcome of the
-- factory, and for hello and attach_session the outcome of the write and the case of the select.
pub mod Outcome
mod Examples
use jcode_go.Common.{
  ℕ, zero, suc, ◌+◌, ◌*◌, ◌^◌, Bool, true, false, not, ◌&&◌, List, [], ◌∷◌, ◌++◌, String, Option,
  none, some, codes, ltb, str_eq, if◌then◌else◌,
}
use jcode_go.Errors.{
  GoError, sentinel, message, wrap, err_closed, err_disconnected, err_resume, Result, ok, err,
  ◌>>=◌,
}
use jcode_go.Observation.{Observation, observed, connecting, connected, disconnected, reconnecting}
use jcode_go.Protocol.Event.{
  Event, hello_ok, ok_reply, error, raw_event, unknown_event, ServerFrame,
}
use jcode_go.Client.Options.{Options, ReconnectPolicy}
use jcode_go.Client.State.{Client, emit, set_state, is_closed}
use jcode_go.Client.Operations.{error_kind, begin_request, dispatch_reply}
use jcode_go.Client.Calls.{Waited, replied, told_write, finish_request}
use jcode_go.Client.Handshake.{accept_hello, supports}

-- Of hello and of attach_session: the outcome of the write, and the case of the last select.
pub record Attempt : Type 0 where
  pub interrupted : Option GoError
  pub made : Option GoError
  pub hello_write : Option GoError
  pub hello : Waited
  pub attach_write : Option GoError
  pub attach : Waited

-- `installDecoder`
abbrev pub install_decoder : Client → Client
install_decoder c = record c { wire_open = true }

abbrev is_error : Event → Bool
is_error (error code m provider_code) = true
is_error _ = false

-- What the case of the select supposes: a reply went through the read loop.
abbrev pub delivered : Client → ℕ → Waited → Client
delivered c id (replied f) = dispatch_reply c id f
delivered c id _ = c

abbrev pub answer :
    Option GoError → Waited → String → Client × ℕ → Option (Client × Result ServerFrame)
answer (some e) w req (c, id) = none
answer none w req (c, id) = some (finish_request (delivered (told_write c req none) id w) id req w)

-- `request` by the goroutine that holds `reconnectMu`. Where the write fails it does not return
-- (`none`): `disconnect` waits for that mutex.
unfoldable pub ask :
    Client → String → Option GoError → Waited → Option (Client × Result ServerFrame)
ask c req write w = elim (begin_request c true false) [
  | err e ↦ some (c, err e)
  | ok entered ↦ answer write w req entered
]

abbrev pub resumed : Result ServerFrame → Option GoError
resumed (err e) = some (wrap "resume" (sentinel err_resume))
resumed (ok f) =
    if is_error f.event then some (wrap "server rejected session" (sentinel err_resume)) else none

abbrev pub checked : Option (Client × Result ServerFrame) → Option (Client × Option GoError)
checked none = none
checked (some (c, reply)) = some (c, resumed reply)

-- `resume`
unfoldable pub resume : Client → Option GoError → Waited → Option (Client × Option GoError)
unfolding ask
resume c write w =
    if supports c "attach_session"
    then checked (ask c "attach_session" write w)
    else some (c, some (wrap "resume" (sentinel err_resume)))

abbrev failed_attempt : String → GoError → ℕ → Observation
failed_attempt kind e attempt = record (observed kind) {
  error = codes (error_kind e);
  attempts = attempt;
}

-- The end of an attempt whose transport is open.
abbrev drop_attempt : Client → String → GoError → ℕ → Client × Option GoError
drop_attempt c kind e attempt = (
  emit (set_state (record c { wire_open = false }) disconnected) (failed_attempt kind e attempt),
  some e,
)

abbrev accept_attempt : Client → ℕ → Client × Option GoError
accept_attempt c attempt =
    (emit (set_state c connected) (record (observed "reconnected") { attempts = attempt }), none)

abbrev pub settle_attempt : ℕ → Option (Client × Option GoError) → Option (Client × Option GoError)
settle_attempt attempt none = none
settle_attempt attempt (some (c, none)) = some (accept_attempt c attempt)
settle_attempt attempt (some (c, some e)) = some (drop_attempt c "resume_failed" e attempt)

abbrev pub greeted : Client → Attempt → ℕ → Result Client → Option (Client × Option GoError)
greeted c a attempt (err e) = some (drop_attempt c "reconnect_failed" e attempt)
greeted c a attempt (ok c') = settle_attempt attempt (
    if c'.options.reconnect.resume && not (str_eq c'.session_id "")
    then resume c' a.attach_write a.attach
    else some (c', none))

abbrev pub greet :
    Attempt → ℕ → Option (Client × Result ServerFrame) → Option (Client × Option GoError)
greet a attempt none = none
greet a attempt (some (c, reply)) = greeted c a attempt (reply >>= accept_hello c)

-- One attempt, after its wait; `none` if it does not return.
unfoldable pub try_attempt : Client → Attempt → ℕ → Option (Client × Option GoError)
unfolding ask resume
try_attempt c a attempt = elim a.made [
  | some e ↦ some (emit c (failed_attempt "reconnect_failed" e attempt), some e)
  | none ↦
      greet a attempt (ask (set_state (install_decoder c) connecting) "hello" a.hello_write a.hello)
]

-- `backoff *= 2` on an int64 that is positive; a product that wraps around is negative.
abbrev pub doubled : ℕ → ℕ
doubled b = if ltb (b * 2) (2 ^ 63) then b * 2 else 0

abbrev capped : ℕ → ℕ → ℕ
capped max b = if ltb max b then max else b

unfoldable pub next_backoff : ℕ → ℕ → ℕ
next_backoff max b = if ltb b max then capped max (doubled b) else b

-- The client and the error of `Reconnect`, the calls of the factory and the waits that it made.
pub record Reconnected : Type 0 where
  pub client : Client
  pub cause : Option GoError
  pub tried : ℕ
  pub slept : List ℕ

abbrev or_disconnected : Option GoError → GoError
or_disconnected none = sentinel err_disconnected
or_disconnected (some e) = e

abbrev pub waited : ℕ → Option Reconnected → Option Reconnected
waited d none = none
waited d (some r) = some (record r { slept = d ∷ r.slept })

abbrev pub one_more : Option Reconnected → Option Reconnected
one_more none = none
one_more (some r) = some (record r { tried = r.tried + 1 })

abbrev pub or_again :
    Option (Client × Option GoError)
    → (Client → Option GoError → Option Reconnected)
    → Option Reconnected
or_again none again = none
or_again (some (c, none)) again = some (record { client = c; cause = none; tried = 1; slept = [] })
or_again (some (c, some e)) again = one_more (again c (some e))

-- The loop, with the rounds that are left and the number of the attempt.
unfoldable pub reconnect_loop :
    (ℕ → Attempt) → ℕ → ℕ → ℕ → ℕ → Option GoError → Client → Option Reconnected
reconnect_loop attempts max zero attempt backoff last c =
    some (record { client = c; cause = some (or_disconnected last); tried = 0; slept = [] })
reconnect_loop attempts max (suc left) attempt backoff last c =
    elim (ltb 1 attempt && ltb 0 backoff) [
      | false ↦
          or_again (try_attempt c (attempts attempt) attempt)
            (λ c' e. reconnect_loop attempts max left (attempt + 1) backoff e c')
      | true ↦ elim (attempts attempt).interrupted [
        | some e ↦ some (record {
          client = set_state c disconnected;
          cause = some e;
          tried = 0;
          slept = backoff ∷ [];
        })
        | none ↦ waited backoff (
            or_again (try_attempt c (attempts attempt) attempt) (λ c' e.
              reconnect_loop attempts max left (attempt + 1) (next_backoff max backoff) e c'))
      ]
    ]

-- `Reconnect`, with a factory or without one.
unfoldable pub reconnect : Client → Bool → (ℕ → Attempt) → Option Reconnected
reconnect c configured attempts =
    let policy = c.options.reconnect in
    if not configured
    then some (record {
      client = c;
      cause = some (message "reconnect factory is not configured");
      tried = 0;
      slept = [];
    })
    else if is_closed c.state
    then some (record { client = c; cause = some (sentinel err_closed); tried = 0; slept = [] })
    else reconnect_loop attempts policy.max_backoff policy.max_attempts 1 policy.backoff none
        (set_state c reconnecting)
