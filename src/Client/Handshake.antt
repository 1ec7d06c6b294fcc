-- ===== src/Client/Handshake.antt =====
-- client.go: `handshake` on the reply to hello, the rest of `NewClient`, and the capabilities.
use jcode_go.Common.{
  ◌≡◌, ◌≢◌, refl, ◌⊎◌, inl, inr, Bool, false, List, String, Option, none, some, Bool-cases, ==_iff,
  codes, ◌==◌, if◌then◌else◌,
}
use jcode_go.Errors.{
  GoError, sentinel, message, wrap, err_closed, err_capability, Result, ok, err, ◌>>=◌,
}
use jcode_go.Json.Value.{ℤ, pos, negsuc}
use jcode_go.Observation.{State, connected, observed}
use jcode_go.Observation as Obs
use jcode_go.Protocol.Event.{
  Event, hello_ok, ok_reply, error, raw_event, unknown_event, ServerFrame, member_of,
}
use jcode_go.Client.State.{Client, emit, set_state}
use jcode_go.Client.Operations.{close_with, begin_close}
use jcode_go.Client.Ownership.{close_with-first}
use jcode_go.Client.Closing.{close_sections_kept}

-- `protocol.IsCompatibleVersion`
abbrev pub is_compatible_version : ℤ → Bool
is_compatible_version (pos n) = n == 1
is_compatible_version (negsuc n) = false

-- `handshake`, for the frame that answers hello.
unfoldable pub accept_hello : Client → ServerFrame → Result Client
accept_hello c f = elim f.event [
  | error code m provider_code ↦ err (message "hello failed")
  | hello_ok version server capabilities ↦
      if is_compatible_version version
      then ok (record c { capabilities = capabilities })
      else err (message "unsupported server API version")
  | ok_reply ↦ err (message "unexpected hello reply")
  | raw_event kind fields ↦ err (message "unexpected hello reply")
  | unknown_event kind fields ↦ err (message "unexpected hello reply")
]

unfoldable pub finish_connect : Client → Result Client → Client × Option GoError
finish_connect c (ok c') = (emit (set_state c' connected) (observed "connect_ready"), none)
finish_connect c (err e) = (
  close_with (emit c (record (observed "connect_error") { error = codes "handshake_failed" }))
      (sentinel err_closed),
  some e,
)

-- `NewClient`, for what its request hello returned.
unfoldable pub connect : Client → Result ServerFrame → Client × Option GoError
connect c reply = finish_connect c (reply >>= accept_hello c)

-- `Supports`
unfoldable pub supports : Client → String → Bool
supports c capability = member_of capability c.capabilities

-- `RequireCapability`
unfoldable pub require_capability : Client → String → Result (Unit {0})
require_capability c capability =
    if supports c capability then ok tt else err (wrap "" (sentinel err_capability))

-- `NewClient` returned the error and left the client closed.
abbrev pub Fails : GoError → Client × Option GoError → Type 0
Fails e (c, failure) = (failure ≡ some e) × (c.state ≡ Obs.State.closed)

-- `NewClient` returned a client that is connected and supports what the reply names.
abbrev pub Succeeds : String → List String → Client × Option GoError → Type 0
Succeeds capability capabilities (c, failure) =
    (failure ≡ none)
    × (c.state ≡ connected)
    × (supports c capability ≡ member_of capability capabilities)

-- The outcome that the event of the reply calls for: success for major version 1 alone.
abbrev pub Greeted : String → Event → Client × Option GoError → Type 0
Greeted capability (hello_ok (pos n) server capabilities) r =
    ((n ≡ 1) × Succeeds capability capabilities r)
    ⊎ ((n ≢ 1) × Fails (message "unsupported server API version") r)
Greeted capability (hello_ok (negsuc n) server capabilities) r =
    Fails (message "unsupported server API version") r
Greeted capability (error code m provider_code) r = Fails (message "hello failed") r
Greeted capability ok_reply r = Fails (message "unexpected hello reply") r
Greeted capability (raw_event kind fields) r = Fails (message "unexpected hello reply") r
Greeted capability (unknown_event kind fields) r = Fails (message "unexpected hello reply") r

abbrev pub Answered : String → Result ServerFrame → Client × Option GoError → Type 0
Answered capability (err e) r = Fails e r
Answered capability (ok f) r = Greeted capability f.event r

finish_connect-err :
    (c : Client) (e : GoError) → c.close_once ≡ false → Fails e (finish_connect c (err e))
unfolding finish_connect
finish_connect-err c e once =
    let d = emit c (record (observed "connect_error") { error = codes "handshake_failed" }) in
    (
      refl,
      rw (close_with-first d (sentinel err_closed) once)
          (close_sections_kept c.instance_id (begin_close d) (sentinel err_closed) false false).0,
    )

accept_hello-refused :
    (c : Client) (e : GoError) (f : ServerFrame)
    → c.close_once ≡ false
    → accept_hello c f ≡ err e
    → Fails e (finish_connect c (accept_hello c f))
accept_hello-refused c e f once is = rw is (finish_connect-err c e once)

accept_hello-taken :
    (c : Client) (capability server : String) (capabilities : List String) (f : ServerFrame)
    → accept_hello c f ≡ ok (record c { capabilities = capabilities })
    → Succeeds capability capabilities (finish_connect c (accept_hello c f))
unfolding finish_connect supports
accept_hello-taken c capability server capabilities f is = rw is (refl, refl, refl)

accept_hello-Greeted :
    (c : Client) (capability : String) (f : ServerFrame) (w : Event)
    → c.close_once ≡ false
    → f.event ≡ w
    → Greeted capability w (finish_connect c (accept_hello c f))
unfolding accept_hello
accept_hello-Greeted c capability f (hello_ok (pos n) server capabilities) once is =
    elim (Bool-cases (n == 1)) [
      | inl h ↦ inl (
        (==_iff n 1).0 h,
        accept_hello-taken c capability server capabilities f (rw (accept_hello, is, h) refl),
      )
      | inr h ↦
          inr (
            λ one. cc (rw one at h),
            accept_hello-refused c _ f once (rw (accept_hello, is, h) refl),
          )
    ]
accept_hello-Greeted c capability f (hello_ok (negsuc n) server capabilities) once is =
    accept_hello-refused c _ f once (rw (accept_hello, is) refl)
accept_hello-Greeted c capability f ok_reply once is =
    accept_hello-refused c _ f once (rw (accept_hello, is) refl)
accept_hello-Greeted c capability f (error code m p) once is =
    accept_hello-refused c _ f once (rw (accept_hello, is) refl)
accept_hello-Greeted c capability f (raw_event kind fields) once is =
    accept_hello-refused c _ f once (rw (accept_hello, is) refl)
accept_hello-Greeted c capability f (unknown_event kind fields) once is =
    accept_hello-refused c _ f once (rw (accept_hello, is) refl)

-- What `NewClient` does, for each outcome of its request hello. For a request that failed it returns
-- that very error. For a hello reply of major version 1 it succeeds, with the client connected and
-- supporting the capabilities that the reply names. For a hello reply of another version, an error
-- event and any other event it returns the error for that case. Whenever it returns an error the
-- client is closed.
pub connect_outcome :
    (c : Client) (reply : Result ServerFrame) (capability : String)
    → c.close_once ≡ false
    → Answered capability reply (connect c reply)
unfolding connect
connect_outcome c (err e) capability once = finish_connect-err c e once
connect_outcome c (ok f) capability once = accept_hello-Greeted c capability f f.event once refl
