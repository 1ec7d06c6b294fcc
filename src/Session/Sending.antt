-- ===== src/Session/Sending.antt =====
-- session.go: the options of a message, their checks, and its request. time.Parse is the parameter
-- `parse`, which gives the instant of a text in RFC 3339, if it is one; instants count nanoseconds.
use jcode_go.Common.{
  ℕ, zero, suc, ◌<◌, ◌≡◌, ◌↔◌, ◌⊎◌, ◌∙◌, refl, Bool, true, false, not, List, [], ◌∷◌, String,
  Option, none, some, arith, ltb, str_eq, eq_iff, if◌then◌else◌,
}
use jcode_go.Errors.{option_error, Result, ok, err}
use jcode_go.Json.Value.{
  ℤ, pos, negsuc, Json, boolean, number, text, array, object, Items, nil, cons, Fields, end, member,
}
use jcode_go.Json.Fields.{get}
use jcode_go.Protocol.Request.{RawRequest, new_raw_request, marshal_frame, get-marshal_frame}

pub record SendOptions : Type 0 where
  pub images : List (String × String)
  pub no_reply : Bool
  pub max_turns : ℤ
  pub token_budget : ℤ
  pub deadline : String

abbrev pub is_negative : ℤ → Bool
is_negative (pos n) = false
is_negative (negsuc n) = true

abbrev pub is_zero : ℤ → Bool
is_zero (pos zero) = true
is_zero (pos (suc n)) = false
is_zero (negsuc n) = false

-- `err != nil || !deadline.After(submissionTime)`
abbrev check_deadline : Option ℕ → ℕ → Result (Unit {0})
check_deadline none now = err (option_error "deadline")
check_deadline (some t) now = if ltb now t then ok tt else err (option_error "deadline")

-- `validateSendOptions`
unfoldable pub validate_send_options : (String → Option ℕ) → SendOptions → ℕ → Result (Unit {0})
validate_send_options parse o now =
    if is_negative o.max_turns
    then err (option_error "max_turns")
    else if is_negative o.token_budget
    then err (option_error "token_budget")
    else if str_eq o.deadline ""
    then ok tt
    else check_deadline (parse o.deadline) now

-- Limits that are not negative, and no deadline or one that is still to come.
abbrev pub IsValid : (String → Option ℕ) → SendOptions → ℕ → Type 0
IsValid parse o now =
    (is_negative o.max_turns ≡ false)
    × (is_negative o.token_budget ≡ false)
    × ((o.deadline ≡ "") ⊎ ((t : ℕ) × (parse o.deadline ≡ some t) × (now < t)))

check_deadline-ok :
    (d : Option ℕ) (now : ℕ) → (check_deadline d now ≡ ok tt) ↔ ((t : ℕ) × (d ≡ some t) × (now < t))
check_deadline-ok none now = ground arith
check_deadline-ok (some t) now = (λ h. (t, refl, ground arith), λ (x, e, l). ground arith)

-- The options of a message are accepted exactly when their limits are not negative and they have no
-- deadline or one that is still to come.
pub validate_send_options-ok :
    (parse : String → Option ℕ) (o : SendOptions) (now : ℕ)
    → (validate_send_options parse o now ≡ ok tt) ↔ IsValid parse o now
unfolding validate_send_options
validate_send_options-ok parse o now =
    ground (arith, check_deadline-ok (parse o.deadline) now, eq_iff o.deadline "")

-- A member that `omitempty` leaves out.
abbrev pub unless_empty : Bool → String → Json → Fields → Fields
unless_empty true k v fs = fs
unless_empty false k v fs = member k v fs

unfoldable pub pairs : List (String × String) → Items
pairs [] = nil
pairs ((a, b) ∷ ps) = cons (array (cons (text a) (cons (text b) nil))) (pairs ps)

abbrev pub no_images : List (String × String) → Bool
no_images [] = true
no_images (_ ∷ _) = false

-- `sendMessageFields`, as json.Marshal writes it
unfoldable pub send_message_fields : String → String → SendOptions → Fields
unfolding pairs
send_message_fields session content o = member "session_id" (text session) (
    member "content" (text content) (
      unless_empty (no_images o.images) "images" (array (pairs o.images)) (
        unless_empty (not o.no_reply) "no_reply" (boolean true) (
          unless_empty (is_zero o.max_turns) "max_turns" (number o.max_turns) (
            unless_empty (is_zero o.token_budget) "token_budget" (number o.token_budget)
              (unless_empty (str_eq o.deadline "") "deadline" (text o.deadline) end))))))

-- `newSendMessageRequest`
unfoldable pub new_send_message_request : String → String → SendOptions → Result RawRequest
new_send_message_request session content o =
    new_raw_request "send_message" (ok (object (send_message_fields session content o)))

abbrev pub unless {ℓ} : {A : Type ℓ} → Bool → A → Option A
unless true a = none
unless false a = some a

get-send_message_fields :
    (session content : String) (o : SendOptions)
    → (get "session_id" (send_message_fields session content o) ≡ some (text session))
      × (get "content" (send_message_fields session content o) ≡ some (text content))
      × (get "images" (send_message_fields session content o)
          ≡ unless (no_images o.images) (array (pairs o.images)))
      × (get "no_reply" (send_message_fields session content o)
          ≡ unless (not o.no_reply) (boolean true))
      × (get "max_turns" (send_message_fields session content o)
          ≡ unless (is_zero o.max_turns) (number o.max_turns))
      × (get "token_budget" (send_message_fields session content o)
          ≡ unless (is_zero o.token_budget) (number o.token_budget))
      × (get "deadline" (send_message_fields session content o)
          ≡ unless (str_eq o.deadline "") (text o.deadline))
unfolding send_message_fields get
get-send_message_fields session content o = (
  ground arith,
  ground arith,
  ground arith,
  ground arith,
  ground arith,
  ground arith,
  ground arith,
)

-- The request of a message can always be sent, and its frame carries the session, the content and
-- the options: the images, if there are any, each with both of its strings, in order; a limit of zero
-- and an empty deadline are left out, any other value is sent as it is.
pub marshal_frame-new_send_message_request :
    (v id : ℕ) (session content : String) (o : SendOptions)
    → (r : RawRequest) × (out : Fields) × (new_send_message_request session content o ≡ ok r)
      × (marshal_frame (record { v = v; id = id; request = r }) ≡ ok out)
      × (get "req" out ≡ some (text "send_message"))
      × (get "id" out ≡ some (number (pos id)))
      × (get "session_id" out ≡ some (text session))
      × (get "content" out ≡ some (text content))
      × (get "images" out ≡ unless (no_images o.images) (array (pairs o.images)))
      × (get "no_reply" out ≡ unless (not o.no_reply) (boolean true))
      × (get "max_turns" out ≡ unless (is_zero o.max_turns) (number o.max_turns))
      × (get "token_budget" out ≡ unless (is_zero o.token_budget) (number o.token_budget))
      × (get "deadline" out ≡ unless (str_eq o.deadline "") (text o.deadline))
unfolding new_send_message_request new_raw_request
marshal_frame-new_send_message_request v id session content o =
    let fs = send_message_fields session content o in
    let (out, sent, reads) = get-marshal_frame v id "send_message" fs refl in
    let (s, c, i, n, m, b, d) = get-send_message_fields session content o in
    (
      record { req = "send_message"; fields = object fs },
      out,
      refl,
      sent,
      reads "req",
      reads "id",
      reads "session_id" ∙ s,
      reads "content" ∙ c,
      reads "images" ∙ i,
      reads "no_reply" ∙ n,
      reads "max_turns" ∙ m,
      reads "token_budget" ∙ b,
      reads "deadline" ∙ d,
    )
