-- ===== src/Errors.antt =====
-- Go's error values: the sentinels that the packages declare, the typed errors and the two ways to
-- wrap (`fmt.Errorf` with %w, `errors.Join`), with `errors.Is` as a search of the tree.
use jcode_go.Common.{
  ℕ, ◌≡◌, refl, Bool, true, false, ◌||◌, List, [], ◌∷◌, String, Option, none, some,
}

pub data Sentinel : Type 0 where
  err_closed err_disconnected err_subscriber_overflow err_capability err_resume : Sentinel
  err_turn_no_reply err_turn_canceled err_protocol_failure err_bridge_exited : Sentinel
  err_malformed_frame err_invalid_frame err_frame_too_large : Sentinel
  err_transport_closed err_unsupported err_invalid_options : Sentinel
  eof deadline_exceeded context_canceled not_exist : Sentinel

pub Sentinel-discrete : Discrete Sentinel
Sentinel-discrete = hlevel

-- `compatibility` holds the two sanitized identifiers of a CompatibilityError, as bytes.
pub data GoError : Type 0 where
  sentinel : Sentinel → GoError
  message : String → GoError
  event_error : String → String → String → GoError
  compatibility : List ℕ → List ℕ → GoError
  option_error : String → GoError
  wrap : String → GoError → GoError
  join : GoError → GoError → GoError

abbrev pub decide {ℓ} : {P : Type ℓ} → Dec P → Bool
decide (yes _) = true
decide (no _) = false

-- `errors.Is(err, target)`
unfoldable pub errors_is : GoError → Sentinel → Bool
unfolding Sentinel-discrete
errors_is (sentinel s) t = decide (Sentinel-discrete s t)
errors_is (message m) t = false
errors_is (event_error c m p) t = false
errors_is (compatibility k e) t = decide (Sentinel-discrete err_protocol_failure t)
errors_is (option_error f) t = decide (Sentinel-discrete err_invalid_options t)
errors_is (wrap m e) t = errors_is e t
errors_is (join a b) t = errors_is a t || errors_is b t

pub data Result {ℓ} (A : Type ℓ) : Type ℓ where
  ok : A → Result A
  err : GoError → Result A

-- To go on with a value, unless there is an error already.
infixl 5 ◌>>=◌
abbrev pub ◌>>=◌ {κ ℓ} :
    {Value : Type κ} {Next : Type ℓ} → Result Value → (Value → Result Next) → Result Next
err cause >>= next = err cause
ok value >>= next = next value

-- The two halves of a chain that succeeded.
pub >>=-ok {κ ℓ} :
    {Value : Type κ} {Next : Type ℓ} (first : Result Value) (next : Value → Result Next)
    {last : Next}
    → first >>= next ≡ ok last
    → (value : Value) × (first ≡ ok value) × (next value ≡ ok last)
>>=-ok (err cause) next succeeded = cc
>>=-ok (ok value) next succeeded = (value, refl, succeeded)

abbrev pub optional : Option GoError → List GoError
optional none = []
optional (some e) = e ∷ []

-- `errors.Join(errs...)`: nil for no error at all.
unfoldable pub join_all : List GoError → Option GoError
join_all [] = none
join_all (e ∷ es) = elim (join_all es) [ none ↦ some e | some later ↦ some (join e later) ]
