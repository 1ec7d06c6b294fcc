-- ===== src/Client/Options.antt =====
-- client.go: `Options` and its defaults. Integers are ℕ, where 0 stands for every value that is not
-- positive; durations count nanoseconds.
use jcode_go.Common.{
  ℕ, ◌*◌, ◌<◌, ◌≡◌, Bool, false, String, arith, ◌==◌, str_eq, inl, inr, Bool-cases, if◌then◌else◌,
}

abbrev pub second : ℕ
second = 1000000000

pub record ReconnectPolicy : Type 0 where
  pub max_attempts : ℕ
  pub backoff : ℕ
  pub max_backoff : ℕ
  pub resume : Bool

pub record Options : Type 0 where
  pub client_name : String
  pub max_frame_size : ℕ
  pub event_buffer : ℕ
  pub request_buffer : ℕ
  pub request_timeout : ℕ
  pub session_id : String
  pub reconnect : ReconnectPolicy

abbrev or_default : ℕ → ℕ → ℕ
or_default n d = if n == 0 then d else n

-- `Options.withDefaults`
unfoldable pub with_defaults : Options → Options
with_defaults o = record o {
  client_name = if str_eq o.client_name "" then "jcode-sdk-go" else o.client_name;
  event_buffer = or_default o.event_buffer 128;
  request_buffer = or_default o.request_buffer 1;
  request_timeout = or_default o.request_timeout (30 * second);
  reconnect = record policy {
    max_attempts = or_default policy.max_attempts 1;
    max_backoff = or_default policy.max_backoff (30 * second);
  };
}
  where
    policy : ReconnectPolicy
    policy = o.reconnect

-- What the client relies on.
pub record IsUsable (o : Options) : Type 0 where
  pub buffered : 0 < o.event_buffer
  pub timed : 0 < o.request_timeout
  pub tries : 0 < o.reconnect.max_attempts
  pub capped : 0 < o.reconnect.max_backoff
  pub named : str_eq o.client_name "" ≡ false

named : (name : String) → str_eq (if str_eq name "" then "jcode-sdk-go" else name) "" ≡ false
named name = elim (Bool-cases (str_eq name "")) [ inl b ↦ rw b | inr b ↦ rw b b ]

defaulted : (o : Options) → IsUsable (with_defaults o) × (0 < (with_defaults o).request_buffer)
unfolding with_defaults
defaulted o = (
  record {
    buffered = ground arith;
    timed = ground arith;
    tries = ground arith;
    capped = ground arith;
    named = named o.client_name;
  },
  ground arith,
)

-- Options that are usable already, with a positive buffer, pass through unchanged.
pub with_defaults_kept : (o : Options) → IsUsable o → 0 < o.request_buffer → with_defaults o ≡ o
unfolding with_defaults
with_defaults_kept o h b = ground arith

-- The defaults make any options usable, and change nothing the second time.
pub with_defaults-IsUsable :
    (o : Options) → IsUsable (with_defaults o) × (with_defaults (with_defaults o) ≡ with_defaults o)
with_defaults-IsUsable o =
    let (usable, room) = defaulted o in (usable, with_defaults_kept (with_defaults o) usable room)
