-- ===== src/Session/Identifier.antt =====
-- session.go: the sanitized identifiers of a CompatibilityError. A text is its runes where the
-- source ranges over runes, and its bytes where it indexes bytes.
use Prim.Native.Nat.{bit_and}
use jcode_go.Common.{
  ℕ, zero, suc, ◌≤◌, ◌≡◌, refl, ◌⊎◌, inl, inr, Bool, true, false, ◌&&◌, ◌||◌, List, [], ◌∷◌, ◌++◌,
  arith, length, take, length-append, length-take-le, All, All-take, leb, ◌==◌, Bool-cases,
  if◌then◌else◌, map, codes,
}

abbrev pub max_compatibility_diagnostic_bytes : ℕ
max_compatibility_diagnostic_bytes = 256

abbrev pub max_compatibility_identifier_bytes : ℕ
max_compatibility_identifier_bytes = 96

abbrev within : ℕ → ℕ → ℕ → Bool
within lo hi c = leb lo c && leb c hi

-- The runes that an identifier keeps.
abbrev pub is_plain : ℕ → Bool
is_plain r =
    within b'a' b'z' r
    || within b'A' b'Z' r
    || within b'0' b'9' r
    || r == b'_'
    || r == b'-'
    || r == b'.'

abbrev replaced : ℕ → ℕ
replaced r = if is_plain r then r else b'_'

-- `value == "" || strings.Trim(value, "_") == ""`
unfoldable pub is_blank : List ℕ → Bool
is_blank [] = true
is_blank (b ∷ bs) = b == b'_' && is_blank bs

abbrev pub byte_at : List ℕ → ℕ → ℕ
byte_at [] i = 0
byte_at (b ∷ bs) zero = b
byte_at (b ∷ bs) (suc i) = byte_at bs i

abbrev pub is_continuation : ℕ → Bool
is_continuation b = bit_and b 0xc0 == 0x80

-- `for end > 0 && (value[end]&0xc0) == 0x80 { end-- }`
unfoldable pub back_up : List ℕ → ℕ → ℕ
back_up value zero = zero
back_up value (suc e) =
    let earlier = back_up value e in
    if is_continuation (byte_at value (suc e)) then earlier else suc e

-- `truncateCompatibilityUTF8`
unfoldable pub truncate_utf8 : List ℕ → ℕ → List ℕ
unfolding back_up
truncate_utf8 value max_bytes =
    if leb (length value) max_bytes then value else take (back_up value max_bytes) value

-- `sanitizeCompatibilityIdentifier`
unfoldable pub sanitize : List ℕ → List ℕ → List ℕ
unfolding is_blank truncate_utf8
sanitize raw fallback =
    let value = map replaced raw in
    truncate_utf8 (if is_blank value then fallback else value) max_compatibility_identifier_bytes

abbrev pub unknown_kind : List ℕ
unknown_kind = codes "unknown_kind"

abbrev pub unknown_type : List ℕ
unknown_type = codes "unknown_type"

-- `boundedCompatibilityMessage`
unfoldable pub bounded_message : List ℕ → List ℕ → List ℕ
unfolding truncate_utf8
bounded_message kind event_type =
    truncate_utf8
      (codes "unsupported_typed_event: kind="
        ++ (sanitize kind unknown_kind ++ (codes " type=" ++ sanitize event_type unknown_type)))
      max_compatibility_diagnostic_bytes

back_up-le : (value : List ℕ) (e : ℕ) → back_up value e ≤ e
unfolding back_up
back_up-le value zero = omega arith
back_up-le value (suc e) = ground (arith, back_up-le value e)

back_up-boundary :
    (value : List ℕ) (e : ℕ)
    → (back_up value e ≡ 0) ⊎ (is_continuation (byte_at value (back_up value e)) ≡ false)
unfolding back_up
back_up-boundary value zero = inl refl
back_up-boundary value (suc e) = elim (Bool-cases (is_continuation (byte_at value (suc e)))) [
  | inl h ↦ rw h (back_up-boundary value e)
  | inr h ↦ rw h (inr h)
]

-- A cut text keeps within the limit and is the text, or its part before a byte at which a
-- character starts (or nothing).
pub truncate_utf8_lem :
    (value : List ℕ) (max_bytes : ℕ)
    → (length (truncate_utf8 value max_bytes) ≤ max_bytes)
      × ((truncate_utf8 value max_bytes ≡ value)
          ⊎ ((cut : ℕ) × (truncate_utf8 value max_bytes ≡ take cut value)
              × ((cut ≡ 0) ⊎ (is_continuation (byte_at value cut) ≡ false))))
unfolding truncate_utf8
truncate_utf8_lem value max_bytes = elim (Bool-cases (leb (length value) max_bytes)) [
  | inl h ↦ rw h (ground arith, inl refl)
  | inr h ↦ rw h (
    omega (arith, length-take-le (back_up value max_bytes) value, back_up-le value max_bytes),
    inr (back_up value max_bytes, refl, back_up-boundary value max_bytes),
  )
]

-- Every byte of the list may stand in an identifier.
abbrev pub IsPlain : List ℕ → Type 0
IsPlain = All λ b. is_plain b ≡ true

map-replaced-IsPlain : (raw : List ℕ) → IsPlain (map replaced raw)
map-replaced-IsPlain [] = tt
map-replaced-IsPlain (r ∷ raw) = (ground arith, map-replaced-IsPlain raw)

truncate_utf8-IsPlain : (value : List ℕ) (n : ℕ) → IsPlain value → IsPlain (truncate_utf8 value n)
unfolding truncate_utf8
truncate_utf8-IsPlain value n h = elim (Bool-cases (leb (length value) n)) [
  | inl e ↦ rw e h
  | inr e ↦ rw e (All-take _ (back_up value n) value h)
]

-- Whatever the server sent, an identifier has at most 96 bytes, and only letters, digits, `_`, `-`
-- and `.`, if the fallback has only these.
pub sanitize_bounds :
    (raw fallback : List ℕ)
    → IsPlain fallback
    → (length (sanitize raw fallback) ≤ max_compatibility_identifier_bytes)
      × IsPlain (sanitize raw fallback)
unfolding sanitize
sanitize_bounds raw fallback h = (
  (truncate_utf8_lem (if is_blank (map replaced raw) then fallback else map replaced raw) 96).0,
  truncate_utf8-IsPlain (if is_blank (map replaced raw) then fallback else map replaced raw) 96
      (elim (Bool-cases (is_blank (map replaced raw))) [
        | inl e ↦ rw e h
        | inr e ↦ rw e (map-replaced-IsPlain raw)
      ]),
)

abbrev pub full_message : List ℕ → List ℕ → List ℕ
full_message kind event_type =
    codes "unsupported_typed_event: kind="
    ++ (sanitize kind unknown_kind ++ (codes " type=" ++ sanitize event_type unknown_type))

fallbacks_IsPlain : IsPlain unknown_kind × IsPlain unknown_type
fallbacks_IsPlain = ground arith

length-full_message : (kind event_type : List ℕ) → length (full_message kind event_type) ≤ 256
length-full_message kind event_type = omega (
  arith,
  (sanitize_bounds kind unknown_kind fallbacks_IsPlain.0).0,
  (sanitize_bounds event_type unknown_type fallbacks_IsPlain.1).0,
  length-append (sanitize kind unknown_kind) (codes " type=" ++ sanitize event_type unknown_type),
)

truncate_utf8_short : (value : List ℕ) (n : ℕ) → length value ≤ n → truncate_utf8 value n ≡ value
unfolding truncate_utf8
truncate_utf8_short value n h = ground arith

-- The diagnostic of a CompatibilityError has at most 256 bytes and is never cut: it always holds
-- both identifiers whole.
pub bounded_message_whole :
    (kind event_type : List ℕ)
    → (bounded_message kind event_type ≡ full_message kind event_type)
      × (length (bounded_message kind event_type) ≤ max_compatibility_diagnostic_bytes)
unfolding bounded_message
bounded_message_whole kind event_type =
    let whole =
      truncate_utf8_short (full_message kind event_type) 256
        (length-full_message kind event_type) in
    (whole, rw whole (length-full_message kind event_type))
