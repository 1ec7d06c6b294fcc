-- ===== src/Json/Schema.antt =====
-- json.Unmarshal into the program's structs: whether the value of a JSON text fits a Go type.
use jcode_go.Common.{
  ℕ, ◌-◌, Bool, true, false, ◌&&◌, List, [], ◌∷◌, String, Option, none, some, leb, ltb, ◌==◌,
  str_eq, if◌then◌else◌, map, codes,
}
use jcode_go.Json.Value.{
  ℤ, pos, negsuc, Json, null, boolean, number, decimal, text, array, object, Items, nil, cons,
  Fields, end, member,
}

-- The Go types that occur in the program's structs.
mutual
  pub data Schema : Type 0 where
    string int64 uint64 uint32 float64 bool : Schema
    slice : Schema → Schema
    pointer : Schema → Schema
    struct : Columns → Schema

  pub data Columns : Type 0 where
    no_column : Columns
    column : String → Schema → Columns → Columns

-- encoding/json compares names up to simple case folding; on letters that fold into ASCII that is
-- upper case, the Kelvin sign and the long s.
abbrev pub fold_rune : ℕ → ℕ
fold_rune c =
    if leb b'a' c && leb c b'z'
    then c - 32
    else if c == 8490
    then b'K'
    else if c == 383
    then b'S'
    else c

abbrev pub codes_eq : List ℕ → List ℕ → Bool
codes_eq [] [] = true
codes_eq (a ∷ as') (b ∷ bs) = a == b && codes_eq as' bs
codes_eq _ _ = false

abbrev pub fold_eq : String → String → Bool
fold_eq s t = codes_eq (map fold_rune (codes s)) (map fold_rune (codes t))

exact_column : String → Columns → Option Schema
exact_column k no_column = none
exact_column k (column j s cs) = if str_eq j k then some s else exact_column k cs

folded_column : String → Columns → Option Schema
folded_column k no_column = none
folded_column k (column j s cs) = if fold_eq j k then some s else folded_column k cs

-- The field that a member of the text goes to: by its exact name, or else up to case.
unfoldable pub find_column : String → Columns → Option Schema
unfolding exact_column folded_column
find_column k cs = elim (exact_column k cs) [ some s ↦ some s | none ↦ folded_column k cs ]

abbrev pub is_int64 : ℤ → Bool
is_int64 (pos n) = ltb n 9223372036854775808
is_int64 (negsuc n) = ltb n 9223372036854775808

abbrev pub is_uint : ℕ → ℤ → Bool
is_uint bound (pos n) = ltb n bound
is_uint bound (negsuc n) = false

-- a number literal for a field of that type
abbrev number_fits : Schema → ℤ → Bool
number_fits int64 n = is_int64 n
number_fits uint64 n = is_uint 18446744073709551616 n
number_fits uint32 n = is_uint 4294967296 n
number_fits float64 n = true
number_fits _ n = false

-- The type behind any pointers, which json.Unmarshal allocates.
abbrev target : Schema → Schema
target (pointer s) = target s
target string = string
target int64 = int64
target uint64 = uint64
target uint32 = uint32
target float64 = float64
target bool = bool
target (slice s) = slice s
target (struct cs) = struct cs

abbrev is_float : Schema → Bool
is_float float64 = true
is_float _ = false

abbrev is_string : Schema → Bool
is_string string = true
is_string _ = false

abbrev is_bool : Schema → Bool
is_bool bool = true
is_bool _ = false

abbrev items_of : Schema → Option Schema
items_of (slice s) = some s
items_of _ = none

abbrev columns_of : Schema → Option Columns
columns_of (struct cs) = some cs
columns_of _ = none

-- The type that a member's value is decoded into; a key with no field is skipped.
abbrev fits_column : Option Schema → (Schema → Bool) → Bool
fits_column none fits = true
fits_column (some s) fits = fits s

-- Whether json.Unmarshal of the value into the type returns no error. `null` changes nothing.
unfoldable mutual
  unfolding find_column

  pub fits : Json → Schema → Bool
  fits null s = true
  fits (boolean b) s = is_bool (target s)
  fits (number n) s = number_fits (target s) n
  fits (decimal d) s = is_float (target s)
  fits (text t) s = is_string (target s)
  fits (array xs) s = items_fit xs (items_of (target s))
  fits (object fs) s = fields_fit fs (columns_of (target s))

  pub items_fit : Items → Option Schema → Bool
  items_fit nil none = false
  items_fit nil (some s) = true
  items_fit (cons x xs) none = false
  items_fit (cons x xs) (some s) = fits x s && items_fit xs (some s)

  pub fields_fit : Fields → Option Columns → Bool
  fields_fit end none = false
  fields_fit end (some cs) = true
  fields_fit (member k v fs) none = false
  fields_fit (member k v fs) (some cs) =
      fits_column (find_column k cs) (fits v) && fields_fit fs (some cs)
