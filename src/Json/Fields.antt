-- ===== src/Json/Fields.antt =====
-- A JSON object as Go decodes it into a map: the last member of a key counts.
use jcode_go.Common.{
  ◌≡◌, refl, Bool, true, false, String, Option, none, some, arith, str_eq, eq_iff, if◌then◌else◌,
}
use jcode_go.Json.Value.{Json, Fields, end, member}

-- `m[key]` of the decoded map
unfoldable pub get : String → Fields → Option Json
get k end = none
get k (member j v fs) = elim (get k fs) [
  | some w ↦ some w
  | none ↦ if str_eq j k then some v else none
]

abbrev pub is_some {ℓ} : {A : Type ℓ} → Option A → Bool
is_some none = false
is_some (some _) = true

-- The decoded map itself: one member for each key.
unfoldable pub to_map : Fields → Fields
unfolding get
to_map end = end
to_map (member j v fs) =
    let rest = to_map fs in if is_some (get j fs) then rest else member j v rest

-- `m[key] = value`
unfoldable pub put : String → Json → Fields → Fields
put k v end = member k v end
put k v (member j w fs) = let rest = put k v fs in if str_eq j k then rest else member j w rest

-- The members whose key passes the test.
unfoldable pub keep : (String → Bool) → Fields → Fields
keep p end = end
keep p (member j v fs) = let rest = keep p fs in if p j then member j v rest else rest

pub get-put :
    (k j : String) (v : Json) (fs : Fields)
    → get j (put k v fs) ≡ (if str_eq k j then some v else get j fs)
unfolding get put
get-put k j v end = refl
get-put k j v (member i w fs) = ground (arith, eq_iff k j, eq_iff i k, eq_iff i j, get-put k j v fs)

pub get-keep :
    (p : String → Bool) (k : String) (fs : Fields)
    → get k (keep p fs) ≡ (if p k then get k fs else none)
unfolding get keep
get-keep p k end = ground arith
get-keep p k (member j v fs) = ground (arith, eq_iff j k, get-keep p k fs)

pub get-to_map : (k : String) (fs : Fields) → get k (to_map fs) ≡ get k fs
unfolding get to_map
get-to_map k end = refl
get-to_map k (member j v fs) = ground (arith, eq_iff j k, get-to_map k fs)
