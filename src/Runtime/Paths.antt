-- ===== src/Runtime/Paths.antt =====
-- What launch.go uses of path/filepath: `Clean`, `Join`, `Dir` and `Base`, for Unix paths as bytes.
pub mod Canonical
use jcode_go.Common.{
  ℕ, ◌≡◌, refl, Bool, true, false, ◌&&◌, List, [], ◌∷◌, ◌++◌, ◌==◌, ==_iff, arith, if◌then◌else◌,
}

abbrev pub FilePath : Type 0
FilePath = List ℕ

abbrev pub slash : ℕ
slash = 47

abbrev pub dot : FilePath
dot = 46 ∷ []

abbrev pub dots : FilePath
dots = 46 ∷ 46 ∷ []

unfoldable pub same_path : FilePath → FilePath → Bool
same_path [] [] = true
same_path [] (b ∷ q) = false
same_path (a ∷ p) [] = false
same_path (a ∷ p) (b ∷ q) = (a == b) && same_path p q

pub and-true : (a b : Bool) → a && b ≡ true → (a ≡ true) × (b ≡ true)
and-true true b h = (refl, h)
and-true false b h = cc

pub same_path-≡ : (p q : FilePath) → same_path p q ≡ true → p ≡ q
unfolding same_path
same_path-≡ [] [] h = refl
same_path-≡ [] (b ∷ q) h = cc
same_path-≡ (a ∷ p) [] h = cc
same_path-≡ (a ∷ p) (b ∷ q) h =
    let (h, t) = and-true (a == b) (same_path p q) h in
    rw (((==_iff a b).0 h), same_path-≡ p q t) refl

pub same_path_refl : (p : FilePath) → same_path p p ≡ true
unfolding same_path
same_path_refl [] = refl
same_path_refl (b ∷ p) = ground (arith, ==_iff b b, same_path_refl p)

-- `strings.HasPrefix`
unfoldable pub has_prefix : FilePath → FilePath → Bool
has_prefix p [] = true
has_prefix [] (b ∷ q) = false
has_prefix (a ∷ p) (b ∷ q) = (a == b) && has_prefix p q

-- A path between its slashes.
abbrev on_first : ℕ → List FilePath → List FilePath
on_first b [] = (b ∷ []) ∷ []
on_first b (part ∷ parts) = (b ∷ part) ∷ parts

unfoldable pub parts_of : FilePath → List FilePath
parts_of [] = [] ∷ []
parts_of (b ∷ p) = let rest = parts_of p in if b == slash then [] ∷ rest else on_first b rest

abbrev pub is_rooted : FilePath → Bool
is_rooted [] = false
is_rooted (b ∷ p) = b == slash

-- A part `..` takes the last part away, unless that is one itself or there is none; `above` holds
-- the parts so far, the last one first.
abbrev pub go_up : Bool → List FilePath → List FilePath
go_up rooted [] = if rooted then [] else dots ∷ []
go_up rooted (part ∷ above) = if same_path part dots then dots ∷ part ∷ above else above

unfoldable pub resolve : Bool → List FilePath → List FilePath → List FilePath
unfolding same_path
resolve rooted above [] = above
resolve rooted above ([] ∷ parts) = resolve rooted above parts
resolve rooted above ((b ∷ name) ∷ parts) =
    let part = b ∷ name in
    let above' =
      if same_path part dot
      then above
      else if same_path part dots
      then go_up rooted above
      else part ∷ above in
    resolve rooted above' parts

-- The parts with slashes between them, from the last one.
unfoldable pub rejoin : List FilePath → FilePath → FilePath
rejoin [] after = after
rejoin (part ∷ []) after = part ++ after
rejoin (part ∷ next ∷ above) after = rejoin (next ∷ above) (slash ∷ part ++ after)

abbrev pub or_dot : FilePath → FilePath
or_dot [] = dot
or_dot (b ∷ p) = b ∷ p

-- `filepath.Clean`
unfoldable pub clean : FilePath → FilePath
unfolding resolve rejoin parts_of
clean p =
    let kept = rejoin (resolve (is_rooted p) [] (parts_of p)) [] in
    if is_rooted p then slash ∷ kept else or_dot kept

-- `filepath.Join` of two elements
unfoldable pub join : FilePath → FilePath → FilePath
unfolding clean
join [] [] = []
join [] (b ∷ q) = clean (b ∷ q)
join (a ∷ p) [] = clean (a ∷ p)
join (a ∷ p) (b ∷ q) = clean ((a ∷ p) ++ slash ∷ b ∷ q)

-- A path up to its last slash, and what comes after it.
abbrev pub split_after : ℕ → FilePath × FilePath → FilePath × FilePath
split_after b ([], name) = if b == slash then (b ∷ [], name) else ([], b ∷ name)
split_after b (c ∷ directory, name) = (b ∷ c ∷ directory, name)

unfoldable pub split : FilePath → FilePath × FilePath
split [] = ([], [])
split (b ∷ p) = split_after b (split p)

-- `filepath.Dir`
unfoldable pub dir : FilePath → FilePath
unfolding split clean
dir p = clean (split p).0

-- A path without the slashes at its end.
abbrev keep : ℕ → FilePath → FilePath
keep b [] = if b == slash then [] else b ∷ []
keep b (c ∷ p) = b ∷ c ∷ p

unfoldable pub trim_slashes : FilePath → FilePath
trim_slashes [] = []
trim_slashes (b ∷ p) = keep b (trim_slashes p)

abbrev or_slash : FilePath → FilePath
or_slash [] = slash ∷ []
or_slash (b ∷ p) = b ∷ p

-- `filepath.Base`
unfoldable pub base : FilePath → FilePath
unfolding split trim_slashes
base [] = dot
base (b ∷ p) = or_slash (split (trim_slashes (b ∷ p))).1
