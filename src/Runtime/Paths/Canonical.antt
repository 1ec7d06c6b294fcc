-- ===== src/Runtime/Paths/Canonical.antt =====
-- A rooted path that is clean is the names on it with slashes between them.
use jcode_go.Common.{
  ℕ, ◌≡◌, refl, sym, ap, ◌∙◌, inl, inr, true, false, List, [], ◌∷◌, ◌++◌, append-nil, append_assoc,
  ◌==◌, All, Bool-cases,
}
use jcode_go.Runtime.Paths.{
  FilePath, slash, dot, dots, same_path, on_first, parts_of, is_rooted, go_up, resolve, rejoin,
  clean, join, split, split_after, dir,
}

-- No part of a path holds a slash.
abbrev pub NoSlash : FilePath → Type 0
NoSlash p = All (λ b. (b == slash) ≡ false) p

abbrev pub IsName : FilePath → Type 0
IsName [] = ⊥
IsName (b ∷ p) =
    NoSlash (b ∷ p) × (same_path (b ∷ p) dot ≡ false) × (same_path (b ∷ p) dots ≡ false)

on_first-NoSlash :
    (b : ℕ) (parts : List FilePath)
    → (b == slash) ≡ false
    → All NoSlash parts
    → All NoSlash (on_first b parts)
on_first-NoSlash b [] h a = ((h, tt), tt)
on_first-NoSlash b (part ∷ parts) h a = ((h, a.0), a.1)

parts_of-NoSlash : (p : FilePath) → All NoSlash (parts_of p)
unfolding parts_of
parts_of-NoSlash [] = (tt, tt)
parts_of-NoSlash (b ∷ p) = elim (Bool-cases (b == slash)) [
  | inl h ↦ rw h (tt, parts_of-NoSlash p)
  | inr h ↦ rw h (on_first-NoSlash b (parts_of p) h (parts_of-NoSlash p))
]

go_up-IsName : (above : List FilePath) → All IsName above → All IsName (go_up true above)
go_up-IsName [] h = tt
go_up-IsName ([] ∷ above) h = absurd (h.0)
go_up-IsName ((b ∷ p) ∷ above) h = rw (h.0.2) (h.1)

resolve-IsName :
    (above parts : List FilePath)
    → All IsName above
    → All NoSlash parts
    → All IsName (resolve true above parts)
unfolding resolve
resolve-IsName above [] h n = h
resolve-IsName above ([] ∷ parts) h n = resolve-IsName above parts h n.1
resolve-IsName above ((b ∷ p) ∷ parts) h n = elim (Bool-cases (same_path (b ∷ p) dot)) [
  | inl d ↦ rw d (resolve-IsName above parts h n.1)
  | inr d ↦ elim (Bool-cases (same_path (b ∷ p) dots)) [
    | inl u ↦ simp (d, u) (resolve-IsName (go_up true above) parts (go_up-IsName above h) n.1)
    | inr u ↦ simp (d, u) (resolve-IsName ((b ∷ p) ∷ above) parts ((n.0, d, u), h) n.1)
  ]
]

resolve-name :
    (above : List FilePath) (part : FilePath) (parts : List FilePath)
    → IsName part
    → resolve true above (part ∷ parts) ≡ resolve true (part ∷ above) parts
unfolding resolve
resolve-name above [] parts h = absurd h
resolve-name above (b ∷ p) parts h = simp (h.1, h.2)

-- What the parts of a path are after a name.
abbrev after_name : FilePath → List FilePath
after_name [] = []
after_name (b ∷ q) = parts_of q

abbrev Starts : FilePath → Type 0
Starts [] = Unit
Starts (b ∷ q) = b ≡ slash

parts_of-append :
    (part after : FilePath)
    → NoSlash part
    → Starts after
    → parts_of (part ++ after) ≡ part ∷ after_name after
unfolding parts_of
parts_of-append [] [] n s = refl
parts_of-append [] (b ∷ q) n s = rw s refl
parts_of-append (b ∷ p) after n s = rw (n.0, parts_of-append p after n.1 s) refl

name-NoSlash : (part : FilePath) → IsName part → NoSlash part
name-NoSlash [] h = absurd h
name-NoSlash (b ∷ p) h = h.0

pub resolve-rejoin :
    (part : FilePath) (above acc : List FilePath) (after : FilePath)
    → All IsName (part ∷ above)
    → Starts after
    → resolve true acc (parts_of (rejoin (part ∷ above) after))
      ≡ resolve true (part ∷ above ++ acc) (after_name after)
unfolding rejoin
resolve-rejoin part [] acc after h s =
    rw (parts_of-append part after (name-NoSlash part h.0) s)
      (resolve-name acc part (after_name after) h.0)
resolve-rejoin part (next ∷ above) acc after h s =
    resolve-rejoin next above acc (slash ∷ part ++ after) h.1 refl
    ∙ ap (resolve true (next ∷ above ++ acc)) (parts_of-append part after (name-NoSlash part h.0) s)
    ∙ resolve-name (next ∷ above ++ acc) part (after_name after) h.0

-- The rooted path of names, the last one first.
abbrev pub rooted : List FilePath → FilePath
rooted above = slash ∷ rejoin above []

pub clean-IsName :
    (p : FilePath)
    → is_rooted p ≡ true
    → (above : List FilePath) × All IsName above × (clean p ≡ rooted above)
unfolding clean
clean-IsName p r =
    (resolve true [] (parts_of p), resolve-IsName [] (parts_of p) tt (parts_of-NoSlash p), simp r)

-- A path that goes on from names, with nothing or a slash and more.
resolve-from :
    (above : List FilePath) (after : FilePath)
    → All IsName above
    → Starts after
    → resolve true [] (parts_of (slash ∷ rejoin above after))
      ≡ resolve true above (after_name after)
unfolding parts_of rejoin resolve
resolve-from [] [] h s = refl
resolve-from [] (b ∷ q) h s = rw s refl
resolve-from (part ∷ above) after h s =
    resolve-rejoin part above [] after h s
    ∙ ap (λ l. resolve true (part ∷ l) (after_name after)) (append-nil above)

clean-rejoin :
    (above : List FilePath) (after : FilePath)
    → All IsName above
    → Starts after
    → clean (slash ∷ rejoin above after) ≡ rooted (resolve true above (after_name after))
unfolding clean
clean-rejoin above after h s = rw (resolve-from above after h s) refl

pub clean-rooted : (above : List FilePath) → All IsName above → clean (rooted above) ≡ rooted above
unfolding resolve
clean-rooted above h = clean-rejoin above [] h tt

rejoin-append :
    (part : FilePath) (above : List FilePath) (after more : FilePath)
    → rejoin (part ∷ above) after ++ more ≡ rejoin (part ∷ above) (after ++ more)
unfolding rejoin
rejoin-append part [] after more = append_assoc part after more
rejoin-append part (next ∷ above) after more =
    rejoin-append next above (slash ∷ part ++ after) more
    ∙ ap (λ l. rejoin (next ∷ above) (slash ∷ l)) (append_assoc part after more)

resolve-last :
    (above : List FilePath) (name : FilePath)
    → IsName name
    → resolve true above (parts_of name) ≡ name ∷ above
unfolding resolve
resolve-last above name n =
    ap (λ p. resolve true above (parts_of p)) (sym (append-nil name))
    ∙ ap (resolve true above) (parts_of-append name [] (name-NoSlash name n) tt)
    ∙ resolve-name above name [] n

-- A name after a clean path.
pub join-rooted :
    (above : List FilePath) (name : FilePath)
    → All IsName above
    → IsName name
    → join (rooted above) name ≡ rooted (name ∷ above)
unfolding join
join-rooted above [] h n = absurd n
join-rooted [] (b ∷ q) h n =
    clean-rejoin [] (slash ∷ b ∷ q) tt refl ∙ ap rooted (resolve-last [] (b ∷ q) n)
join-rooted (part ∷ above) (b ∷ q) h n =
    ap (λ l. clean (slash ∷ l)) (rejoin-append part above [] (slash ∷ b ∷ q))
    ∙ clean-rejoin (part ∷ above) (slash ∷ b ∷ q) h refl
    ∙ ap rooted (resolve-last (part ∷ above) (b ∷ q) n)

split-NoSlash : (name : FilePath) → NoSlash name → split name ≡ ([], name)
unfolding split
split-NoSlash [] n = refl
split-NoSlash (b ∷ p) n = rw (split-NoSlash p n.1, n.0) refl

split-last :
    (p name : FilePath) → NoSlash name → split (p ++ slash ∷ name) ≡ (p ++ slash ∷ [], name)
unfolding split
split-last [] name n = ap (split_after slash) (split-NoSlash name n)
split-last (b ∷ []) name n = ap (split_after b) (split-last [] name n)
split-last (b ∷ c ∷ p) name n = ap (split_after b) (split-last (c ∷ p) name n)

pub dir-rooted :
    (part name : FilePath) (above : List FilePath)
    → All IsName (part ∷ above)
    → IsName name
    → dir (rooted (name ∷ part ∷ above)) ≡ rooted (part ∷ above)
unfolding dir rejoin resolve
dir-rooted part name above h n =
    let last : rooted (name ∷ part ∷ above) ≡ rooted (part ∷ above) ++ slash ∷ name =
      ap (λ l. slash ∷ rejoin (part ∷ above) (slash ∷ l)) (append-nil name)
      ∙ ap (λ l. slash ∷ l) (sym (rejoin-append part above [] (slash ∷ name))) in
    ap dir last
    ∙ ap (λ s. clean s.0) (split-last (rooted (part ∷ above)) name (name-NoSlash name n))
    ∙ ap (λ l. clean (slash ∷ l)) (rejoin-append part above [] (slash ∷ []))
    ∙ clean-rejoin (part ∷ above) (slash ∷ []) h refl
