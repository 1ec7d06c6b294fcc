-- ===== src/Runtime/Removal/Accepts.antt =====
-- The checks of a removal accept the paths of an instance in a home that is a clean rooted path.
use jcode_go.Common.{
  ◌≡◌, refl, sym, ap, ◌∙◌, inl, inr, true, List, [], ◌∷◌, none, codes, arith, All,
}
use jcode_go.Runtime.Paths.{FilePath, same_path, same_path_refl, clean, join, dir, is_rooted}
use jcode_go.Runtime.Paths.Canonical.{
  IsName, rooted, clean-IsName, clean-rooted, join-rooted, dir-rooted,
}
use jcode_go.Runtime.Cleanup.{instance_owned_runtime_paths}
use jcode_go.Runtime.Removal.{member_of, check_owned, check_boundary}
use jcode_go.Runtime.Removal.Touches.{Among, IsRuntimeFile}

Among-member_of : (p : FilePath) (qs : List FilePath) → Among p qs → member_of p qs ≡ true
unfolding member_of
Among-member_of p [] h = absurd h
Among-member_of p (q ∷ qs) (inl e) = rw (e, same_path_refl p) refl
Among-member_of p (q ∷ qs) (inr h) = ground (arith, Among-member_of p qs h)

IsRuntimeFile-check_owned :
    (runtime_dir : FilePath) (paths : List FilePath)
    → All (IsRuntimeFile runtime_dir) paths
    → check_owned runtime_dir paths ≡ none
unfolding check_owned
IsRuntimeFile-check_owned runtime_dir [] h = refl
IsRuntimeFile-check_owned runtime_dir (p ∷ paths) h =
    simp
      (
        h.0.0,
        same_path_refl,
        Among-member_of (clean p) (instance_owned_runtime_paths runtime_dir) h.0.1,
      )
      (IsRuntimeFile-check_owned runtime_dir paths h.1)

abbrev pub run : FilePath
run = codes "run"

run-IsName : IsName run
unfolding same_path
run-IsName = ground arith

module _ (above : List FilePath) (h : All IsName above) where
  abbrev Under : FilePath → Type 0
  Under name = dir (clean (join (rooted (run ∷ above)) name)) ≡ rooted (run ∷ above)

  name-Under : (name : FilePath) → IsName name → Under name
  name-Under name n =
      ap (λ p. dir (clean p)) (join-rooted (run ∷ above) name (run-IsName, h) n)
      ∙ ap dir (clean-rooted (name ∷ run ∷ above) (n, (run-IsName, h)))
      ∙ dir-rooted run name above (run-IsName, h) n

  files-IsRuntimeFile :
      All
        (IsRuntimeFile (rooted (run ∷ above)))
        (instance_owned_runtime_paths (rooted (run ∷ above)))
  unfolding instance_owned_runtime_paths same_path
  files-IsRuntimeFile =
      let file = λ (name : FilePath) (n : IsName name). name-Under name n in
      (
        (file (codes "jcode-api.sock") (ground arith), inl refl),
        (
          (file (codes "jcode.sock") (ground arith), inr (inl refl)),
          (
            (file (codes "jcode-debug.sock") (ground arith), inr (inr (inl refl))),
            ((file (codes "jcode.sock.hash") (ground arith), inr (inr (inr (inl refl)))), tt),
          ),
        ),
      )

pub instance_owned_runtime_paths-check_boundary :
    (home : FilePath)
    → is_rooted home ≡ true
    → clean home ≡ home
    → check_boundary
        (clean home)
        (clean (join home run))
        (instance_owned_runtime_paths (join home run))
      ≡ none
unfolding check_boundary
instance_owned_runtime_paths-check_boundary home r c =
    let (above, h, is) = clean-IsName home r in
    let at : home ≡ rooted above = sym c ∙ is in
    let runs : join home run ≡ rooted (run ∷ above) =
      ap (λ p. join p run) at ∙ join-rooted above run h run-IsName in
    let cleaned : clean (rooted (run ∷ above)) ≡ rooted (run ∷ above) =
      clean-rooted (run ∷ above) (run-IsName, h) in
    simp (runs, is, cleaned, join-rooted above run h run-IsName, same_path_refl)
      (IsRuntimeFile-check_owned (rooted (run ∷ above))
        (instance_owned_runtime_paths (rooted (run ∷ above))) (files-IsRuntimeFile above h))
