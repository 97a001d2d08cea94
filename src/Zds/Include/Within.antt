-- ===== src/Zds/Include/Within.antt =====
-- Where the file that resolve_include finds can be.
use mos_agondev.Prelude.{
  &&-true, Bool-cases, List, Option, [], any, ap, arith, inl, inr, none, some, subst, sym, true,
  ◌&&◌, ◌∙◌, ◌∷◌, ◌≡◌,
}
use mos_agondev.Text.{Str, codes, starts_with}
use mos_agondev.Zds.Include.{
  FileSystem, accepted_path, display_of, first_accepted, is_below, real_path,
  resolve_case_compatibly, resolve_include, strict_path, tested_path,
}
use mos_agondev.Zds.Names.{forward_slashes}
use mos_agondev.Errors.{bind-eq-ok, ok, ok-injective}

-- a file that is found: it is regular and below one of the roots
pub record IsWithin (fs : FileSystem) (roots : List (List Str)) (resolved : List Str) : Type 0 where
  pub file : fs.is_file resolved ≡ true
  pub below : any (λ root. is_below root resolved) roots ≡ true

tested_path-IsWithin :
    (fs : FileSystem) (roots : List (List Str)) (path resolved : List Str)
    → tested_path fs roots path ≡ ok (some resolved)
    → IsWithin fs roots resolved
unfolding tested_path
tested_path-IsWithin fs roots path resolved h =
    elim (Bool-cases (fs.is_file path && any (λ root. is_below root path) roots)) [
      | inr failed ↦ absurd (ground arith)
      | inl passed ↦
          let same : path ≡ resolved = ground arith in
          let both = &&-true _ _ passed in
          subst (IsWithin fs roots) same (record { file = both.0; below = both.1 })
    ]

strict_path-IsWithin :
    (fs : FileSystem) (roots : List (List Str)) (o : Option (List Str)) (resolved : List Str)
    → strict_path fs roots o ≡ ok (some resolved)
    → IsWithin fs roots resolved
unfolding strict_path
strict_path-IsWithin fs roots none resolved h = absurd (ground arith)
strict_path-IsWithin fs roots (some path) resolved h = tested_path-IsWithin fs roots path resolved h

real_path-IsWithin :
    (fs : FileSystem) (roots : List (List Str)) (o : Option (List Str)) (resolved : List Str)
    → real_path fs roots o ≡ ok (some resolved)
    → IsWithin fs roots resolved
unfolding real_path
real_path-IsWithin fs roots none resolved h = absurd (ground arith)
real_path-IsWithin fs roots (some path) resolved h = elim (Bool-cases (fs.is_symlink path)) [
  | inl link ↦ absurd (ground arith)
  | inr no_link ↦
      strict_path-IsWithin fs roots (fs.resolve_strict path) resolved (rw (no_link, real_path) at h)
]

accepted_path-IsWithin :
    (fs : FileSystem) (roots : List (List Str)) (candidate resolved : List Str)
    → accepted_path fs roots candidate ≡ ok (some resolved)
    → IsWithin fs roots resolved
unfolding accepted_path
accepted_path-IsWithin fs roots candidate resolved h =
    let (matched, _, h1) = bind-eq-ok (resolve_case_compatibly fs [] candidate) _ h in
    real_path-IsWithin fs roots matched resolved h1

first_accepted-IsWithin :
    (fs : FileSystem) (source_root : List Str) (roots candidates : List (List Str))
    (resolved : List Str) (display : Str)
    → first_accepted fs source_root roots candidates ≡ ok (resolved, display)
    → IsWithin fs roots resolved × (display ≡ display_of source_root resolved)
unfolding first_accepted
first_accepted-IsWithin fs source_root roots [] resolved display h = cc
first_accepted-IsWithin fs source_root roots (candidate ∷ rest) resolved display h =
    let (tried, first, h1) = bind-eq-ok (accepted_path fs roots candidate) _ h in
    go tried first h1 (first_accepted-IsWithin fs source_root roots rest resolved display)
  where
    go :
        (tried : Option (List Str))
        → accepted_path fs roots candidate ≡ ok tried
        → (elim tried [
          | none ↦ first_accepted fs source_root roots rest
          | some path ↦ ok (path, display_of source_root path)
        ])
          ≡ ok (resolved, display)
        → (first_accepted fs source_root roots rest ≡ ok (resolved, display)
            → IsWithin fs roots resolved × (display ≡ display_of source_root resolved))
        → IsWithin fs roots resolved × (display ≡ display_of source_root resolved)
    go none first k later = later k
    go (some path) first k later =
        let same = ok-injective (path, display_of source_root path) (resolved, display) k in
        let same_path = ap (λ (t : List Str × Str). t.0) same in
        (
          subst (IsWithin fs roots) same_path
              (accepted_path-IsWithin fs roots candidate path first),
          sym (ap (λ (t : List Str × Str). t.1) same) ∙ ap (display_of source_root) same_path,
        )

-- An include that is found is a regular file below the source root or below one of the external
-- roots, and is displayed by its path below the source root, or as one of the toolchain.
pub resolve_include-IsWithin :
    (fs : FileSystem) (source_root including : List Str) (spelling : Str)
    (external_include_roots : List (List Str)) (resolved : List Str) (display : Str)
    → resolve_include fs source_root including spelling external_include_roots
      ≡ ok (resolved, display)
    → IsWithin fs (source_root ∷ external_include_roots) resolved
      × (display ≡ display_of source_root resolved)
unfolding resolve_include
resolve_include-IsWithin fs source_root including spelling roots resolved display h =
    elim (Bool-cases (starts_with (codes "/") (forward_slashes spelling))) [
      | inl absolute ↦ absurd (ground arith)
      | inr relative ↦
          first_accepted-IsWithin fs source_root (source_root ∷ roots) _ resolved display
            (rw (relative, resolve_include) at h)
    ]
