-- ===== src/Zds/Provenance/Verified.antt =====
-- The loops of load_prepared_provenance over the tree and over the listed files.
use mathlib.Core.List.{Memᴰ}
use mos_agondev.Prelude.{
  All, Bool-cases, Dict, List, [], ap₂, arith, has_key, inl, inr, insert, insert_cases,
  list_beq_iff, list_eq, lookup, lookup-insert, lookup-insert_self, nat_eq, not, option_eq, pair_eq,
  refl, some, subst, sym, true, ℕ, ◌==◌, ◌∙◌, ◌∷◌, ◌≡◌, ◌⊎◌,
}
use mos_agondev.Text.{Str}
use mos_agondev.Zds.Provenance.{
  FileKind, TreeEntry, directory, executable_bits, preparation_metadata, regular, scan_tree,
  special, symbolic_link, verify_files,
}
use mos_agondev.Errors.{
  bind-eq-ok, fail_if, fail_if-not-ok, from_option, from_option-eq-ok, key_error, ok, value_error,
}

-- a regular file of the tree with a given name
pub record IsFile (entries : List TreeEntry) (name : Str) (f : TreeEntry) : Type 0 where
  pub member : Memᴰ f entries
  pub named : f.relative ≡ name
  pub is_regular : f.kind ≡ regular

-- what the scan has done with a path
abbrev pub IsScanned {ℓ} : {A : Type ℓ} → Dict Str A → TreeEntry → Type 0
IsScanned actual path =
    (path.kind ≡ directory)
    ⊎ ((path.kind ≡ regular)
        × ((path.relative ≡ preparation_metadata) ⊎ (has_key path.relative actual ≡ true)))

-- the outcome of the scan
pub record Scanned (entries : List TreeEntry) (before out : Dict Str TreeEntry) : Type 0 where
  pub keeps : (name : Str) → has_key name before ≡ true → has_key name out ≡ true
  pub origin :
      (name : Str) (f : TreeEntry)
      → lookup name out ≡ some f
      → (lookup name before ≡ some f) ⊎ IsFile entries name f
  pub scanned : All (IsScanned out) entries

IsFile-weaken :
    (path : TreeEntry) (entries : List TreeEntry) (name : Str) (f : TreeEntry)
    → IsFile entries name f
    → IsFile (path ∷ entries) name f
IsFile-weaken path entries name f h = record {
  member = Memᴰ.tail h.member;
  named = h.named;
  is_regular = h.is_regular;
}

has_key-insert :
    (name other : Str) (f : TreeEntry) (d : Dict Str TreeEntry)
    → has_key name d ≡ true
    → has_key name (insert other f d) ≡ true
unfolding has_key
has_key-insert name other f d h = ground (arith, lookup-insert name other f d)

has_key-insert_self :
    (name : Str) (f : TreeEntry) (d : Dict Str TreeEntry) → has_key name (insert name f d) ≡ true
unfolding has_key
has_key-insert_self name f d = ground (arith, lookup-insert_self name f d)

-- a path that the scan passes over
skip-Scanned :
    (path : TreeEntry) (entries : List TreeEntry) (before out : Dict Str TreeEntry)
    → IsScanned out path
    → Scanned entries before out
    → Scanned (path ∷ entries) before out
skip-Scanned path entries before out h rest = record {
  keeps = rest.keeps;
  origin = λ name f e. elim (rest.origin name f e) [
    | inl old ↦ inl old
    | inr file ↦ inr (IsFile-weaken path entries name f file)
  ];
  scanned = (h, rest.scanned);
}

-- a regular file that the scan enters
enter-Scanned :
    (path : TreeEntry) (entries : List TreeEntry) (before out : Dict Str TreeEntry)
    → path.kind ≡ regular
    → Scanned entries (insert path.relative path before) out
    → Scanned (path ∷ entries) before out
enter-Scanned path entries before out k rest = record {
  keeps = λ name h. rest.keeps name (has_key-insert name path.relative path before h);
  origin = λ name f e. elim (rest.origin name f e) [
    | inr file ↦ inr (IsFile-weaken path entries name f file)
    | inl new ↦ elim (insert_cases name path.relative path f before new) [
      | inr old ↦ inl old
      | inl (n, same) ↦ inr (
          subst (IsFile (path ∷ entries) name) same
            (record { member = Memᴰ.head refl; named = n; is_regular = k }))
    ]
  ];
  scanned = (
    inr (k, inr (rest.keeps path.relative (has_key-insert_self path.relative path before))),
    rest.scanned,
  );
}

-- to split on the kind of a path
FileKind-cases :
    (k : FileKind) → (k ≡ directory) ⊎ ((k ≡ regular) ⊎ ((k ≡ symbolic_link) ⊎ (k ≡ special)))
FileKind-cases symbolic_link = inr (inr (inl refl))
FileKind-cases directory = inl refl
FileKind-cases regular = inr (inl refl)
FileKind-cases special = inr (inr (inr refl))

pub scan_tree-Scanned :
    (entries : List TreeEntry) (before out : Dict Str TreeEntry)
    → scan_tree entries before ≡ ok out
    → Scanned entries before out
unfolding scan_tree
scan_tree-Scanned [] before out h =
    subst (Scanned [] before) (ground arith)
      (record { keeps = λ name k. k; origin = λ name f e. inl e; scanned = tt })
scan_tree-Scanned (path ∷ rest) before out h = elim (FileKind-cases path.kind) [
  | inl d ↦
      skip-Scanned path rest before out (inl d)
        (scan_tree-Scanned rest before out (rw (d, scan_tree) at h))
  | inr (inr (inl l)) ↦ absurd (ground arith)
  | inr (inr (inr l)) ↦ absurd (ground arith)
  | inr (inl k) ↦ elim (Bool-cases (path.relative == preparation_metadata)) [
    | inl m ↦
        skip-Scanned path rest before out
          (inr (k, inl ((list_beq_iff path.relative preparation_metadata).0 m)))
          (scan_tree-Scanned rest before out (rw (k, m, scan_tree) at h))
    | inr m ↦
        enter-Scanned path rest before out k (
          scan_tree-Scanned rest (insert path.relative path before) out (rw (k, m, scan_tree) at h))
  ]
]

-- a listed file is in the tree, with the digest and the bits of its entry
pub record IsVerified (sha256 : List ℕ → Str) (actual : Dict Str TreeEntry)
    (expected : Dict Str (Str × Str)) (name : Str) : Type 0 where
  pub file : TreeEntry
  pub found_file : lookup name actual ≡ some file
  pub listed : lookup name expected ≡ some (sha256 file.content, executable_bits file.mode)

pub verify_files-All :
    (sha256 : List ℕ → Str) (names : List Str) (actual : Dict Str TreeEntry)
    (expected : Dict Str (Str × Str))
    → verify_files sha256 names actual expected ≡ ok tt
    → All (IsVerified sha256 actual expected) names
unfolding verify_files
verify_files-All sha256 [] actual expected h = tt
verify_files-All sha256 (name ∷ rest) actual expected h =
    let (path, p, h1) = bind-eq-ok (from_option key_error (lookup name actual)) _ h in
    let ((digest, bits), e, h2) = bind-eq-ok (from_option key_error (lookup name expected)) _ h1 in
    let (_, d, h3) = bind-eq-ok (fail_if (not (sha256 path.content == digest)) value_error) _ h2 in
    let (_, b, h4) =
      bind-eq-ok (fail_if (not (executable_bits path.mode == bits)) value_error) _ h3 in
    let same_digest =
      (list_beq_iff (sha256 path.content) digest).0 (fail_if-not-ok _ value_error d) in
    let same_bits =
      (list_beq_iff (executable_bits path.mode) bits).0 (fail_if-not-ok _ value_error b) in
    (
      record {
        file = path;
        found_file = from_option-eq-ok key_error (lookup name actual) p;
        listed =
            from_option-eq-ok key_error (lookup name expected) e
            ∙ ap₂ (λ x y. some (x, y)) (sym same_digest) (sym same_bits);
      },
      verify_files-All sha256 rest actual expected h4,
    )
