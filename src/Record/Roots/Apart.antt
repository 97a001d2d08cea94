-- ===== src/Record/Roots/Apart.antt =====
-- What parse_roots of projects/mos-port/tools/record_target_step.py promises its callers.
use mos_agondev.Errors.{
  Result, bind-eq-ok, fail_if, fail_if-next-ok, from_option, from_option-eq-ok, ok, ok-injective,
  provenance_error, ◌>>=◌, ◌>>◌,
}
use mos_agondev.Prelude.{
  All, All-insert_by, All-sort_by, Bool, Bool-cases, IsSorted, List, [], arith, contains, false,
  inl, inr, insert_by, leb, list_beq_iff, list_eq, map, nat_eq, not, option_eq, pair_eq, some,
  sort_by, sort_by-IsSorted, subst, sym, true, ℕ, ◌++◌, ◌==◌, ◌||◌, ◌∷◌, ◌≡◌, ◌≢◌,
}
use mos_agondev.Record.Roots.{
  Paths, Root, add_root, is_alias, is_bad_name, is_root_name, lexical_absolute, longer_first,
  parse_root, parse_roots, parse_roots_from, root_length, split_root,
}
use mos_agondev.Text.{Str}
use mos_agondev.Zds.Lexical.Regions.{after}

-- Two roots without a name or a path in common.
abbrev pub IsApart : Root → Root → Type 0
IsApart r s = (r.name ≢ s.name) × (r.lexical ≢ s.lexical) × (r.resolved ≢ s.resolved)

abbrev pub AreApart : List Root → Type 0
AreApart [] = Unit {0}
AreApart (r ∷ rs) = All (IsApart r) rs × AreApart rs

-- A root that the file system has, under a valid name.
abbrev pub IsDirectory : Paths → Root → Type 0
IsDirectory paths r =
    (is_root_name r.name ≡ true)
    × (paths.resolve r.lexical ≡ some r.resolved)
    × (paths.is_dir r.resolved ≡ true)

IsApart-sym : (r s : Root) → IsApart r s → IsApart s r
IsApart-sym r s (names, lexicals, resolveds) =
    (λ e. names (sym e), λ e. lexicals (sym e), λ e. resolveds (sym e))

AreApart-insert_by :
    (le : Root → Root → Bool) (r : Root) (rs : List Root)
    → All (IsApart r) rs
    → AreApart rs
    → AreApart (insert_by le r rs)
unfolding insert_by
AreApart-insert_by le r [] h k = (tt, tt)
AreApart-insert_by le r (s ∷ rs) (first, h) (others, k) = elim (Bool-cases (le r s)) [
  | inl e ↦ rw (e, AreApart) ((first, h), (others, k))
  | inr e ↦
      rw (e, AreApart)
        (
          All-insert_by (IsApart s) le r rs (IsApart-sym r s first) others,
          AreApart-insert_by le r rs h k,
        )
]

AreApart-sort_by :
    (le : Root → Root → Bool) (rs : List Root) → AreApart rs → AreApart (sort_by le rs)
unfolding sort_by
AreApart-sort_by le [] h = tt
AreApart-sort_by le (r ∷ rs) (h, k) =
    AreApart-insert_by le r (sort_by le rs) (All-sort_by (IsApart r) le rs h)
      (AreApart-sort_by le rs k)

-- A new root at the end.
All-snoc : (P : Root → Type 0) (rs : List Root) (r : Root) → All P rs → P r → All P (rs ++ (r ∷ []))
All-snoc P [] r h p = (p, tt)
All-snoc P (s ∷ rs) r (q, h) p = (q, All-snoc P rs r h p)

AreApart-snoc :
    (rs : List Root) (r : Root)
    → AreApart rs
    → All (λ s. IsApart s r) rs
    → AreApart (rs ++ (r ∷ []))
AreApart-snoc [] r h k = (tt, tt)
AreApart-snoc (s ∷ rs) r (h, others) (p, k) =
    (All-snoc (IsApart s) rs r h p, AreApart-snoc rs r others k)

-- The tests of a round, read as differences.
not_name :
    (r s : Root) (rest : Bool)
    → ((s.name == r.name) || rest) ≡ false
    → (s.name ≢ r.name) × (rest ≡ false)
not_name r s rest h = ground (arith, h, list_beq_iff s.name r.name)

not_lexical :
    (r s : Root) (rest : Bool)
    → ((s.lexical == r.lexical) || rest) ≡ false
    → (s.lexical ≢ r.lexical) × (rest ≡ false)
not_lexical r s rest h = ground (arith, h, list_beq_iff s.lexical r.lexical)

not_resolved :
    (r s : Root) (rest : Bool)
    → ((s.resolved == r.resolved) || rest) ≡ false
    → (s.resolved ≢ r.resolved) × (rest ≡ false)
not_resolved r s rest h = ground (arith, h, list_beq_iff s.resolved r.resolved)

contains-IsApart :
    (r : Root) (rs : List Root)
    → contains r.name (map (λ s. s.name) rs) ≡ false
    → contains r.lexical (map (λ s. s.lexical) rs) ≡ false
    → contains r.resolved (map (λ s. s.resolved) rs) ≡ false
    → All (λ s. IsApart s r) rs
unfolding contains
contains-IsApart r [] a b c = tt
contains-IsApart r (s ∷ rs) a b c =
    let (names, more_names) = not_name r s (contains r.name (map (λ s. s.name) rs)) a in
    let (lexicals, more_lexicals) =
      not_lexical r s (contains r.lexical (map (λ s. s.lexical) rs)) b in
    let (resolveds, more_resolveds) =
      not_resolved r s (contains r.resolved (map (λ s. s.resolved) rs)) c in
    ((names, lexicals, resolveds), contains-IsApart r rs more_names more_lexicals more_resolveds)

both_false : (a b : Bool) → (a || b) ≡ false → (a ≡ false) × (b ≡ false)
both_false a b h = ground arith

not-false : (b : Bool) → not b ≡ false → b ≡ true
not-false b h = ground arith

leb_total : (m n : ℕ) → leb n m ≡ false → leb m n ≡ true
leb_total m n h = ground (arith, h)

-- The state of the loop.
abbrev IsRootList : Paths → List Root → Type 0
IsRootList paths rs = All (IsDirectory paths) rs × AreApart rs

add_root-IsRootList :
    (paths : Paths) (result next : List Root) (root : Root)
    → IsRootList paths result
    → is_root_name root.name ≡ true
    → contains root.name (map (λ s. s.name) result) ≡ false
    → paths.resolve root.lexical ≡ some root.resolved
    → add_root paths result root ≡ ok next
    → IsRootList paths next
unfolding add_root is_alias
add_root-IsRootList paths result next root (known, apart) valid fresh found_at h =
    let finished : Result (List Root) = ok (result ++ (root ∷ [])) in
    let (here, after) =
      fail_if-next-ok (not (paths.is_dir root.resolved)) provenance_error
        (fail_if (is_alias root result) provenance_error >> finished) h in
    let (alone, last) = fail_if-next-ok (is_alias root result) provenance_error finished after in
    let directory = not-false (paths.is_dir root.resolved) here in
    let (lexicals, resolveds) = both_false _ _ alone in
    subst (IsRootList paths) (ok-injective (result ++ (root ∷ [])) next last) (
      All-snoc (IsDirectory paths) result root known (valid, found_at, directory),
      AreApart-snoc result root apart (contains-IsApart root result fresh lexicals resolveds),
    )

parse_root-IsRootList :
    (paths : Paths) (cwd : Str) (result next : List Root) (name raw_path : Str)
    → IsRootList paths result
    → parse_root paths cwd result (name, raw_path) ≡ ok next
    → IsRootList paths next
unfolding parse_root is_bad_name
parse_root-IsRootList paths cwd result next name raw_path known h =
    let lexical = lexical_absolute paths raw_path cwd in
    let located = from_option provenance_error (paths.resolve lexical) in
    let finish = λ (resolved : Str).
      add_root paths result (record { name = name; lexical = lexical; resolved = resolved }) in
    let (good, after) =
      fail_if-next-ok (is_bad_name name result) provenance_error
        (fail_if (raw_path == []) provenance_error >> (located >>= finish)) h in
    let (filled, rest) =
      fail_if-next-ok (raw_path == []) provenance_error (located >>= finish) after in
    let (resolved, located_at, last) = bind-eq-ok located finish rest in
    let (valid, fresh) = both_false _ _ good in
    add_root-IsRootList paths result next
      (record { name = name; lexical = lexical; resolved = resolved }) known
      (not-false (is_root_name name) valid) fresh
      (from_option-eq-ok provenance_error (paths.resolve lexical) located_at) last

parse_roots_from-IsRootList :
    (paths : Paths) (cwd : Str) (values : List Str) (result roots : List Root)
    → IsRootList paths result
    → parse_roots_from paths cwd values result ≡ ok roots
    → IsRootList paths roots
unfolding parse_roots_from
parse_roots_from-IsRootList paths cwd [] result roots known h =
    subst (IsRootList paths) (ok-injective result roots h) known
parse_roots_from-IsRootList paths cwd (raw ∷ values) result roots known h =
    let (next, step, rest) =
      bind-eq-ok (from_option provenance_error (split_root raw) >>= parse_root paths cwd result) _
        h in
    let ((name, raw_path), parts, added) =
      bind-eq-ok (from_option provenance_error (split_root raw)) (parse_root paths cwd result)
        step in
    parse_roots_from-IsRootList paths cwd values next roots
      (parse_root-IsRootList paths cwd result next name raw_path known added) rest

-- The roots that parse_roots returns are directories under valid names with the resolved paths that
-- the file system gives them, no two of them share a name, a path or a resolved path, and they come
-- with the longest path first.
pub parse_roots-AreApart :
    (paths : Paths) (cwd : Str) (values : List Str) (roots : List Root)
    → parse_roots paths cwd values ≡ ok roots
    → All (IsDirectory paths) roots × AreApart roots × IsSorted longer_first roots
unfolding parse_roots
parse_roots-AreApart paths cwd values roots h =
    let (result, read, last) = bind-eq-ok (parse_roots_from paths cwd values []) _ h in
    let (known, apart) = parse_roots_from-IsRootList paths cwd values [] result (tt, tt) read in
    subst (λ rs. All (IsDirectory paths) rs × AreApart rs × IsSorted longer_first rs)
      (ok-injective (sort_by longer_first result) roots last)
      (
        All-sort_by (IsDirectory paths) longer_first result known,
        AreApart-sort_by longer_first result apart,
        sort_by-IsSorted longer_first result (λ r s e. leb_total (root_length r) (root_length s) e),
      )
