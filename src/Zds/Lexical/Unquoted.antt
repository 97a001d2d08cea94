-- ===== src/Zds/Lexical/Unquoted.antt =====
-- `map_unquoted` agrees with the state machine of the regions.
use mathlib.Core.List.{map-append}
use mos_agondev.Prelude.{
  Bool-cases, [], append-nil, append_assoc, arith, false, inl, inr, list_eq, map, nat_eq, none,
  option_eq, pair_eq, refl, some, sym, true, ℕ, ◌++◌, ◌==◌, ◌∙◌, ◌∷◌, ◌≡◌,
}
use mos_agondev.Text.{Str}
use mos_agondev.Zds.Lexical.{Mapping, is_quote, map_finish, map_from, map_outside, map_unquoted}
use mos_agondev.Zds.Lexical.Regions.{Region, behind, inside, outside, overlay}

-- the variables of `map_unquoted` in a region, with `buf` read since the region began
abbrev pub mapping : Region → Str → Str → Mapping
mapping outside out buf = record {
  output = out;
  plain = buf;
  quote = none;
  quoted = [];
  escaped = false;
}
mapping (inside q) out buf = record {
  output = out;
  plain = [];
  quote = some q;
  quoted = buf;
  escaped = false;
}
mapping (behind q) out buf = record {
  output = out;
  plain = [];
  quote = some q;
  quoted = buf;
  escaped = true;
}

abbrev shown : (ℕ → ℕ) → Region → Str → Str
shown f outside buf = map f buf
shown f _ buf = buf

map_finish-mapping :
    (f : ℕ → ℕ) (r : Region) (out buf : Str)
    → map_finish (map f) (mapping r out buf) ≡ out ++ shown f r buf
unfolding map_finish
map_finish-mapping f outside out [] = sym (append-nil out)
map_finish-mapping f outside out (c ∷ buf) = refl
map_finish-mapping f (inside q) out buf = refl
map_finish-mapping f (behind q) out buf = refl

map_outside_quote :
    (f : ℕ → ℕ) (out buf : Str) (c : ℕ)
    → is_quote c ≡ true
    → map_outside (map f) (mapping outside out buf) c
      ≡ mapping (inside c) (out ++ map f buf) (c ∷ [])
unfolding map_outside
map_outside_quote f out [] c h = ground (arith, append-nil out)
map_outside_quote f out (b ∷ buf) c h = ground arith

map_from-overlay :
    (f : ℕ → ℕ) (r : Region) (out buf s : Str)
    → map_from (map f) (mapping r out buf) s ≡ out ++ (shown f r buf ++ overlay f (λ c. c) r s)
unfolding map_from overlay
map_from-overlay f r out buf [] = map_finish-mapping f r out buf ∙ simp append-nil
map_from-overlay f outside out buf (c ∷ cs) = elim (Bool-cases (is_quote c)) [
  | inl e ↦
      rw (map_outside_quote f out buf c e, e)
        (map_from-overlay f (inside c) (out ++ map f buf) (c ∷ []) cs ∙ simp append_assoc)
  | inr e ↦
      rw (e, map_outside)
        (map_from-overlay f outside out (buf ++ c ∷ []) cs ∙ simp (map-append, append_assoc))
]
map_from-overlay f (inside q) out buf (c ∷ cs) = elim (Bool-cases (c == b'\\')) [
  | inl e ↦ rw e (map_from-overlay f (behind q) out (buf ++ c ∷ []) cs ∙ simp append_assoc)
  | inr e ↦ rw e (elim (Bool-cases (c == q)) [
    | inl d ↦ rw d (map_from-overlay f outside (out ++ (buf ++ c ∷ [])) [] cs ∙ simp append_assoc)
    | inr d ↦ rw d (map_from-overlay f (inside q) out (buf ++ c ∷ []) cs ∙ simp append_assoc)
  ])
]
map_from-overlay f (behind q) out buf (c ∷ cs) =
    map_from-overlay f (inside q) out (buf ++ c ∷ []) cs ∙ simp append_assoc

-- `map_unquoted` with a change of single characters changes the plain ones and keeps the others.
pub map_unquoted-overlay :
    (s : Str) (f : ℕ → ℕ) → map_unquoted s (map f) ≡ overlay f (λ c. c) outside s
unfolding map_unquoted
map_unquoted-overlay s f = map_from-overlay f outside [] [] s
