-- ===== src/Zds/Translate/Rows.antt =====
-- The rows that the inner loop of translate writes.
use mathlib.Core.List.{map-append}
use mos_agondev.Errors.{ok, ok-injective}
use mos_agondev.Prelude.{
  All, Bool-cases, Dict, List, [], ap, append-nil, append_assoc, arith, contains, false, inl, inr,
  list_eq, map, nat_eq, option_eq, pair_eq, refl, sym, ℕ, ◌++◌, ◌+◌, ◌∙◌, ◌∷◌, ◌≡◌,
}
use mos_agondev.Text.{Str}
use mos_agondev.Zds.Lexical.{mask_quoted, split_comment, split_physical_line}
use mos_agondev.Zds.Records.{Analysis, MacroSpec, SourceLocation}
use mos_agondev.Zds.Translate.{Emission, emit_lines, emit_one, has_dollar, render_line}

-- one line of the output behind the header
pub record Row : Type 0 where
  pub rendered : Str
  pub suffix : Str
  pub location : SourceLocation

abbrev pub row_text : Row → Str
row_text r = r.rendered ++ (r.suffix ++ (10 ∷ []))

abbrev pub row_location : Row → SourceLocation
row_location r = r.location

abbrev pub row_line : Row → ℕ
row_line r = r.location.line

-- The rows of one line of the input: one for each text that it is rendered to, with the comment of
-- the line behind the last one.
abbrev pub rows_of : SourceLocation → Str → List Str → List Row
rows_of location comment [] = []
rows_of location comment (r ∷ []) =
    record { rendered = r; suffix = comment; location = location } ∷ []
rows_of location comment (r ∷ s ∷ rest) =
    record { rendered = r; suffix = []; location = location } ∷ rows_of location comment (s ∷ rest)

-- the three outputs are those of the rows
pub record Wrote (e e' : Emission) (rows : List Row) : Type 0 where
  pub output : e'.output ≡ e.output ++ map row_text rows
  pub output_to_source : e'.output_to_source ≡ e.output_to_source ++ map row_line rows
  pub output_locations : e'.output_locations ≡ e.output_locations ++ map row_location rows

abbrev pub written : List Row → Emission → Emission
written rows e = record e {
  output = e.output ++ map row_text rows;
  output_to_source = e.output_to_source ++ map row_line rows;
  output_locations = e.output_locations ++ map row_location rows;
}

abbrev pub NoDollar : Str → Type 0
NoDollar rendered = contains b'$' (mask_quoted rendered) ≡ false

-- The rows of all lines, in order: the line with number `n` is rendered in the state that the lines
-- in front of it leave, to texts with no `$` outside strings.
pub data Rows (macros : Dict Str MacroSpec) (analysis : Analysis)
    : ℕ → List Str → List SourceLocation → Emission → List Row → Type 0 where
  no_rows : (n : ℕ) (e : Emission) → Rows macros analysis n [] [] e []
  line_rows :
      (n : ℕ) (physical : Str) (lines : List Str) (location : SourceLocation)
      (locations : List SourceLocation) (e next : Emission) (rendered : List Str)
      (others : List Row)
      → render_line macros analysis n (split_comment (split_physical_line physical).0).0 e
        ≡ ok (rendered, next)
      → All NoDollar rendered
      → Rows macros analysis
          (n + 1)
          lines
          locations
          (written
            (rows_of location (split_comment (split_physical_line physical).0).1 rendered)
            next)
          others
      → Rows macros analysis n
          (physical ∷ lines)
          (location ∷ locations)
          e
          (rows_of location (split_comment (split_physical_line physical).0).1 rendered ++ others)

pub Wrote-nothing :
    (e e' : Emission)
    → e'.output ≡ e.output
    → e'.output_to_source ≡ e.output_to_source
    → e'.output_locations ≡ e.output_locations
    → Wrote e e' []
Wrote-nothing e e' o s l = record {
  output = o ∙ sym (append-nil e.output);
  output_to_source = s ∙ sym (append-nil e.output_to_source);
  output_locations = l ∙ sym (append-nil e.output_locations);
}

append-map-append {ℓ κ} :
    {A : Type ℓ} {B : Type κ} (f : A → B) (xs ys : List A) (x y z : List B)
    → y ≡ x ++ map f xs
    → z ≡ y ++ map f ys
    → z ≡ x ++ map f (xs ++ ys)
append-map-append f xs ys x y z p q =
    q
    ∙ ap (λ t. t ++ map f ys) p
    ∙ append_assoc x (map f xs) (map f ys)
    ∙ ap (λ t. x ++ t) (sym (map-append f xs ys))

pub Wrote-trans :
    (a b c : Emission) (xs ys : List Row) → Wrote a b xs → Wrote b c ys → Wrote a c (xs ++ ys)
Wrote-trans a b c xs ys g h = record {
  output = append-map-append row_text xs ys a.output b.output c.output g.output h.output;
  output_to_source = append-map-append row_line xs ys _ _ _ g.output_to_source h.output_to_source;
  output_locations =
      append-map-append row_location xs ys _ _ _ g.output_locations h.output_locations;
}

pub written-Wrote : (rows : List Row) (e : Emission) → Wrote e (written rows e) rows
written-Wrote rows e = record { output = refl; output_to_source = refl; output_locations = refl }

same_emission :
    (e : Emission) (o o' : List Str) (n n' : List ℕ) (l l' : List SourceLocation)
    → o ≡ o'
    → n ≡ n'
    → l ≡ l'
    → Path Emission
        (record e { output = o; output_to_source = n; output_locations = l })
        (record e { output = o'; output_to_source = n'; output_locations = l' })
same_emission e o o' n n' l l' p q r = cc

written-append :
    (xs ys : List Row) (e : Emission) → written ys (written xs e) ≡ written (xs ++ ys) e
written-append xs ys e =
    same_emission e _ _ _ _ _ _ (append-map-append row_text xs ys e.output _ _ refl refl)
      (append-map-append row_line xs ys e.output_to_source _ _ refl refl)
      (append-map-append row_location xs ys e.output_locations _ _ refl refl)

pub emit_lines-written :
    (location : SourceLocation) (comment : Str) (rendered : List Str) (e e' : Emission)
    → emit_lines location comment rendered e ≡ ok e'
    → (written (rows_of location comment rendered) e ≡ e') × All NoDollar rendered
unfolding emit_lines
emit_lines-written location comment [] e e' h = (
  same_emission e _ _ _ _ _ _ (append-nil e.output) (append-nil e.output_to_source)
        (append-nil e.output_locations)
      ∙ ok-injective e e' h,
  tt,
)
emit_lines-written location comment (r ∷ []) e e' h = elim (Bool-cases (has_dollar r)) [
  | inl d ↦ absurd (ground (arith, h, d))
  | inr d ↦ (ok-injective (emit_one location r comment e) e' (rw (d, emit_lines) at h), (d, tt))
]
emit_lines-written location comment (r ∷ s ∷ rest) e e' h = elim (Bool-cases (has_dollar r)) [
  | inl d ↦ absurd (ground (arith, h, d))
  | inr d ↦
      let row : Row = record { rendered = r; suffix = []; location = location } in
      let (wrote, clean) =
        emit_lines-written location comment (s ∷ rest) (emit_one location r [] e) e'
          (rw (d, emit_lines) at h) in
      (sym (written-append (row ∷ []) (rows_of location comment (s ∷ rest)) e) ∙ wrote, (d, clean))
]
