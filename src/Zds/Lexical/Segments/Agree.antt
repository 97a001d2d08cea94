-- ===== src/Zds/Lexical/Segments/Agree.antt =====
-- map_unquoted is the transform run over the segments.
use mos_agondev.Prelude.{
  Bool-cases, List, [], append-nil, append_assoc, arith, inl, inr, list_eq, nat_eq, option_eq,
  pair_eq, refl, sym, ℕ, ◌++◌, ◌==◌, ◌∙◌, ◌∷◌, ◌≡◌,
}
use mos_agondev.Text.{Str}
use mos_agondev.Zds.Lexical.{is_quote, map_finish, map_from, map_round, map_unquoted}
use mos_agondev.Zds.Lexical.Regions.{Region, behind, inside, outside, quoting}
use mos_agondev.Zds.Lexical.Segments.{
  Segment, code_text, cut_finish, cut_round, render, segments, segments_from, string_text,
}
use mos_agondev.Zds.Lexical.Unquoted.{mapping}

render-append :
    (f : Str → Str) (xs ys : List Segment) → render f (xs ++ ys) ≡ render f xs ++ render f ys
unfolding render
render-append f [] ys = refl
render-append f (code_text s ∷ xs) ys = rw (render-append f xs ys) (rw append_assoc)
render-append f (string_text s ∷ xs) ys = rw (render-append f xs ys) (rw append_assoc)

map_finish-render :
    (f : Str → Str) (r : Region) (out buf : Str)
    → map_finish f (mapping r out buf) ≡ out ++ render f (cut_finish (quoting r) buf)
unfolding map_finish cut_finish render
map_finish-render f outside out [] = sym (append-nil out)
map_finish-render f outside out (c ∷ buf) = simp append-nil
map_finish-render f (inside q) out buf = simp append-nil
map_finish-render f (behind q) out buf = simp append-nil

-- one character, in each region
map_round-cut :
    (f : Str → Str) (r : Region) (out buf : Str) (c : ℕ)
    → (after_r : Region) × (out' : Str) × (buf' : Str) × (map_round f (mapping r out buf) c
        ≡ mapping after_r out' buf')
      × ((cut_round (quoting r) buf c).state ≡ quoting after_r)
      × ((cut_round (quoting r) buf c).buffer ≡ buf')
      × (out' ≡ out ++ render f (cut_round (quoting r) buf c).closed)
unfolding map_round cut_round render
map_round-cut f outside out [] c = elim (Bool-cases (is_quote c)) [
  | inl e ↦ (
    inside c,
    out,
    c ∷ [],
    ground arith,
    ground arith,
    ground arith,
    ground (arith, append-nil out),
  )
  | inr e ↦ (
    outside,
    out,
    c ∷ [],
    ground arith,
    ground arith,
    ground arith,
    ground (arith, append-nil out),
  )
]
map_round-cut f outside out (b ∷ bs) c = elim (Bool-cases (is_quote c)) [
  | inl e ↦ (
    inside c,
    out ++ f (b ∷ bs),
    c ∷ [],
    ground arith,
    ground arith,
    ground arith,
    ground (arith, append-nil (f (b ∷ bs))),
  )
  | inr e ↦ (
    outside,
    out,
    b ∷ (bs ++ c ∷ []),
    ground arith,
    ground arith,
    ground arith,
    ground (arith, append-nil out),
  )
]
map_round-cut f (inside q) out buf c = elim (Bool-cases (c == b'\\')) [
  | inl e ↦ (
    behind q,
    out,
    buf ++ c ∷ [],
    ground arith,
    ground arith,
    ground arith,
    ground (arith, append-nil out),
  )
  | inr e ↦ elim (Bool-cases (c == q)) [
    | inl d ↦ (
      outside,
      out ++ (buf ++ c ∷ []),
      [],
      ground arith,
      ground arith,
      ground arith,
      ground (arith, append-nil (buf ++ c ∷ [])),
    )
    | inr d ↦ (
      inside q,
      out,
      buf ++ c ∷ [],
      ground arith,
      ground arith,
      ground arith,
      ground (arith, append-nil out),
    )
  ]
]
map_round-cut f (behind q) out buf c =
    (inside q, out, buf ++ c ∷ [], refl, refl, refl, sym (append-nil out))

map_from-render :
    (f : Str → Str) (s : Str) (r : Region) (out buf : Str)
    → map_from f (mapping r out buf) s ≡ out ++ render f (segments_from (quoting r) buf s)
unfolding map_from segments_from
map_from-render f [] r out buf = map_finish-render f r out buf
map_from-render f (c ∷ cs) r out buf =
    let (r', out', buf', moved, state, buffer, closed) = map_round-cut f r out buf c in
    rw (moved, state, buffer, map_from)
      (map_from-render f cs r' out' buf' ∙ rw (closed, render-append) (rw append_assoc))

-- `map_unquoted` calls its transform on the segments outside strings, in their order, and keeps
-- the strings.
pub map_unquoted-render : (s : Str) (f : Str → Str) → map_unquoted s f ≡ render f (segments s)
unfolding map_unquoted segments
map_unquoted-render s f = map_from-render f s outside [] []
