-- ===== src/Zds/Macros/Table.antt =====
-- The table that discover_macros returns.
use mos_agondev.Prelude.{
  Dict, Distinct, List, Option, Option-cases, [], all, arith, inl, inr, insert, insert_cases,
  insert_keeps, list_eq, lookup, nat_eq, none, option_eq, pair_eq, refl, some, subst, true, ℕ, ◌++◌,
  ◌+◌, ◌∷◌, ◌≡◌,
}
use mos_agondev.Regex.{Match, full_match, group_of, match, named}
use mos_agondev.Text.{Str, codes, split_lines}
use mos_agondev.Zds.Lexical.{mask_quoted}
use mos_agondev.Zds.Macros.{
  Discovery, add_macro, add_parsed, close_macro, close_source, code_of, define_macro, discover_from,
  discover_line, discover_lines, discover_macros, discover_source, spec_of,
}
use mos_agondev.Zds.Names.{macro_gas_name, parse_params}
use mos_agondev.Zds.Names.Params.{parse_params-Distinct}
use mos_agondev.Zds.Patterns.{g_name, ident, macro_start_re}
use mos_agondev.Zds.Records.{MacroSpec}
use mos_agondev.Errors.{Result, bind-eq-ok, err, ok, ◌>>=◌}

-- an entry is as its definition says
pub record IsMacro (name : Str) (spec : MacroSpec) : Type 0 where
  pub source_name : spec.source_name ≡ name
  pub gas_name : spec.gas_name ≡ macro_gas_name name
  pub params_distinct : Distinct spec.params
  pub params_ident : all (full_match ident) spec.params ≡ true

pub record IsTable (macros : Dict Str MacroSpec) : Type 0 where
  pub entries : (name : Str) (spec : MacroSpec) → lookup name macros ≡ some spec → IsMacro name spec

-- every macro of the first table is in the second one, unchanged
abbrev Keeps : Dict Str MacroSpec → Dict Str MacroSpec → Type 0
Keeps before later =
    (name : Str) (spec : MacroSpec) → lookup name before ≡ some spec → lookup name later ≡ some spec

insert-IsTable :
    (macros : Dict Str MacroSpec) (spec : MacroSpec)
    → IsTable macros
    → IsMacro spec.source_name spec
    → IsTable (insert spec.source_name spec macros)
insert-IsTable macros spec t m = record {
  entries = λ name other h. elim (insert_cases name spec.source_name spec other macros h) [
    | inl (e, same) ↦ subst (λ n. IsMacro n other) e (subst (IsMacro spec.source_name) same m)
    | inr old ↦ t.entries name other old
  ];
}

-- what a step of the discovery does to the table
record Grows (before later : Dict Str MacroSpec) : Type 0 where
  table : IsTable before → IsTable later
  keeps : Keeps before later

Grows-refl : (macros : Dict Str MacroSpec) → Grows macros macros
Grows-refl macros = record { table = λ t. t; keeps = λ name spec h. h }

Grows-trans : (a b c : Dict Str MacroSpec) → Grows a b → Grows b c → Grows a c
Grows-trans a b c g h = record {
  table = λ t. h.table (g.table t);
  keeps = λ name spec e. h.keeps name spec (g.keeps name spec e);
}

add_macro-Grows :
    (source_name : Str) (line_number : ℕ) (spec : MacroSpec) (st next : Discovery)
    → IsMacro spec.source_name spec
    → add_macro source_name line_number spec st ≡ ok next
    → Grows st.macros next.macros
unfolding add_macro
add_macro-Grows source_name line_number spec st next m h =
    elim (Option-cases (lookup spec.source_name st.macros)) [
      | inl e ↦
          let same : insert spec.source_name spec st.macros ≡ next.macros = ground arith in
          subst (Grows st.macros) same (record {
            table = λ t. insert-IsTable st.macros spec t m;
            keeps = λ name old. insert_keeps name spec.source_name spec old st.macros e;
          })
      | inr (old, e) ↦ absurd (ground arith)
    ]

add_parsed-Grows :
    (source_name : Str) (line_number : ℕ) (name : Str) (raw : Option Str) (st next : Discovery)
    → add_parsed source_name line_number name (parse_params raw) st ≡ ok next
    → Grows st.macros next.macros
unfolding add_parsed
add_parsed-Grows source_name line_number name raw st next h = go (parse_params raw) refl h
  where
    go :
        (r : Result (List Str))
        → parse_params raw ≡ r
        → add_parsed source_name line_number name r st ≡ ok next
        → Grows st.macros next.macros
    go (err e) p k = absurd (ground arith)
    go (ok params) p k =
        let (distinct, idents) = parse_params-Distinct raw params p in
        add_macro-Grows source_name line_number (spec_of source_name line_number name params) st
          next
          (record {
            source_name = refl;
            gas_name = refl;
            params_distinct = distinct;
            params_ident = idents;
          })
          k

define_macro-Grows :
    (source_name : Str) (line_number : ℕ) (start : Match) (st next : Discovery)
    → define_macro source_name line_number start st ≡ ok next
    → Grows st.macros next.macros
unfolding define_macro
define_macro-Grows source_name line_number start st next h = elim (Option-cases st.active) [
  | inr (other, e) ↦ absurd (ground arith)
  | inl e ↦
      add_parsed-Grows source_name line_number (named g_name start)
        (group_of (codes "params") start) st next (rw (e, define_macro) at h)
]

discover_line-Grows :
    (source_name : Str) (line_number : ℕ) (physical : Str) (st next : Discovery)
    → discover_line source_name line_number physical st ≡ ok next
    → Grows st.macros next.macros
unfolding discover_line close_macro
discover_line-Grows source_name line_number physical st next h =
    elim (Option-cases (match macro_start_re (mask_quoted (code_of physical)))) [
      | inr (start, e) ↦
          define_macro-Grows source_name line_number start st next (rw (e, discover_line) at h)
      | inl e ↦
          let same : st.macros ≡ next.macros = ground arith in
          subst (Grows st.macros) same (Grows-refl st.macros)
    ]

discover_lines-Grows :
    (source_name : Str) (line_number : ℕ) (lines : List Str) (st next : Discovery)
    → discover_lines source_name line_number lines st ≡ ok next
    → Grows st.macros next.macros
unfolding discover_lines
discover_lines-Grows source_name line_number [] st next h =
    let same : st.macros ≡ next.macros = ground arith in
    subst (Grows st.macros) same (Grows-refl st.macros)
discover_lines-Grows source_name line_number (physical ∷ rest) st next h =
    let (middle, first, others) =
      bind-eq-ok (discover_line source_name line_number physical st)
        (λ m. discover_lines source_name (line_number + 1) rest m) h in
    Grows-trans st.macros middle.macros next.macros
      (discover_line-Grows source_name line_number physical st middle first)
      (discover_lines-Grows source_name (line_number + 1) rest middle next others)

discover_source-Grows :
    (source_name text : Str) (macros next : Dict Str MacroSpec)
    → discover_source source_name text macros ≡ ok next
    → Grows macros next
unfolding discover_source close_source
discover_source-Grows source_name text macros next h =
    let (st, lines, closed) =
      bind-eq-ok
        (discover_lines source_name 1 (split_lines text)
          (record { macros = macros; active = none }))
        (close_source source_name) h in
    let same : st.macros ≡ next = ground arith in
    subst (Grows macros) same (discover_lines-Grows source_name 1 (split_lines text) _ st lines)

discover_from-Grows :
    (sources : List (Str × Str)) (macros next : Dict Str MacroSpec)
    → discover_from sources macros ≡ ok next
    → Grows macros next
unfolding discover_from
discover_from-Grows [] macros next h =
    let same : macros ≡ next = ground arith in subst (Grows macros) same (Grows-refl macros)
discover_from-Grows ((source_name, text) ∷ rest) macros next h =
    let (middle, first, others) =
      bind-eq-ok (discover_source source_name text macros) (discover_from rest) h in
    Grows-trans macros middle next (discover_source-Grows source_name text macros middle first)
      (discover_from-Grows rest middle next others)

-- Every macro in the table stands under its own name, has the mangled name of that name, and has
-- identifiers for parameters, each one once.
pub discover_macros-IsTable :
    (sources : List (Str × Str)) (macros : Dict Str MacroSpec)
    → discover_macros sources ≡ ok macros
    → IsTable macros
unfolding discover_macros lookup
discover_macros-IsTable sources macros h =
    (discover_from-Grows sources [] macros h).table (record { entries = λ name spec e. cc })

discover_from-append :
    (first rest : List (Str × Str)) (macros : Dict Str MacroSpec)
    → discover_from (first ++ rest) macros ≡ (discover_from first macros >>= discover_from rest)
unfolding discover_from
discover_from-append [] rest macros = refl
discover_from-append ((source_name, text) ∷ first) rest macros =
    go (discover_source source_name text macros) (discover_from-append first rest)
  where
    go :
        (r : Result (Dict Str MacroSpec))
        → ((m : Dict Str MacroSpec)
            → discover_from (first ++ rest) m ≡ (discover_from first m >>= discover_from rest))
        → (r >>= discover_from (first ++ rest))
          ≡ ((r >>= discover_from first) >>= discover_from rest)
    go (ok m) ih = ih m
    go (err e) ih = refl

-- Sources that follow change no entry of the macros found so far: a success on all the sources
-- finds them as it did on the first ones.
pub discover_macros-append :
    (first rest : List (Str × Str)) (before later : Dict Str MacroSpec)
    → discover_macros first ≡ ok before
    → discover_macros (first ++ rest) ≡ ok later
    → (name : Str) (spec : MacroSpec) → lookup name before ≡ some spec
    → lookup name later ≡ some spec
unfolding discover_macros
discover_macros-append first rest before later h k =
    let (middle, first_run, others) =
      bind-eq-ok (discover_from first []) (discover_from rest)
        (rw (discover_from-append first rest []) at k) in
    let same : middle ≡ before = ground arith in
    (discover_from-Grows rest before later (rw same at others)).keeps
