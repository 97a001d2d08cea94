-- ===== src/Zds/Analyze/Locals.antt =====
-- Macro-local, named and anonymous labels: their definitions and references in analyze of
-- projects/mos-port/tools/zds2gas.py.
use mos_agondev.Prelude.{
  Bool, Dict, List, Option, [], false, has_key, if◌then◌else◌, insert, length, list_eq, map, nat_eq,
  none, option_eq, pair_eq, some, ℕ, ◌&&◌, ◌++◌, ◌+◌, ◌==◌, ◌||◌, ◌∷◌,
}
use mos_agondev.Regex.{
  Match, Regex, char, find_iter, group, line_end, line_start, many, match, matches, named, opt, ◌▸◌,
}
use mos_agondev.Text.{Str, casefold, codes, is_space}
use mos_agondev.Text.Number.{padded}
use mos_agondev.Zds.Analyze.State.{AnonymousDefinition, Line, MacroReference, Progress, raise_at}
use mos_agondev.Zds.Names.{safe_identifier}
use mos_agondev.Zds.Patterns.{
  anon_def_re, anon_ref_re, any_char, g_name, ident, label, macro_local_def_re,
  macro_local_token_re, named_local_def_re, named_local_token_re, spaces, suffix_local_def_re,
  suffix_local_token_re,
}
use mos_agondev.Zds.Records.{
  AnonymousReference, LabelMapping, LocalReference, MacroSpec, MappingKind, anonymous, macro_local,
  named_local,
}
use mos_agondev.Errors.{
  Result, duplicate_local, duplicate_macro_local, macro_local_outside_macro, ok,
  scoped_local_in_macro, ◌>>=◌, ◌>>◌,
}

-- f".Lzds_m_{safe_identifier(macro)}_{safe_identifier(local)}\\@"
unfoldable pub macro_local_label : Str → Str → Str
macro_local_label macro local_name =
    codes ".Lzds_m_"
    ++ (safe_identifier macro ++ (codes "_" ++ (safe_identifier local_name ++ codes "\\@")))

-- f".Lzds_{key}_s{scope:03d}_{safe_identifier(local_token)}"
unfoldable pub named_local_label : Str → ℕ → Str → Str
named_local_label key scope token =
    codes ".Lzds_"
    ++ (key ++ (codes "_s" ++ (padded 10 3 scope ++ (codes "_" ++ safe_identifier token))))

-- f".Lzds_{key}_a{serial:04d}", or f".Lzds_m_{safe_identifier(macro)}_a{serial:04d}\\@"
unfoldable pub anonymous_label : Str → Option Str → ℕ → Str
anonymous_label key none serial = codes ".Lzds_" ++ (key ++ (codes "_a" ++ padded 10 4 serial))
anonymous_label key (some macro) serial =
    codes ".Lzds_m_"
    ++ (safe_identifier macro ++ (codes "_a" ++ (padded 10 4 serial ++ codes "\\@")))

abbrev mapping_at : Line → MappingKind → Str → Str → LabelMapping
mapping_at l kind token generated = record {
  kind = kind;
  token = token;
  generated = generated;
  defined_in = l.location.source;
  line = l.location.line;
}

abbrev pub add_macro_local : Line → Str → Str → Progress → Progress
add_macro_local l macro local_name p =
    let generated = macro_local_label macro local_name in
    record p {
      macro_locals = insert (macro, local_name) generated p.macro_locals;
      mappings =
          p.mappings
          ++ (mapping_at l (macro_local macro) (codes "$$" ++ local_name) generated ∷ []);
    }

unfoldable pub define_macro_local : Line → Str → Str → Progress → Result Progress
define_macro_local l macro local_name p =
    if has_key (macro, local_name) p.macro_locals
    then raise_at l duplicate_macro_local
    else ok (add_macro_local l macro local_name p)

abbrev macro_reference : Line → Str → Match → MacroReference
macro_reference l macro token = record {
  macro_name = macro;
  local_name = named g_name token;
  location = l.location;
}

-- `if definition`, in a macro
unfoldable pub macro_local_definition : Line → Str → Option Match → Progress → Result Progress
macro_local_definition l macro none p = ok p
macro_local_definition l macro (some definition) p =
    define_macro_local l macro (named g_name definition) p

abbrev pub add_macro_refs : Line → Str → List Match → Progress → Progress
add_macro_refs l macro tokens p = record p {
  macro_refs = p.macro_refs ++ map (macro_reference l macro) tokens;
}

-- the branches `if active_macro is not None` and `elif MACRO_LOCAL_TOKEN_RE.search(masked)`
unfoldable pub macro_local_line : Line → Progress → Result Progress
macro_local_line l p =
    let tokens = find_iter macro_local_token_re l.masked in
    elim (p.active_macro) [
      | none ↦ elim tokens [ [] ↦ ok p | _ ∷ _ ↦ raise_at l macro_local_outside_macro ]
      | some active ↦ do
        let macro = active.source_name
        q ← macro_local_definition l macro (match macro_local_def_re l.masked) p
        ok (add_macro_refs l macro tokens q)
    ]

-- `if active_macro is not None and (dollar_definition or suffix_definition)`
unfoldable pub forbid_in_macro : Line → Option Match → Progress → Result (Unit {0})
forbid_in_macro l none p = ok tt
forbid_in_macro l (some definition) p = elim (p.active_macro) [
  | none ↦ ok tt
  | some _ ↦ raise_at l scoped_local_in_macro
]

abbrev pub add_named_local : Str → Line → Str → Progress → Progress
add_named_local key l token p =
    let generated = named_local_label key p.scope token in
    record p {
      named_locals = insert (p.scope, token) generated p.named_locals;
      mappings = p.mappings ++ (mapping_at l (named_local p.scope) token generated ∷ []);
    }

-- one round of `for definition in (dollar_definition, suffix_definition)`
unfoldable pub define_named_local : Str → Line → Option Match → Progress → Result Progress
define_named_local key l none p = ok p
define_named_local key l (some definition) p =
    let token = named (codes "token") definition in
    if has_key (p.scope, token) p.named_locals
    then raise_at l duplicate_local
    else ok (add_named_local key l token p)

abbrev pub is_direction : Str → Bool
is_direction name = casefold name == codes "f" || casefold name == codes "b"

abbrev local_reference : Line → ℕ → Str → LocalReference
local_reference l scope token = record {
  token = token;
  scope = scope;
  source = l.location.source;
  line = l.location.line;
}

-- the references `$name` on a line
unfoldable pub dollar_references : Line → ℕ → List Match → List LocalReference
dollar_references l scope [] = []
dollar_references l scope (token ∷ rest) =
    let name = named g_name token in
    let others = dollar_references l scope rest in
    if is_direction name then others else local_reference l scope (b'$' ∷ name) ∷ others

-- `^\s*(?:label:\s*)?(?P<op>IDENT)(?P<rest>.*)$`
unfoldable pub invocation_re : Regex
unfolding ident is_space
invocation_re =
    line_start
    ▸ group (codes "prefix") (spaces ▸ opt (label ▸ char b':' ▸ spaces))
    ▸ group (codes "op") ident
    ▸ group (codes "rest") (many any_char)
    ▸ line_end

-- `invoked_name == name and invoked_name in macros`
abbrev is_invoked : Dict Str MacroSpec → Option Match → Str → Bool
is_invoked macros none name = false
is_invoked macros (some invocation) name =
    named (codes "op") invocation == name && has_key name macros

-- the references `name?` on a line
unfoldable pub suffix_references :
    Dict Str MacroSpec → Option Match → Line → ℕ → List Match → List LocalReference
suffix_references macros invocation l scope [] = []
suffix_references macros invocation l scope (token ∷ rest) =
    let name = named g_name token in
    let others = suffix_references macros invocation l scope rest in
    if is_invoked macros invocation name then others else local_reference l scope name ∷ others

abbrev pub add_named_refs : List LocalReference → Progress → Progress
add_named_refs references p = record p { named_refs = p.named_refs ++ references }

unfoldable pub named_local_line : Dict Str MacroSpec → Str → Line → Progress → Result Progress
named_local_line macros key l p = do
  let dollar = match named_local_def_re l.masked
  let suffix = match suffix_local_def_re l.masked
  forbid_in_macro l dollar p
  forbid_in_macro l suffix p
  q ← define_named_local key l dollar p
  r ← define_named_local key l suffix q
  let dollars = dollar_references l r.scope (find_iter named_local_token_re l.masked)
  let invocation = match invocation_re l.masked
  let suffixes =
      suffix_references macros invocation l r.scope (find_iter suffix_local_token_re l.masked)
  ok (add_named_refs (dollars ++ suffixes) r)

abbrev macro_context : Progress → Option Str
macro_context p = elim (p.active_macro) [ none ↦ none | some m ↦ some m.source_name ]

unfoldable pub define_anonymous : Str → Line → Progress → Progress
define_anonymous key l p =
    let generated = anonymous_label key (macro_context p) (length p.anonymous_defs + 1) in
    let definition : AnonymousDefinition = record {
      ordinal = l.ordinal;
      macro_name = macro_context p;
      generated = generated;
    } in
    record p {
      anonymous_defs = p.anonymous_defs ++ (definition ∷ []);
      anonymous_definitions = insert l.ordinal generated p.anonymous_definitions;
      mappings =
          p.mappings ++ (mapping_at l (anonymous (macro_context p)) (codes "$$") generated ∷ []);
    }

-- `enumerate(ANON_REF_RE.finditer(masked))`
unfoldable pub anonymous_references_of :
    Line → Option Str → ℕ → List Match → List AnonymousReference
anonymous_references_of l macro occurrence [] = []
anonymous_references_of l macro occurrence (token ∷ rest) =
    record {
      ordinal = l.ordinal;
      offset = occurrence;
      direction = casefold (named (codes "direction") token);
      macro_name = macro;
      source = l.location.source;
      line = l.location.line;
    }
    ∷ anonymous_references_of l macro (occurrence + 1) rest

unfoldable pub anonymous_line : Str → Line → Progress → Progress
anonymous_line key l p =
    let q = if matches anon_def_re l.masked then define_anonymous key l p else p in
    let references =
      anonymous_references_of l (macro_context q) 0 (find_iter anon_ref_re l.masked) in
    record q { anonymous_refs = q.anonymous_refs ++ references }
