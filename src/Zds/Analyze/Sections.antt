-- ===== src/Zds/Analyze/Sections.antt =====
-- DEFINE, SEGMENT and SECTION, and the equates: two branches of analyze in
-- projects/mos-port/tools/zds2gas.py.
use mos_agondev.Prelude.{
  Bool, Option, [], if◌then◌else◌, insert, list_eq, lookup, nat_eq, none, option_eq, pair_eq, some,
  ◌&&◌, ◌++◌, ◌==◌, ◌||◌, ◌∷◌,
}
use mos_agondev.Regex.{
  Match, Regex, fold_char, group, line_end, line_start, lit_ci, match, named, some_of, ◌▸◌,
}
use mos_agondev.Text.{Str, casefold, codes, is_space, upper}
use mos_agondev.Zds.Analyze.State.{Line, Progress, raise_at}
use mos_agondev.Zds.Patterns.{equate_re, g_name, non_space, set_re, spaces, spaces1}
use mos_agondev.Zds.Records.{EquateSpec, SectionDefinition}
use mos_agondev.Errors.{Result, conflicting_equate, ok, section_redefinition}
use mos_agondev.Zds.Values.{canonical_equate_value, parse_section_definition}

-- `^\s*WORD\s+([^\s]+)\s*$`
unfoldable pub section_re : Str → Regex
unfolding is_space fold_char
section_re word =
    line_start
    ▸ group (codes "indent") spaces
    ▸ lit_ci word
    ▸ spaces1
    ▸ group g_name (some_of non_space)
    ▸ spaces
    ▸ line_end

-- `{"text": ".text", "data": ".data", "bss": ".bss"}.get(known, source_section)`
abbrev pub gas_section : Str → Str → Str
gas_section known source_section =
    if known == codes "text"
    then codes ".text"
    else if known == codes "data"
    then codes ".data"
    else if known == codes "bss"
    then codes ".bss"
    else source_section

-- `known in {"bss", "data"}`
abbrev is_ram_name : Str → Bool
is_ram_name known = known == codes "bss" || known == codes "data"

-- `prior == {"name": name, **definition}`
abbrev pub same_definition : SectionDefinition → SectionDefinition → Bool
same_definition a b = a.name == b.name && a.space == b.space && a.align == b.align

-- `if section_definition is not None`
unfoldable pub define_section : Line → Progress → Result Progress
define_section l p = elim (parse_section_definition l.masked) [
  | none ↦ ok p
  | some definition ↦
      let key = casefold definition.name in
      let defined : Result Progress =
        ok (record p { section_definitions = insert key definition p.section_definitions }) in
      elim (lookup key p.section_definitions) [
        | none ↦ defined
        | some prior ↦
            if same_definition prior definition then defined else raise_at l section_redefinition
      ]
]

-- `str(definition.get("space", "ROM")).upper()`
defined_space : Option SectionDefinition → Str
defined_space none = codes "ROM"
defined_space (some definition) = upper definition.space

unfoldable pub enter_section : Line → Progress → Progress
unfolding defined_space
enter_section l p = elim (match (section_re (codes "SEGMENT")) l.masked) [
  | some segment ↦
      let known = casefold (named g_name segment) in
      record p {
        current_section = gas_section known (named g_name segment);
        current_space =
            if is_ram_name known
            then codes "RAM"
            else defined_space (lookup known p.section_definitions);
      }
  | none ↦ elim (match (section_re (codes "SECTION")) l.masked) [
    | some section ↦
        let known = casefold (named g_name section) in
        record p {
          current_section = gas_section known (named g_name section);
          current_space = if is_ram_name known then codes "RAM" else codes "ROM";
        }
    | none ↦ p
  ]
]

unfoldable pub record_section : Line → Progress → Progress
record_section l p = record p {
  line_sections = insert l.ordinal (p.current_section, p.current_space) p.line_sections;
}

-- `EQUATE_RE.match(code) or SET_RE.match(code)`
unfoldable pub match_equate : Str → Option Match
match_equate code = elim (match equate_re code) [ some m ↦ some m | none ↦ match set_re code ]

-- an equate with its name and its canonical value
unfoldable pub define_equate : Line → Str → Str → Progress → Result Progress
define_equate l name canonical p = elim (lookup name p.equates) [
  | none ↦
      let spec : EquateSpec = record {
        name = name;
        canonical_value = canonical;
        source = l.location.source;
        line = l.location.line;
      } in
      ok (record p { equates = insert name spec p.equates })
  | some prior ↦
      if prior.canonical_value == canonical
      then ok (record p { duplicate_equates = p.duplicate_equates ++ (l.ordinal ∷ []) })
      else raise_at l conflicting_equate
]

unfoldable pub equate_line : Line → Progress → Result Progress
unfolding match_equate
equate_line l p = elim (match_equate l.code) [
  | none ↦ ok p
  | some m ↦ define_equate l (named g_name m) (canonical_equate_value (named (codes "value") m)) p
]
