-- ===== src/Zds/Analyze/Structures.antt =====
-- .STRUCT, DS, .TAG and .ENDSTRUCT: the structure branch of analyze in
-- projects/mos-port/tools/zds2gas.py.
pub mod Layout
use mos_agondev.Prelude.{
  Bool, List, Option, [], any, false, if◌then◌else◌, insert, list_eq, lookup, nat_eq, none, not,
  option_eq, pair_eq, some, ℕ, ◌*◌, ◌++◌, ◌+◌, ◌==◌, ◌∷◌,
}
use mos_agondev.Regex.{Match, group_of, match, named}
use mos_agondev.Text.{Str, codes, strip}
use mos_agondev.Text.Number.{decimal}
use mos_agondev.Zds.Analyze.State.{Line, OpenStructure, Progress, raise_at}
use mos_agondev.Zds.Patterns.{g_name, struct_end_re, struct_reserve_re, struct_tag_re}
use mos_agondev.Zds.Records.{SourceLocation, StructureMember, StructureSpec}
use mos_agondev.Errors.{
  Result, duplicate_structure, duplicate_structure_member, nested_structure, ok,
  structure_name_mismatch, unknown_structure_tag, unsupported_structure_member, ◌>>=◌, ◌>>◌,
}
use mos_agondev.Zds.Values.{parse_absolute_integer}

abbrev pub equiv_line : Str → ℕ → Str
equiv_line name value = codes ".equiv " ++ (name ++ (codes ", " ++ decimal value))

-- the count that a pattern may leave out
unfoldable pub optional_integer : Option Str → ℕ → SourceLocation → Result ℕ
optional_integer none default location = ok default
optional_integer (some text) default location = parse_absolute_integer text location

abbrev pub open_structure : Line → Str → ℕ → Progress → Progress
open_structure l structure_name offset p = record p {
  active_structure =
      some (record { name = structure_name; start = l.location; offset = offset; members = [] });
  structure_lines =
      insert l.ordinal ((codes "; zds2gas: .STRUCT " ++ structure_name) ∷ []) p.structure_lines;
}

-- a line that matches STRUCT_START_RE
unfoldable pub start_structure : Line → Match → Progress → Result Progress
unfolding optional_integer
start_structure l start p = elim (p.active_structure) [
  | some _ ↦ raise_at l nested_structure
  | none ↦
      let structure_name = named g_name start in
      elim (lookup structure_name p.structures) [
        | some _ ↦ raise_at l duplicate_structure
        | none ↦ do
          offset ← optional_integer (group_of (codes "offset") start) 0 l.location
          ok (open_structure l structure_name offset p)
      ]
]

-- `closing_tag is not None and closing_tag != active_structure_name`
abbrev tag_differs : Option Str → Str → Bool
tag_differs none name = false
tag_differs (some tag) name = not (tag == name)

-- `if name: rendered.append(...)`
abbrev optional_equiv : Str → Option Str → ℕ → List Str
optional_equiv prefix none value = []
optional_equiv prefix (some name) value = equiv_line (prefix ++ name) value ∷ []

abbrev end_comment : OpenStructure → Str
end_comment s =
    codes "; zds2gas: .ENDSTRUCT "
    ++ (s.name ++ (codes " (" ++ (decimal s.offset ++ codes " bytes)")))

abbrev pub closed_structure : OpenStructure → Option Str → StructureSpec
closed_structure s size_name = record {
  name = s.name;
  size_name = size_name;
  size = s.offset;
  members = s.members;
  source = s.start.source;
  line = s.start.line;
}

abbrev pub close_structure : Line → Option Str → OpenStructure → Progress → Progress
close_structure l size_name s p = record p {
  structures = insert s.name (closed_structure s size_name) p.structures;
  structure_lines =
      insert l.ordinal (optional_equiv [] size_name s.offset ++ (end_comment s ∷ []))
        p.structure_lines;
  active_structure = none;
}

-- a line that matches STRUCT_END_RE
unfoldable pub end_structure : Line → Match → OpenStructure → Progress → Result Progress
end_structure l end s p =
    if tag_differs (group_of (codes "tag") end) s.name
    then raise_at l structure_name_mismatch
    else ok (close_structure l (group_of (codes "size") end) s p)

-- the size of a `.TAG` member
tag_size : Line → Match → Progress → Result ℕ
unfolding optional_integer
tag_size l tag p = elim (lookup (named (codes "tag") tag) p.structures) [
  | none ↦ raise_at l unknown_structure_tag
  | some referenced ↦ do
    repetitions ← optional_integer (group_of (codes "count") tag) 1 l.location
    ok (referenced.size * repetitions)
]

-- the name and the size of the member on a line
unfoldable pub member_of : Line → Progress → Result (Option Str × ℕ)
unfolding tag_size
member_of l p = elim (match struct_reserve_re l.masked) [
  | some reserve ↦ do
    size ← parse_absolute_integer (named (codes "count") reserve) l.location
    ok (group_of (codes "member") reserve, size)
  | none ↦ elim (match struct_tag_re l.masked) [
    | some tag ↦ do size ← tag_size l tag p; ok (some (named (codes "member") tag), size)
    | none ↦ raise_at l unsupported_structure_member
  ]
]

abbrev pub has_member : Str → List StructureMember → Bool
has_member name members = any (λ member. member.name == name) members

unfoldable pub member_comment : Line → ℕ → Str
unfolding strip
member_comment l size =
    codes "; zds2gas: "
    ++ (strip l.masked ++ (codes " (" ++ (decimal size ++ codes " bytes, no allocation)")))

-- what a line of the structure adds: the members behind it, and the lines rendered for it
abbrev pub grow_structure :
    Line → ℕ → List StructureMember → List Str → OpenStructure → Progress → Progress
grow_structure l size members rendered s p = record p {
  active_structure = some (record s { offset = s.offset + size; members = members });
  structure_lines = insert l.ordinal rendered p.structure_lines;
}

abbrev pub member_at : Line → Str → ℕ → OpenStructure → StructureMember
member_at l name size s = record {
  name = name;
  offset = s.offset;
  size = size;
  source = l.location.source;
  line = l.location.line;
}

-- a member of a given size, and its line
unfoldable pub add_member : Line → Option Str → ℕ → OpenStructure → Progress → Result Progress
unfolding member_comment
add_member l none size s p = ok (grow_structure l size s.members (member_comment l size ∷ []) s p)
add_member l (some name) size s p =
    let equiv = equiv_line (s.name ++ (codes "." ++ name)) s.offset in
    if has_member name s.members
    then raise_at l duplicate_structure_member
    else ok (
        grow_structure l size (s.members ++ (member_at l name size s ∷ []))
          (equiv ∷ member_comment l size ∷ []) s p)

abbrev pub blank_line : Line → Progress → Progress
blank_line l p = record p { structure_lines = insert l.ordinal (l.code ∷ []) p.structure_lines }

-- a line inside an open structure
unfoldable pub structure_line : Line → OpenStructure → Progress → Result Progress
structure_line l s p =
    if strip l.masked == [] then ok (blank_line l p) else elim (match struct_end_re l.masked) [
      | some end ↦ end_structure l end s p
      | none ↦ do (name, size) ← member_of l p; add_member l name size s p
    ]
