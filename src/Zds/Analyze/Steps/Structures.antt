-- ===== src/Zds/Analyze/Steps/Structures.antt =====
-- The structure branch advances the tables: members are laid out one behind the other.
use mathlib.Core.Option.{none-ne-some, some-injective}
use mos_agondev.Prelude.{
  Bool-cases, Distinct, List, Option, Option-cases, [], arith, inl, inr, insert_cases, insert_keeps,
  list_eq, lookup, map, nat_eq, none, option_eq, pair_eq, refl, some, subst, ℕ, ◌++◌, ◌+◌, ◌==◌,
  ◌∷◌, ◌≡◌,
}
use mos_agondev.Regex.{Match, group_of, match, named}
use mos_agondev.Text.{Str, codes, strip}
use mos_agondev.Zds.Analyze.State.{Line, OpenStructure, Progress}
use mos_agondev.Zds.Analyze.Steps.{Advances, IsLayout, IsOpenLayout, SameTables-Advances}
use mos_agondev.Zds.Analyze.Structures.{
  add_member, close_structure, end_structure, equiv_line, grow_structure, has_member, member_at,
  member_comment, member_of, open_structure, optional_integer, start_structure, structure_line,
}
use mos_agondev.Zds.Analyze.Structures.Layout.{
  Chain, Chain-append, Chain-weaken, Distinct-append, member_name,
}
use mos_agondev.Zds.Patterns.{g_name, struct_end_re}
use mos_agondev.Zds.Records.{StructureMember}
use mos_agondev.Errors.{bind-eq-ok, ok}

-- a step of the open structure only
grow-Advances :
    (l : Line) (size : ℕ) (members : List StructureMember) (rendered : List Str) (s : OpenStructure)
    (p : Progress)
    → (IsOpenLayout p.structures s
        → Chain 0 members (s.offset + size) × Distinct (map member_name members))
    → p.active_structure ≡ some s
    → Advances p (grow_structure l size members rendered s p)
grow-Advances l size members rendered s p lays active = record {
  equates = λ k v old. old;
  named_locals = λ k v old. old;
  macro_locals = λ k v old. old;
  structures = λ _ k v old. old;
  layouts = λ h. record {
    closed = h.closed;
    opened = λ o e.
        let layout = h.opened s active in
        let (chain, distinct) = lays layout in
        subst (IsOpenLayout p.structures) (some-injective _ _ e)
          (record { fresh = layout.fresh; chain = chain; distinct = distinct });
  };
}

add_member-Advances :
    (l : Line) (name : Option Str) (size : ℕ) (s : OpenStructure) (p q : Progress)
    → p.active_structure ≡ some s
    → add_member l name size s p ≡ ok q
    → Advances p q
unfolding add_member
add_member-Advances l none size s p q active h = subst (Advances p) (ground arith) (
    grow-Advances l size s.members (member_comment l size ∷ []) s p
      (λ o. (Chain-weaken 0 s.offset (s.offset + size) s.members (omega arith) o.chain, o.distinct))
      active)
add_member-Advances l (some name) size s p q active h =
    elim (Bool-cases (has_member name s.members)) [
      | inl e ↦ absurd (ground arith)
      | inr e ↦ subst (Advances p) (ground arith) (
          grow-Advances l size (s.members ++ (member_at l name size s ∷ []))
            (equiv_line (s.name ++ (codes "." ++ name)) s.offset ∷ member_comment l size ∷ []) s p
            (λ o. (
              Chain-append 0 s.offset s.members (member_at l name size s) refl o.chain,
              Distinct-append s.members (member_at l name size s) e o.distinct,
            ))
            active)
    ]

end_structure-Advances :
    (l : Line) (end : Match) (s : OpenStructure) (p q : Progress)
    → p.active_structure ≡ some s
    → end_structure l end s p ≡ ok q
    → Advances p q
unfolding end_structure
end_structure-Advances l end s p q active h =
    let size_name = group_of (codes "size") end in
    let same : close_structure l size_name s p ≡ q = ground arith in
    subst (Advances p) same (record {
      equates = λ k v old. old;
      named_locals = λ k v old. old;
      macro_locals = λ k v old. old;
      structures = λ layouts k v old.
          insert_keeps k s.name _ v p.structures (layouts.opened s active).fresh old;
      layouts = λ layouts. record {
        closed = λ name spec e. elim (insert_cases name s.name _ spec p.structures e) [
          | inl (named_so, is_spec) ↦
              let layout = layouts.opened s active in
              subst (IsLayout name) is_spec
                (record { same_name = named_so; chain = layout.chain; distinct = layout.distinct })
          | inr old ↦ layouts.closed name spec old
        ];
        opened = λ o e. absurd (none-ne-some o e);
      };
    })

pub structure_line-Advances :
    (l : Line) (s : OpenStructure) (p q : Progress)
    → p.active_structure ≡ some s
    → structure_line l s p ≡ ok q
    → Advances p q
unfolding structure_line
structure_line-Advances l s p q active h = elim (Bool-cases (strip l.masked == [])) [
  | inl blank ↦ SameTables-Advances p q (ground arith)
  | inr full ↦ elim (Option-cases (match struct_end_re l.masked)) [
    | inr (end, e) ↦ end_structure-Advances l end s p q active (rw (full, e, structure_line) at h)
    | inl e ↦
        let ((name, size), _, added) =
          bind-eq-ok (member_of l p) (λ (name, size). add_member l name size s p)
            (rw (full, e, structure_line) at h) in
        add_member-Advances l name size s p q active added
  ]
]

pub start_structure-Advances :
    (l : Line) (start : Match) (p q : Progress) → start_structure l start p ≡ ok q → Advances p q
unfolding start_structure
start_structure-Advances l start p q h = elim (Option-cases p.active_structure) [
  | inr (s, e) ↦ absurd (ground arith)
  | inl e ↦ elim (Option-cases (lookup (named g_name start) p.structures)) [
    | inr (old, d) ↦ absurd (ground arith)
    | inl d ↦
        let (offset, _, opened) =
          bind-eq-ok (optional_integer (group_of (codes "offset") start) 0 l.location)
            (λ offset. ok (open_structure l (named g_name start) offset p))
            (rw (e, d, start_structure) at h) in
        let same : open_structure l (named g_name start) offset p ≡ q = ground arith in
        subst (Advances p) same (record {
          equates = λ k v old. old;
          named_locals = λ k v old. old;
          macro_locals = λ k v old. old;
          structures = λ _ k v old. old;
          layouts = λ layouts. record {
            closed = layouts.closed;
            opened = λ o same_o.
                subst (IsOpenLayout p.structures) (some-injective _ _ same_o)
                  (record { fresh = d; chain = omega arith; distinct = tt });
          };
        })
  ]
]
