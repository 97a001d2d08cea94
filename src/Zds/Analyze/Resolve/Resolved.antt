-- ===== src/Zds/Analyze/Resolve/Resolved.antt =====
-- What a successful resolution means for each reference.
use mos_agondev.Prelude.{
  All, Bool-cases, Dict, Distinct, List, Option-cases, [], arith, contains, false, has_key, inl,
  inr, insert, list_eq, lookup, lookup-insert, lookup-insert_self, map, nat_eq, option_eq, pair_eq,
  some, true, ℕ, ◌∙◌, ◌∷◌, ◌≡◌,
}
use mos_agondev.Text.{Str}
use mos_agondev.Zds.Analyze.Resolve.{check_macro, check_named, resolve_anonymous, target_of}
use mos_agondev.Zds.Analyze.Resolve.Nearest.{IsNearest, target_of-IsNearest}
use mos_agondev.Zds.Analyze.State.{AnonymousDefinition, MacroReference}
use mos_agondev.Zds.Records.{AnonymousReference, LocalReference}
use mos_agondev.Errors.{ok}

abbrev pub ref_key : AnonymousReference → ℕ × ℕ
ref_key reference = (reference.ordinal, reference.offset)

pub check_named-All :
    (named_locals : Dict (ℕ × Str) Str) (references : List LocalReference)
    → check_named named_locals references ≡ ok tt
    → All (λ r. has_key (r.scope, r.token) named_locals ≡ true) references
unfolding check_named
check_named-All named_locals [] h = tt
check_named-All named_locals (r ∷ rest) h =
    elim (Bool-cases (has_key (r.scope, r.token) named_locals)) [
      | inl e ↦ (e, check_named-All named_locals rest (rw (e, check_named) at h))
      | inr e ↦ absurd (ground arith)
    ]

pub check_macro-All :
    (macro_locals : Dict (Str × Str) Str) (references : List MacroReference)
    → check_macro macro_locals references ≡ ok tt
    → All (λ r. has_key (r.macro_name, r.local_name) macro_locals ≡ true) references
unfolding check_macro
check_macro-All macro_locals [] h = tt
check_macro-All macro_locals (r ∷ rest) h =
    elim (Bool-cases (has_key (r.macro_name, r.local_name) macro_locals)) [
      | inl e ↦ (e, check_macro-All macro_locals rest (rw (e, check_macro) at h))
      | inr e ↦ absurd (ground arith)
    ]

abbrev Labels : Type 0
Labels = Dict (ℕ × ℕ) Str

-- a key that no reference has keeps its entry
lookup-resolve :
    (definitions : List AnonymousDefinition) (k : ℕ × ℕ) (references : List AnonymousReference)
    (before out : Labels)
    → contains k (map ref_key references) ≡ false
    → resolve_anonymous definitions references before ≡ ok out
    → lookup k out ≡ lookup k before
unfolding resolve_anonymous contains
lookup-resolve definitions k [] before out n h = ground arith
lookup-resolve definitions k (r ∷ rest) before out n h =
    elim (Option-cases (target_of r definitions)) [
      | inl e ↦ absurd (ground arith)
      | inr (target, e) ↦
          let more = insert (ref_key r) target.generated before in
          let ih =
            lookup-resolve definitions k rest more out (ground arith)
              (rw (e, resolve_anonymous) at h) in
          ih ∙ ground (arith, lookup-insert k (ref_key r) target.generated before)
    ]

-- the reference has a nearest definition, and its entry is the label of that definition
pub record IsResolved (definitions : List AnonymousDefinition) (out : Labels)
    (r : AnonymousReference) : Type 0 where
  pub target : AnonymousDefinition
  pub nearest : IsNearest r definitions target
  pub label : lookup (ref_key r) out ≡ some target.generated

pub resolve_anonymous-All :
    (definitions : List AnonymousDefinition) (references : List AnonymousReference)
    (before out : Labels)
    → Distinct (map ref_key references)
    → resolve_anonymous definitions references before ≡ ok out
    → All (IsResolved definitions out) references
unfolding resolve_anonymous
resolve_anonymous-All definitions [] before out d h = tt
resolve_anonymous-All definitions (r ∷ rest) before out (fresh, d) h =
    elim (Option-cases (target_of r definitions)) [
      | inl e ↦ absurd (ground arith)
      | inr (target, e) ↦
          let more = insert (ref_key r) target.generated before in
          let others = rw (e, resolve_anonymous) at h in
          (
            record {
              target = target;
              nearest = target_of-IsNearest r definitions target e;
              label =
                  lookup-resolve definitions (ref_key r) rest more out fresh others
                  ∙ lookup-insert_self (ref_key r) target.generated before;
            },
            resolve_anonymous-All definitions rest more out d others,
          )
    ]
