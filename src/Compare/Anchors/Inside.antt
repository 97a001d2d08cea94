-- ===== src/Compare/Anchors/Inside.antt =====
-- The compared C functions lie inside their modules, in projects/binary-compare/analyze.py.
use mos_agondev.Compare.Anchors.{
  Anchor, AnchorItem, anchor_item, compare_anchors, compiled_verdict, next_address, safe_anchor,
}
use mos_agondev.Compare.Executable.{Inputs, Verdict}
use mos_agondev.Compare.Modules.{Matched, Region}
use mos_agondev.Compare.Records.{candidate_end, module_end}
use mos_agondev.Errors.{bind_two-eq-ok, ok, ok-injective}
use mos_agondev.Prelude.{
  All, Bool-cases, List, [], arith, inl, inr, subst, true, ℕ, ◌+◌, ◌<◌, ◌∷◌, ◌≡◌, ◌≤◌,
}
use mos_agondev.Text.{Str}

-- a region that is not empty and lies between two addresses
pub record LiesInside (low high : ℕ) (region : Region) : Type 0 where
  pub starts_inside : low ≤ region.address
  pub ends_inside : region.address + region.size ≤ high
  pub not_empty_region : 0 < region.size

-- The candidate's function lies in its range, and the reference's ends in its range.
pub record IsInside (matched : Matched) (item : AnchorItem) : Type 0 where
  pub candidate_inside : LiesInside (matched.1.address) (candidate_end (matched.1)) item.candidate
  pub reference_ends : item.reference.address + item.reference.size ≤ module_end (matched.0)
  pub reference_not_empty : 0 < item.reference.size

anchor_item-IsInside :
    (key : Str × Str) (matched : Matched) (reference_end : ℕ) (anchor : Anchor) (verdict : Verdict)
    → safe_anchor matched reference_end anchor ≡ true
    → IsInside matched (anchor_item key reference_end anchor verdict)
unfolding safe_anchor anchor_item
anchor_item-IsInside key matched reference_end anchor verdict h = record {
  candidate_inside = record {
    starts_inside = ground (arith, h);
    ends_inside = ground (arith, h);
    not_empty_region = ground (arith, h);
  };
  reference_ends = ground (arith, h);
  reference_not_empty = ground (arith, h);
}

-- Each comparison that compare_anchors makes is of a function of the candidate inside its range,
-- and of bytes of the reference, at least one, that end inside the module's range.
pub compare_anchors-IsInside :
    (inputs : Inputs) (key : Str × Str) (matched : Matched) (anchors : List Anchor)
    (items : List AnchorItem)
    → compare_anchors inputs key matched anchors ≡ ok items
    → All (IsInside matched) items
unfolding compare_anchors
compare_anchors-IsInside inputs key matched [] items h =
    subst (All (IsInside matched)) (ok-injective _ _ h) tt
compare_anchors-IsInside inputs key matched (anchor ∷ anchors) items h =
    let reference_end = next_address (matched.0) anchors in
    elim (Bool-cases (safe_anchor matched reference_end anchor)) [
      | inr e ↦ compare_anchors-IsInside inputs key matched anchors items (rw e at h)
      | inl e ↦
          let (verdict, more, compared, passed, same_items) =
            bind_two-eq-ok _ _
              (λ verdict more.
                anchor_item key reference_end anchor (compiled_verdict verdict) ∷ more)
              (rw e at h) in
          subst (All (IsInside matched)) same_items (
            anchor_item-IsInside key matched reference_end anchor (compiled_verdict verdict) e,
            compare_anchors-IsInside inputs key matched anchors more passed,
          )
    ]
