-- ===== src/Compare/Boundaries/Rising.antt =====
-- The boundaries of a cut module rise in both images, in projects/binary-compare/analyze.py.
use mos_agondev.Compare.Boundaries.{
  Boundary, Cut, InvalidBoundary, cut_at, cut_module, cut_unless, last_boundary, module_start,
  module_stop, no_cut, placed_boundaries, rises,
}
use mos_agondev.Compare.Modules.{Matched}
use mos_agondev.Prelude.{
  Bool-cases, List, Option, [], arith, inl, inr, none, refl, some, true, ◌++◌, ◌∷◌, ◌≡◌, ◌≤◌,
}

abbrev pub IsRising : Boundary → List Boundary → Type 0
IsRising previous [] = Unit
IsRising previous (b ∷ bs) = (rises previous b ≡ true) × IsRising b bs

placed_boundaries-IsRising :
    (previous : Boundary) (bs : List Boundary)
    → IsRising previous ((placed_boundaries previous bs).0)
unfolding placed_boundaries
placed_boundaries-IsRising previous [] = tt
placed_boundaries-IsRising previous (b ∷ bs) = elim (Bool-cases (rises previous b)) [
  | inl e ↦ rw (e, IsRising) (e, placed_boundaries-IsRising b bs)
  | inr e ↦ rw e tt
]

pub last_boundary-le :
    (previous : Boundary) (bs : List Boundary)
    → IsRising previous bs
    → (previous.reference_address ≤ (last_boundary previous bs).reference_address)
      × (previous.candidate_address ≤ (last_boundary previous bs).candidate_address)
unfolding last_boundary
last_boundary-le previous [] h = (omega arith, omega arith)
last_boundary-le previous (b ∷ bs) (p, h) =
    let (reference, candidate) = last_boundary-le b bs h in
    (ground (arith, p, reference), ground (arith, p, candidate))

IsRising-snoc :
    (previous stop : Boundary) (bs : List Boundary)
    → IsRising previous bs
    → rises (last_boundary previous bs) stop ≡ true
    → IsRising previous (bs ++ (stop ∷ []))
unfolding last_boundary
IsRising-snoc previous stop [] h k = (k, tt)
IsRising-snoc previous stop (b ∷ bs) (p, h) k = (p, IsRising-snoc b stop bs h k)

last_boundary-snoc :
    (previous stop : Boundary) (bs : List Boundary)
    → last_boundary previous (bs ++ (stop ∷ [])) ≡ stop
unfolding last_boundary
last_boundary-snoc previous stop [] = refl
last_boundary-snoc previous stop (b ∷ bs) = last_boundary-snoc b stop bs

-- Boundaries that rise in both images from the module's start and end at its end.
pub record IsPartition (matched : Matched) (bs : List Boundary) : Type 0 where
  pub rising : IsRising (module_start matched) bs
  pub ends : last_boundary (module_start matched) bs ≡ module_stop matched

-- what is known of a cut
abbrev pub CutWell : Matched → Cut → Type 0
CutWell matched (cut_at bs) = IsPartition matched bs
CutWell matched (no_cut invalid) = Unit

cut_unless-CutWell :
    (matched : Matched) (placed : List Boundary) (invalid : Option InvalidBoundary)
    → IsRising (module_start matched) placed
    → CutWell matched (cut_unless matched placed invalid)
cut_unless-CutWell matched placed (some invalid) h = tt
cut_unless-CutWell matched placed none h =
    let stop = module_stop matched in
    elim (Bool-cases (rises (last_boundary (module_start matched) placed) stop)) [
      | inl e ↦
          rw (e, CutWell)
            (record {
              rising = IsRising-snoc (module_start matched) stop placed h e;
              ends = last_boundary-snoc (module_start matched) stop placed;
            })
      | inr e ↦ rw (e, CutWell) tt
    ]

-- Where a module is cut, its boundaries rise in both images from its start to its end, whatever
-- the symbols are.
pub cut_module-CutWell :
    (matched : Matched) (shared : List Boundary) → CutWell matched (cut_module matched shared)
unfolding cut_module
cut_module-CutWell matched shared =
    let (placed, invalid) = placed_boundaries (module_start matched) shared in
    cut_unless-CutWell matched placed invalid
      (placed_boundaries-IsRising (module_start matched) shared)
