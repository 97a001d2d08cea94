-- ===== src/Zds/Analyze/Resolve/Nearest.antt =====
-- Laws of target_of: a reference goes to the nearest definition on its side, in its macro.
use mathlib.Core.List.{Memᴰ}
use mathlib.Core.Option.{none-ne-some, some-injective}
use mos_agondev.Prelude.{
  All, Bool, Bool-cases, List, [], arith, false, inl, inr, ltb, refl, some, subst, sym, true, ◌∷◌,
  ◌≡◌, ◌≤◌,
}
use mos_agondev.Zds.Analyze.Resolve.{
  candidates_of, earliest, is_candidate, latest, pick, pick_any, points_forward, target_of,
}
use mos_agondev.Zds.Analyze.State.{AnonymousDefinition}
use mos_agondev.Zds.Records.{AnonymousReference}

-- no further away, among definitions on one side
abbrev pub NoFurther : Bool → AnonymousDefinition → AnonymousDefinition → Type 0
NoFurther true d e = d.ordinal ≤ e.ordinal
NoFurther false d e = e.ordinal ≤ d.ordinal

pub record IsNearest (reference : AnonymousReference) (definitions : List AnonymousDefinition)
    (target : AnonymousDefinition) : Type 0 where
  pub known : Memᴰ target definitions
  pub candidate : is_candidate reference target ≡ true
  pub nearest :
      All
        (λ d. is_candidate reference d ≡ true → NoFurther (points_forward reference) target d)
        definitions

widen :
    (x d e : AnonymousDefinition) (ds : List AnonymousDefinition)
    → Memᴰ x (d ∷ ds)
    → Memᴰ x (d ∷ e ∷ ds)
widen x d e ds (Memᴰ.head h) = Memᴰ.head h
widen x d e ds (Memᴰ.tail h) = Memᴰ.tail (Memᴰ.tail h)

-- the least of a list that is not empty
earliest-mem :
    (d : AnonymousDefinition) (ds : List AnonymousDefinition) → Memᴰ (earliest d ds) (d ∷ ds)
unfolding earliest
earliest-mem d [] = Memᴰ.head refl
earliest-mem d (e ∷ ds) = elim (Bool-cases (ltb e.ordinal d.ordinal)) [
  | inl h ↦ rw h (Memᴰ.tail (earliest-mem e ds))
  | inr h ↦ rw h (widen _ d e ds (earliest-mem d ds))
]

latest-mem : (d : AnonymousDefinition) (ds : List AnonymousDefinition) → Memᴰ (latest d ds) (d ∷ ds)
unfolding latest
latest-mem d [] = Memᴰ.head refl
latest-mem d (e ∷ ds) = elim (Bool-cases (ltb d.ordinal e.ordinal)) [
  | inl h ↦ rw h (Memᴰ.tail (latest-mem e ds))
  | inr h ↦ rw h (widen _ d e ds (latest-mem d ds))
]

earliest-le :
    (d : AnonymousDefinition) (ds : List AnonymousDefinition)
    → All (λ e. (earliest d ds).ordinal ≤ e.ordinal) (d ∷ ds)
unfolding earliest
earliest-le d [] = (omega arith, tt)
earliest-le d (e ∷ ds) = elim (Bool-cases (ltb e.ordinal d.ordinal)) [
  | inl h ↦
      let same : earliest e ds ≡ earliest d (e ∷ ds) = rw h in
      let (le, others) = earliest-le e ds in
      subst (λ x. All (λ y. x.ordinal ≤ y.ordinal) (d ∷ e ∷ ds)) same (ground arith, (le, others))
  | inr h ↦
      let same : earliest d ds ≡ earliest d (e ∷ ds) = rw h in
      let (le, others) = earliest-le d ds in
      subst (λ x. All (λ y. x.ordinal ≤ y.ordinal) (d ∷ e ∷ ds)) same (le, (ground arith, others))
]

latest-le :
    (d : AnonymousDefinition) (ds : List AnonymousDefinition)
    → All (λ e. e.ordinal ≤ (latest d ds).ordinal) (d ∷ ds)
unfolding latest
latest-le d [] = (omega arith, tt)
latest-le d (e ∷ ds) = elim (Bool-cases (ltb d.ordinal e.ordinal)) [
  | inl h ↦
      let same : latest e ds ≡ latest d (e ∷ ds) = rw h in
      let (le, others) = latest-le e ds in
      subst (λ x. All (λ y. y.ordinal ≤ x.ordinal) (d ∷ e ∷ ds)) same (ground arith, (le, others))
  | inr h ↦
      let same : latest d ds ≡ latest d (e ∷ ds) = rw h in
      let (le, others) = latest-le d ds in
      subst (λ x. All (λ y. y.ordinal ≤ x.ordinal) (d ∷ e ∷ ds)) same (le, (ground arith, others))
]

-- what holds of all candidates holds of every definition that is one
candidates-All :
    (P : AnonymousDefinition → Type 0) (reference : AnonymousReference)
    (ds : List AnonymousDefinition)
    → All P (candidates_of reference ds)
    → All (λ d. is_candidate reference d ≡ true → P d) ds
unfolding candidates_of
candidates-All P reference [] h = tt
candidates-All P reference (d ∷ ds) h = elim (Bool-cases (is_candidate reference d)) [
  | inl e ↦
      let (first, rest) = rw (e, candidates_of) at h in
      (λ _. first, candidates-All P reference ds rest)
  | inr e ↦ (λ c. absurd (ground arith), candidates-All P reference ds (rw (e, candidates_of) at h))
]

candidates-mem :
    (reference : AnonymousReference) (t : AnonymousDefinition) (ds : List AnonymousDefinition)
    → Memᴰ t (candidates_of reference ds)
    → Memᴰ t ds × (is_candidate reference t ≡ true)
unfolding candidates_of
candidates-mem reference t [] h = elim h [ ]
candidates-mem reference t (d ∷ ds) h = elim (Bool-cases (is_candidate reference d)) [
  | inl e ↦ kept e (rw (e, candidates_of) at h) (candidates-mem reference t ds)
  | inr e ↦
      let (m, c) = candidates-mem reference t ds (rw (e, candidates_of) at h) in (Memᴰ.tail m, c)
]
  where
    kept :
        is_candidate reference d ≡ true
        → Memᴰ t (d ∷ candidates_of reference ds)
        → (Memᴰ t (candidates_of reference ds) → Memᴰ t ds × (is_candidate reference t ≡ true))
        → Memᴰ t (d ∷ ds) × (is_candidate reference t ≡ true)
    kept e (Memᴰ.head same) ih = (Memᴰ.head same, rw same e)
    kept e (Memᴰ.tail m) ih = let (n, c) = ih m in (Memᴰ.tail n, c)

pick-le :
    (forward : Bool) (d : AnonymousDefinition) (ds : List AnonymousDefinition)
    → All (NoFurther forward (pick forward d ds)) (d ∷ ds)
pick-le true d ds = earliest-le d ds
pick-le false d ds = latest-le d ds

pick-mem :
    (forward : Bool) (d : AnonymousDefinition) (ds : List AnonymousDefinition)
    → Memᴰ (pick forward d ds) (d ∷ ds)
pick-mem true d ds = earliest-mem d ds
pick-mem false d ds = latest-mem d ds

-- The target of a reference is a definition on its side and in its macro, and no other such
-- definition is nearer.
pub target_of-IsNearest :
    (reference : AnonymousReference) (definitions : List AnonymousDefinition)
    (target : AnonymousDefinition)
    → target_of reference definitions ≡ some target
    → IsNearest reference definitions target
unfolding target_of
target_of-IsNearest reference definitions target h = go (candidates_of reference definitions) refl h
  where
    forward : Bool
    forward = points_forward reference

    go :
        (cs : List AnonymousDefinition)
        → candidates_of reference definitions ≡ cs
        → pick_any forward cs ≡ some target
        → IsNearest reference definitions target
    go [] e k = absurd (none-ne-some target k)
    go (d ∷ ds) e k =
        let same : pick forward d ds ≡ target = some-injective _ _ k in
        let here = subst (λ x. Memᴰ x (d ∷ ds)) same (pick-mem forward d ds) in
        let least = subst (λ x. All (NoFurther forward x) (d ∷ ds)) same (pick-le forward d ds) in
        let (known, candidate) =
          candidates-mem reference target definitions (subst (Memᴰ target) (sym e) here) in
        record {
          known = known;
          candidate = candidate;
          nearest =
              candidates-All (NoFurther forward target) reference definitions
                (subst (All (NoFurther forward target)) (sym e) least);
        }
