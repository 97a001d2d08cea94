-- ===== src/Zds/Analyze/Sound.antt =====
-- What an analysis that analyze of projects/mos-port/tools/zds2gas.py returns says of its input.
use mathlib.Core.Option.{none-ne-some}
use mos_agondev.Prelude.{
  All, Dict, List, Option, [], ap, arith, has_key, length, list_eq, lookup, nat_eq, none, not,
  option_eq, pair_eq, some, subst, true, ℕ, ◌==◌, ◌∙◌, ◌≡◌,
}
use mos_agondev.Text.{Str, split_lines}
use mos_agondev.Zds.Analyze.{analysis_of, analyze, analyze_lines, default_locations}
use mos_agondev.Zds.Analyze.Anonymous.Keys.{HasKeys}
use mos_agondev.Zds.Analyze.Anonymous.Loop.{analyze_lines-Distinct}
use mos_agondev.Zds.Analyze.Resolve.{
  check_macro, check_named, check_structure, resolve, resolve_anonymous,
}
use mos_agondev.Zds.Analyze.Resolve.Resolved.{
  IsResolved, check_macro-All, check_named-All, resolve_anonymous-All,
}
use mos_agondev.Zds.Analyze.State.{Progress, initial_progress}
use mos_agondev.Zds.Analyze.Steps.{HasLayouts, IsLayout}
use mos_agondev.Zds.Analyze.Steps.Loop.{analyze_lines-Advances}
use mos_agondev.Zds.Names.{file_key}
use mos_agondev.Zds.Records.{Analysis, MacroSpec, SourceLocation, StructureSpec}
use mos_agondev.Errors.{bind-eq-ok, fail_if, ok, value_error}

-- a run of the loop and of the resolution that ends in the analysis
pub record Run (sha256 : Str → Str) (source_name text : Str) (macros : Dict Str MacroSpec)
    (a : Analysis) : Type 0 where
  pub progress : Progress
  pub resolved : Dict (ℕ × ℕ) Str
  pub locations : List SourceLocation
  pub loop :
      analyze_lines macros
        (file_key sha256 source_name)
        1
        (split_lines text)
        locations
        (initial_progress source_name)
      ≡ ok progress
  pub resolution : resolve progress ≡ ok resolved
  pub result : analysis_of source_name (file_key sha256 source_name) macros progress resolved ≡ a

pub analyze-Run :
    (sha256 : Str → Str) (source_name text : Str) (macros : Dict Str MacroSpec)
    (given : Option (List SourceLocation)) (a : Analysis)
    → analyze sha256 source_name text macros given ≡ ok a
    → Run sha256 source_name text macros a
unfolding analyze
analyze-Run sha256 source_name text macros none a h =
    let locations = default_locations source_name 1 (length (split_lines text)) in
    let (_, _, h1) =
      bind-eq-ok (fail_if (not (length locations == length (split_lines text))) value_error) _ h in
    let (p, loop, h2) =
      bind-eq-ok
        (analyze_lines macros (file_key sha256 source_name) 1 (split_lines text) locations
          (initial_progress source_name))
        _ h1 in
    let (resolved, resolution, h3) = bind-eq-ok (resolve p) _ h2 in
    record {
      progress = p;
      resolved = resolved;
      locations = locations;
      loop = loop;
      resolution = resolution;
      result = ground arith;
    }
analyze-Run sha256 source_name text macros (some locations) a h =
    let (_, _, h1) =
      bind-eq-ok (fail_if (not (length locations == length (split_lines text))) value_error) _ h in
    let (p, loop, h2) =
      bind-eq-ok
        (analyze_lines macros (file_key sha256 source_name) 1 (split_lines text) locations
          (initial_progress source_name))
        _ h1 in
    let (resolved, resolution, h3) = bind-eq-ok (resolve p) _ h2 in
    record {
      progress = p;
      resolved = resolved;
      locations = locations;
      loop = loop;
      resolution = resolution;
      result = ground arith;
    }

-- Every structure of the analysis stands under its own name. Its members have distinct names and
-- follow one another from offset 0 to its size, none overlapping the next.
pub analyze-IsLayout :
    (sha256 : Str → Str) (source_name text : Str) (macros : Dict Str MacroSpec)
    (given : Option (List SourceLocation)) (a : Analysis)
    → analyze sha256 source_name text macros given ≡ ok a
    → (name : Str) (spec : StructureSpec) → lookup name a.structures ≡ some spec
    → IsLayout name spec
unfolding lookup
analyze-IsLayout sha256 source_name text macros given a h name spec e =
    let run = analyze-Run sha256 source_name text macros given a h in
    let start : HasLayouts (initial_progress source_name) = record {
      closed = λ n s k. absurd (none-ne-some s k);
      opened = λ s k. absurd (none-ne-some s k);
    } in
    let layouts =
      (analyze_lines-Advances macros (file_key sha256 source_name) 1 (split_lines text)
          run.locations (initial_progress source_name) run.progress run.loop).layouts
        start in
    layouts.closed name spec (ap (λ (b : Analysis). lookup name b.structures) run.result ∙ e)

-- what holds of every reference that the loop met
pub record AllResolved (p : Progress) (a : Analysis) : Type 0 where
  pub named : All (λ r. has_key (r.scope, r.token) a.named_locals ≡ true) p.named_refs
  pub macro : All (λ r. has_key (r.macro_name, r.local_name) a.macro_locals ≡ true) p.macro_refs
  pub anonymous : All (IsResolved p.anonymous_defs a.anonymous_references) p.anonymous_refs
  pub no_structure : p.active_structure ≡ none

resolve-parts :
    (p : Progress) (resolved : Dict (ℕ × ℕ) Str)
    → resolve p ≡ ok resolved
    → (check_named p.named_locals p.named_refs ≡ ok tt)
      × (check_macro p.macro_locals p.macro_refs ≡ ok tt)
      × (resolve_anonymous p.anonymous_defs p.anonymous_refs [] ≡ ok resolved)
      × (p.active_structure ≡ none)
unfolding resolve check_structure
resolve-parts p resolved h = ground arith

-- In an analysis that is returned every reference met by the loop is resolved: a local in its own
-- scope, a macro-local in its own macro, and an anonymous reference by the label of the nearest
-- definition on its side in its macro. No structure is left open.
pub analyze-AllResolved :
    (sha256 : Str → Str) (source_name text : Str) (macros : Dict Str MacroSpec)
    (given : Option (List SourceLocation)) (a : Analysis)
    → analyze sha256 source_name text macros given ≡ ok a
    → (run : Run sha256 source_name text macros a) × AllResolved run.progress a
analyze-AllResolved sha256 source_name text macros given a h =
    let run = analyze-Run sha256 source_name text macros given a h in
    let p = run.progress in
    let (named_ok, macro_ok, anonymous_ok, closed) = resolve-parts p run.resolved run.resolution in
    let keys : HasKeys 1 (initial_progress source_name).anonymous_refs = record {
      below = tt;
      distinct = tt;
    } in
    let distinct =
      analyze_lines-Distinct macros (file_key sha256 source_name) 1 (split_lines text) run.locations
        (initial_progress source_name) p run.loop keys in
    (
      run,
      subst (AllResolved p) run.result (record {
        named = check_named-All p.named_locals p.named_refs named_ok;
        macro = check_macro-All p.macro_locals p.macro_refs macro_ok;
        anonymous =
            resolve_anonymous-All p.anonymous_defs p.anonymous_refs [] run.resolved distinct
              anonymous_ok;
        no_structure = closed;
      }),
    )
