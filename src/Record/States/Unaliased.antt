-- ===== src/Record/States/Unaliased.antt =====
-- What states_by_resolved of projects/mos-port/tools/record_target_step.py promises its callers.
use mos_agondev.Errors.{bind-eq-ok, ok, ok-injective}
use mos_agondev.Prelude.{
  All, Dict, List, Option, [], ap, arith, insert, insert_keeps, list_beq_iff, list_eq, lookup,
  lookup-insert_self, nat_eq, none, option_eq, pair_eq, refl, some, sym, ◌∙◌, ◌∷◌, ◌≡◌,
}
use mos_agondev.Record.States.{FileState, enter_found, enter_state, states_by_resolved, states_from}
use mos_agondev.Text.{Str}

-- The entry of a state's resolved path has the state's lexical path.
abbrev pub IsEntered : Dict Str FileState → FileState → Type 0
IsEntered entries state =
    (first : FileState) × (lookup state.resolved entries ≡ some first)
    × (first.lexical ≡ state.lexical)

same_lexical :
    (previous state : FileState) (result next : Dict Str FileState)
    → enter_found state result (some previous) ≡ ok next
    → (previous.lexical ≡ state.lexical) × (result ≡ next)
unfolding enter_found
same_lexical previous state result next h =
    ground (arith, h, list_beq_iff previous.lexical state.lexical)

enter_found-IsEntered :
    (state : FileState) (result next : Dict Str FileState) (o : Option FileState)
    → lookup state.resolved result ≡ o
    → enter_found state result o ≡ ok next
    → IsEntered next state
unfolding enter_found
enter_found-IsEntered state result next none fresh h = (
  state,
  ap (lookup state.resolved) (sym (ok-injective (insert state.resolved state result) next h))
      ∙ lookup-insert_self state.resolved state result,
  refl,
)
enter_found-IsEntered state result next (some previous) old h =
    let (alike, unmoved) = same_lexical previous state result next h in
    (previous, ap (lookup state.resolved) (sym unmoved) ∙ old, alike)

enter_found-keeps :
    (state : FileState) (result next : Dict Str FileState) (o : Option FileState) (key : Str)
    (first : FileState)
    → lookup state.resolved result ≡ o
    → enter_found state result o ≡ ok next
    → lookup key result ≡ some first
    → lookup key next ≡ some first
unfolding enter_found
enter_found-keeps state result next none key first fresh h k =
    ap (lookup key) (sym (ok-injective (insert state.resolved state result) next h))
    ∙ insert_keeps key state.resolved state first result fresh k
enter_found-keeps state result next (some previous) key first old h k =
    let (alike, unmoved) = same_lexical previous state result next h in
    ap (lookup key) (sym unmoved) ∙ k

enter_state-IsEntered :
    (state : FileState) (result next : Dict Str FileState)
    → enter_state state result ≡ ok next
    → IsEntered next state
unfolding enter_state
enter_state-IsEntered state result next =
    enter_found-IsEntered state result next (lookup state.resolved result) refl

enter_state-keeps :
    (state : FileState) (result next : Dict Str FileState) (key : Str) (first : FileState)
    → enter_state state result ≡ ok next
    → lookup key result ≡ some first
    → lookup key next ≡ some first
unfolding enter_state
enter_state-keeps state result next key first =
    enter_found-keeps state result next (lookup state.resolved result) key first refl

states_from-keeps :
    (states : List FileState) (result entries : Dict Str FileState) (key : Str) (first : FileState)
    → states_from states result ≡ ok entries
    → lookup key result ≡ some first
    → lookup key entries ≡ some first
unfolding states_from
states_from-keeps [] result entries key first h k =
    ap (lookup key) (sym (ok-injective result entries h)) ∙ k
states_from-keeps (state ∷ states) result entries key first h k =
    let (next, step, rest) = bind-eq-ok (enter_state state result) (states_from states) h in
    states_from-keeps states next entries key first rest
      (enter_state-keeps state result next key first step k)

states_from-IsEntered :
    (states : List FileState) (result entries : Dict Str FileState)
    → states_from states result ≡ ok entries
    → All (IsEntered entries) states
unfolding states_from
states_from-IsEntered [] result entries h = tt
states_from-IsEntered (state ∷ states) result entries h =
    let (next, step, rest) = bind-eq-ok (enter_state state result) (states_from states) h in
    let (first, known, alike) = enter_state-IsEntered state result next step in
    (
      (first, states_from-keeps states next entries state.resolved first rest known, alike),
      states_from-IsEntered states next entries rest,
    )

-- When states_by_resolved returns a dict, each of the states has an entry under its resolved path,
-- and this entry has the lexical path of the state.
pub states_by_resolved-IsEntered :
    (states : List FileState) (entries : Dict Str FileState)
    → states_by_resolved states ≡ ok entries
    → All (IsEntered entries) states
unfolding states_by_resolved
states_by_resolved-IsEntered states entries = states_from-IsEntered states [] entries
