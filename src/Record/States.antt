-- ===== src/Record/States.antt =====
-- The states of input files in projects/mos-port/tools/record_target_step.py: FileState and
-- states_by_resolved. A path is its text.
pub mod Unaliased
use mos_agondev.Errors.{Result, err, ok, provenance_error, ◌>>=◌}
use mos_agondev.Prelude.{
  Bool, Dict, List, Option, [], if◌then◌else◌, insert, list_eq, lookup, nat_eq, none, option_eq,
  pair_eq, some, ℕ, ◌==◌, ◌∷◌,
}
use mos_agondev.Text.{Str}

pub record FileState : Type 0 where
  pub lexical : Str
  pub resolved : Str
  pub normalized : Str
  pub sha256 : Str
  pub size : ℕ
  pub leaf_symlink : Bool

-- one round of the loop, with what is known of the path
unfoldable pub enter_found :
    FileState → Dict Str FileState → Option FileState → Result (Dict Str FileState)
unfolding insert
enter_found state result none = ok (insert state.resolved state result)
enter_found state result (some previous) =
    if previous.lexical == state.lexical then ok result else err provenance_error

unfoldable pub enter_state : FileState → Dict Str FileState → Result (Dict Str FileState)
unfolding lookup enter_found
enter_state state result = enter_found state result (lookup state.resolved result)

unfoldable pub states_from : List FileState → Dict Str FileState → Result (Dict Str FileState)
unfolding enter_state
states_from [] result = ok result
states_from (state ∷ states) result = enter_state state result >>= states_from states

unfoldable pub states_by_resolved : List FileState → Result (Dict Str FileState)
unfolding states_from
states_by_resolved states = states_from states []
