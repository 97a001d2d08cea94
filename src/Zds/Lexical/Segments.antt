-- ===== src/Zds/Lexical/Segments.antt =====
-- A line cut into the regions that map_unquoted of projects/mos-port/tools/zds2gas.py passes to its
-- transform and those that it keeps. A transform that fails, or that counts its calls, is run
-- over this list, in the order of the calls.
pub mod Agree
use mos_agondev.Prelude.{
  Bool, List, [], false, if◌then◌else◌, list_eq, nat_eq, none, option_eq, pair_eq, some, true, ℕ,
  ◌++◌, ◌==◌, ◌∷◌,
}
use mos_agondev.Text.{Str}
use mos_agondev.Zds.Lexical.{Quoting, is_quote, unquoted}
use mos_agondev.Errors.{Result, ok, ◌>>=◌, ◌>>◌}

pub data Segment : Type 0 where
  code_text : Str → Segment
  string_text : Str → Segment

-- what one character closes, and the state behind it
pub record Cut : Type 0 where
  pub closed : List Segment
  pub state : Quoting
  pub buffer : Str

-- `flush_plain` calls the transform only on a text that is not empty
unfoldable pub flush : Str → List Segment
flush [] = []
flush (c ∷ cs) = code_text (c ∷ cs) ∷ []

cut_outside : Str → ℕ → Cut
unfolding flush
cut_outside buffer c =
    if is_quote c
    then record {
      closed = flush buffer;
      state = record { quote = some c; escaped = false };
      buffer = c ∷ [];
    }
    else record { closed = []; state = unquoted; buffer = buffer ++ (c ∷ []) }

cut_inside : ℕ → Bool → Str → ℕ → Cut
cut_inside q escaped buffer c =
    let longer = buffer ++ (c ∷ []) in
    let go_on : Bool → Cut = λ e. record {
      closed = [];
      state = record { quote = some q; escaped = e };
      buffer = longer;
    } in
    if escaped
    then go_on false
    else if c == b'\\'
    then go_on true
    else if c == q
    then record { closed = string_text longer ∷ []; state = unquoted; buffer = [] }
    else go_on false

cut_round : Quoting → Str → ℕ → Cut
unfolding cut_outside cut_inside
cut_round st buffer c = elim (st.quote) [
  | none ↦ cut_outside buffer c
  | some q ↦ cut_inside q st.escaped buffer c
]

cut_finish : Quoting → Str → List Segment
unfolding flush
cut_finish st buffer = elim (st.quote) [ none ↦ flush buffer | some q ↦ string_text buffer ∷ [] ]

segments_from : Quoting → Str → Str → List Segment
unfolding cut_round cut_finish
segments_from st buffer [] = cut_finish st buffer
segments_from st buffer (c ∷ cs) =
    let cut = cut_round st buffer c in cut.closed ++ segments_from cut.state cut.buffer cs

unfoldable pub segments : Str → List Segment
unfolding segments_from
segments = segments_from unquoted []

unfoldable pub render : (Str → Str) → List Segment → Str
render f [] = []
render f (code_text s ∷ rest) = f s ++ render f rest
render f (string_text s ∷ rest) = s ++ render f rest

-- a transform with a counter that may fail
unfoldable pub render_counted : (ℕ → Str → Result (ℕ × Str)) → ℕ → List Segment → Result Str
render_counted f n [] = ok []
render_counted f n (code_text s ∷ rest) = do
  (n', changed) ← f n s
  others ← render_counted f n' rest
  ok (changed ++ others)
render_counted f n (string_text s ∷ rest) = do others ← render_counted f n rest; ok (s ++ others)
