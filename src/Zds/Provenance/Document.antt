-- ===== src/Zds/Provenance/Document.antt =====
-- A document as `json.loads` returns it, and the tests on its parts in
-- projects/mos-port/tools/zds2gas.py. A number is kept as it is written.
use mos_agondev.Prelude.{
  Bool, Dict, List, [], all, contains, false, has_key, if◌then◌else◌, list_eq, lookup, nat_eq,
  option_eq, pair_eq, ℕ, ◌&&◌, ◌∷◌,
}
use mos_agondev.Text.{Str}
use mos_agondev.Errors.{Result, err, from_option, key_error, ok, value_error}

mutual
  pub data Json : Type 0 where
    json_null : Json
    json_bool : Bool → Json
    json_number : Str → Json
    json_string : Str → Json
    json_list : JsonItems → Json
    json_object : JsonFields → Json

  pub data JsonItems : Type 0 where
    no_items : JsonItems
    add_item : Json → JsonItems → JsonItems

  pub data JsonFields : Type 0 where
    no_fields : JsonFields
    add_field : Str → Json → JsonFields → JsonFields

unfoldable pub items_list : JsonItems → List Json
items_list no_items = []
items_list (add_item j js) = j ∷ items_list js

unfoldable pub fields_dict : JsonFields → Dict Str Json
fields_dict no_fields = []
fields_dict (add_field k j js) = (k, j) ∷ fields_dict js

-- `isinstance(value, str)`, `isinstance(value, bool)` and `isinstance(value, list)`
unfoldable pub text_of : Json → Result Str
text_of (json_string s) = ok s
text_of _ = err value_error

unfoldable pub bool_of : Json → Result Bool
bool_of (json_bool b) = ok b
bool_of _ = err value_error

unfoldable pub items_of : Json → Result (List Json)
items_of (json_list js) = ok (items_list js)
items_of _ = err value_error

-- `value == n and not isinstance(value, bool)`
unfoldable pub is_number : (Str → ℕ → Bool) → Json → ℕ → Bool
is_number number_is (json_number text) n = number_is text n
is_number number_is _ n = false

-- `entry[key]`
unfoldable pub field : Str → Dict Str Json → Result Json
field key entry = from_option key_error (lookup key entry)

field_names : Dict Str Json → List Str
field_names [] = []
field_names ((k, j) ∷ rest) = k ∷ field_names rest

-- `_exact_object_keys`: the keys are the expected ones
unfoldable pub exact_object_keys : Json → List Str → Result (Dict Str Json)
unfolding field_names
exact_object_keys (json_object fields) expected =
    let value = fields_dict fields in
    if all (λ k. has_key k value) expected && all (λ k. contains k expected) (field_names value)
    then ok value
    else err value_error
exact_object_keys _ expected = err value_error
