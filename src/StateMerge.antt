-- ===== src/StateMerge.antt =====
-- engine/state_merge.py: the merge of an agent's delta into the shared state, by each key's policy.
pub mod Laws
use ravana.Prelude.{
  String, Bool, true, false, ◌||◌, Option, none, some, List, [], ◌∷◌, or_else, if◌then◌else◌,
}
use ravana.Exception.{Result, ok, raise, value_error, ◌>>=◌}
use ravana.Dict.{Dict, get, put, has_key}
use ravana.Value.{
  Value, null, bool, int, str, arr, obj, Elements, nil, cons, Entries, end, State, concat, update,
  or_default,
}
use ravana.Schema.{MergePolicy, overwrite, merge_object, append, StateConfig}

-- `field_schema.merge if field_schema else "overwrite"`
unfoldable pub policy_of : Dict MergePolicy → String → MergePolicy
unfolding get
policy_of fields key = or_else (get fields key) overwrite

-- `value if isinstance(value, list) else [value]`
abbrev pub as_items : Value → Elements
as_items (arr xs) = xs
as_items v = cons v nil

abbrev pub objects : Value → Value → Result Value
objects (obj a) (obj b) = ok (obj (update a b))
objects _ _ = raise value_error

abbrev pub append_to : Value → Value → Result Value
append_to (arr xs) v = ok (arr (concat xs (as_items v)))
append_to _ v = raise value_error

-- One key's new value from the one in `merged`, which is missing or not.
unfoldable pub merge_value : MergePolicy → Option Value → Value → Result Value
merge_value overwrite existing value = ok value
merge_value policy none value = ok value
merge_value merge_object (some old) value = objects (or_default (some old) (obj end)) value
merge_value append (some old) value = append_to (or_default (some old) (arr nil)) value

-- the loop over `delta.items()`
unfoldable pub merge_into : Dict MergePolicy → State → State → Result State
unfolding merge_value policy_of
merge_into fields merged [] = ok merged
merge_into fields merged ((key, value) ∷ delta) = do
  new ← merge_value (policy_of fields key) (get merged key) value
  merge_into fields (put merged key new) delta

unfoldable pub merge_delta : State → State → StateConfig → Result State
unfolding merge_into
merge_delta shared_state delta config = merge_into config.fields shared_state delta
