-- ===== src/Samples/Schemas.antt =====
-- Tests and examples of runtime/schema_validate.py.
use ravana.Prelude.{◌≡◌, refl, String, true, none, some, [], false, List, ◌∷◌}
use ravana.Prelude.Int.{pos}
use ravana.Text.{length, take, drop}
use ravana.JsonSchema.{
  Json, null, boolean, integer, float, array, object, text, no_item, item, no_field, field,
  fraction, nan, done, Work, Python, fresh_budget, regex_matches, consume_validation_step,
}
use ravana.JsonSchema.Texts.{truncate, decimal, field_error, summarize_keys}
use ravana.JsonSchema.Walk.{first_nonfinite, first_nonfinite_path}
use ravana.JsonSchema.Preflight.{
  resource, no_subresource, subresource, check_candidates, preflight_schema_resources, walk_refs,
  preflight_refs,
}
use ravana.JsonSchema.Keywords.{
  safe_pattern, any_pattern, additional_property_names, safe_pattern_properties,
  safe_additional_properties,
}
use ravana.JsonSchema.Validate.{
  Library, report, check_authored, validate_schema, check_plain, check_payload, validate,
  validate_json,
}
use ravana.JsonSchema.Valid.Answers.{Answers, validate_json-Answers}

abbrev python : Python
python = record {
  monotonic = λ reading. 7;
  search = λ pattern value timeout reading. some true;
  recursion_limit = 50;
}

abbrev silent_python : Python
silent_python = record {
  monotonic = λ reading. 7;
  search = λ pattern value timeout reading. some false;
  recursion_limit = 50;
}

-- A validator that reports the path of whatever it descends to.
abbrev path_as_error : Json → Json → String → Work (List String)
path_as_error value subschema path b = (done (path ∷ []), b)

abbrev amount_schema : Json
amount_schema = object (
    field "properties"
      (object (field "amount" (object (field "$ref" (text "#/$defs/amount") no_field)) no_field))
      no_field)

abbrev library : Library String
library = record {
  from_contents = λ schema. done (
      resource schema (
        subresource
          (resource (object (field "$ref" (text "#/$defs/amount") no_field)) no_subresource)
          no_subresource));
  referencing = record {
    with_root = λ root. "root";
    in_subresource = λ resolver r. resolver;
    lookup = λ resolver ref. done tt;
  };
  check_schema = λ schema b. (done tt, b);
  iter_errors = λ schema payload count b. (done [], b);
  repr = λ s. s;
}

abbrev order : Json
order = object (field "amount" (float (fraction (pos 5) 2)) no_field)

abbrev broken_order : Json
broken_order =
    object (field "items" (array (item (integer (pos 1)) (item (float nan) no_item))) no_field)

accepted : validate_json python library order (some amount_schema) 0 ≡ none
unfolding length take drop consume_validation_step fresh_budget truncate decimal field_error
    first_nonfinite first_nonfinite_path check_candidates preflight_schema_resources walk_refs
    preflight_refs report check_authored validate_schema check_plain check_payload validate
    validate_json
accepted = refl

refused :
    validate_json python library broken_order none 0
    ≡ some "field 'items.1': not a finite JSON number (NaN/Infinity are not valid JSON)"
unfolding length take drop consume_validation_step fresh_budget truncate decimal field_error
    first_nonfinite first_nonfinite_path check_candidates preflight_schema_resources walk_refs
    preflight_refs report check_authored validate_schema check_plain check_payload validate
    validate_json
refused = refl

validate_json-Answers_example :
    Answers python library order
      (some amount_schema)
      (validate_json python library order (some amount_schema) 0)
validate_json-Answers_example = validate_json-Answers python library order (some amount_schema) 0

abbrev four_extras : Json
four_extras = object (
    field "a" (integer (pos 1))
      (field "b" null (field "c" null (field "d" null (field "id" null no_field)))))

refuses_extras :
    (safe_additional_properties silent_python path_as_error
      (λ s. s)
      (boolean false)
      (field "id" null no_field)
      no_field
      four_extras
      (fresh_budget silent_python 0)).0
    ≡ done ("additional properties are not allowed (a, b, c, and 1 more)" ∷ [])
unfolding length take drop consume_validation_step regex_matches any_pattern
    additional_property_names safe_additional_properties safe_pattern safe_pattern_properties
    summarize_keys fresh_budget truncate decimal
refuses_extras = refl

descends_by_pattern :
    (safe_pattern_properties python path_as_error
      (field "^a" null no_field)
      order
      (fresh_budget python 0)).0
    ≡ done ("amount" ∷ [])
unfolding length take drop consume_validation_step regex_matches any_pattern
    additional_property_names safe_additional_properties safe_pattern safe_pattern_properties
    summarize_keys fresh_budget truncate decimal
descends_by_pattern = refl

does_not_match :
    (safe_pattern silent_python (λ s. s) "^b" (text "a") (fresh_budget silent_python 0)).0
    ≡ done ("does not match pattern ^b" ∷ [])
unfolding length take drop consume_validation_step regex_matches any_pattern
    additional_property_names safe_additional_properties safe_pattern safe_pattern_properties
    summarize_keys fresh_budget truncate decimal
does_not_match = refl
