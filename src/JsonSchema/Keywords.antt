-- ===== src/JsonSchema/Keywords.antt =====
-- Keyword validators of runtime/schema_validate.py that jsonschema calls back: `pattern`,
-- `patternProperties` and `additionalProperties`, each when all its errors are taken. An error is
-- its message.
use Prim.Native.String.{◌++◌ as string_append}
use ravana.Prelude.{
  String, Bool, true, false, ◌||◌, List, [], ◌∷◌, ◌++◌, contains, str_eq, if◌then◌else◌,
}
use ravana.JsonSchema.{
  Json, boolean, text, object, Fields, no_field, field, done, Outcome, Work, Budget, Python,
  ◌then_do◌, consume_validation_step, regex_matches,
}
use ravana.JsonSchema.Texts.{max_path_chars, truncate, summarize_keys}

-- _safe_pattern: the messages of its errors
unfoldable pub safe_pattern : Python → (repr : String → String) → String → Json → Work (List String)
unfolding regex_matches truncate
safe_pattern py repr pattern (text s) b = regex_matches py pattern s b then_do λ found c. (
  done (
      if found
      then []
      else string_append "does not match pattern " (repr (truncate max_path_chars pattern)) ∷ []),
  c,
)
safe_pattern py repr pattern _ b = (done [], b)

abbrev is_key : Fields → String → Bool
is_key no_field k = false
is_key (field j v d) k = str_eq j k || is_key d k

-- `any(_regex_matches(pattern, key) for pattern in patterns)`, which stops at the first match
abbrev or_else_any : Bool → Work Bool → Work Bool
or_else_any true rest b = (done true, b)
or_else_any false rest b = rest b

unfoldable pub any_pattern : Python → Fields → (key : String) → Work Bool
unfolding regex_matches
any_pattern py no_field k b = (done false, b)
any_pattern py (field pattern v d) k b =
    regex_matches py pattern k b then_do λ found. or_else_any found (any_pattern py d k)

abbrev is_covered : Python → (properties patterns : Fields) → (key : String) → Work Bool
is_covered py properties patterns k = or_else_any (is_key properties k) (any_pattern py patterns k)

abbrev unless_covered : Bool → String → List String → List String
unless_covered covered k extras = if covered then extras else k ∷ extras

-- list(_additional_property_names(instance, schema)), for a schema's properties and patterns
unfoldable pub additional_property_names :
    Python → (properties patterns instance : Fields) → Work (List String)
unfolding any_pattern consume_validation_step
additional_property_names py properties patterns no_field b = (done [], b)
additional_property_names py properties patterns (field k v d) b =
    consume_validation_step py b then_do λ stepped c.
    is_covered py properties patterns k c then_do λ covered e.
    additional_property_names py properties patterns d e then_do λ extras f.
    (done (unless_covered covered k extras), f)

-- The errors of one step after those of another.
abbrev and_errors :
    Outcome (List String) × Budget → Work (List String) → Outcome (List String) × Budget
and_errors first rest =
    first then_do λ errors b. rest b then_do λ others c. (done (errors ++ others), c)

-- `validator.descend(value, subschema, path=key)` is a parameter: the library's.
module _ (py : Python)
    (descend : (value subschema : Json) (path : String) → Work (List String)) where
  abbrev descend_if : Bool → (value subschema : Json) (path : String) → Work (List String)
  descend_if true value subschema path b = descend value subschema path b
  descend_if false value subschema path b = (done [], b)

  abbrev match_fields : (pattern : String) (subschema : Json) → Fields → Work (List String)
  match_fields pattern subschema no_field b = (done [], b)
  match_fields pattern subschema (field k v d) b = regex_matches py pattern k b then_do λ found c.
      and_errors (descend_if found v subschema k c) (match_fields pattern subschema d)

  -- _safe_pattern_properties
  unfoldable pub safe_pattern_properties :
      (patterns : Fields) (instance : Json) → Work (List String)
  unfolding regex_matches
  safe_pattern_properties (field pattern subschema ps) (object d) b =
      and_errors (match_fields pattern subschema d b) (safe_pattern_properties ps (object d))
  safe_pattern_properties _ _ b = (done [], b)

  -- The entries whose keys are among the names, each by the schema of additional properties.
  abbrev descend_extras : (extras : List String) → Json → Fields → Work (List String)
  descend_extras extras subschema no_field b = (done [], b)
  descend_extras extras subschema (field k v d) b =
      and_errors (descend_if (contains extras k) v subschema k b)
        (descend_extras extras subschema d)

  abbrev refuse_extras : (repr : String → String) → List String → List String
  refuse_extras repr [] = []
  refuse_extras repr (k ∷ ks) =
      string_append "additional properties are not allowed ("
        (string_append (summarize_keys repr (k ∷ ks)) ")")
      ∷ []

  abbrev judge_extras : (repr : String → String) → Json → Fields → List String → Work (List String)
  judge_extras repr (object s) d extras b = descend_extras extras (object s) d b
  judge_extras repr (boolean false) d extras b = (done (refuse_extras repr extras), b)
  judge_extras repr _ d extras b = (done [], b)

  -- _safe_additional_properties, for a schema's properties and patterns
  unfoldable pub safe_additional_properties :
      (repr : String → String) (additional_properties : Json) (properties patterns : Fields)
      → (instance : Json) → Work (List String)
  unfolding additional_property_names summarize_keys
  safe_additional_properties repr additional_properties properties patterns (object d) b =
      additional_property_names py properties patterns d b then_do λ extras.
      judge_extras repr additional_properties d extras
  safe_additional_properties repr additional_properties properties patterns _ b = (done [], b)
