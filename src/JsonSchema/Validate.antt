-- ===== src/JsonSchema/Validate.antt =====
-- `validate_json` of runtime/schema_validate.py: every way that a validation ends is an answer.
use Prim.Native.Char.{code}
use Prim.Native.String.{◌++◌ as string_append}
use ravana.Prelude.{
  ℕ, String, Bool, true, false, Option, none, some, List, [], ◌∷◌, map, ltb, ◌==◌, str_eq,
  if◌then◌else◌,
}
use ravana.JsonSchema.{
  Json, object, Stop, regex_budget_exceeded, validation_budget_exceeded, recursion_error,
  schema_policy_error, schema_error, unresolvable, unknown_type, another, Outcome, stop, done, Work,
  Budget, Python, ◌then_do◌, fresh_budget,
}
use ravana.JsonSchema.Texts.{
  max_reported_errors, max_message_chars, max_path_chars, max_diagnostic_chars, schema_error_prefix,
  truncate, decimal, join, first_of, field_error,
}
use ravana.JsonSchema.Walk.{first_nonfinite_path}
use ravana.JsonSchema.Preflight.{Resource, Referencing, preflight_schema_resources, preflight_refs}

-- ValidationError of `jsonschema`, by the parts that are shown
pub data PathPart : Type 0 where
  key : String → PathPart
  index : ℕ → PathPart

pub record ValidationError : Type 0 where
  pub message : String
  pub absolute_path : List PathPart

-- The libraries around a validation. `iter_errors` is the safe validator's, by how many errors are
-- taken from it; it and `check_schema` run the bounded keywords, so they spend the budget. `repr` is
-- Python's, of a text.
pub record Library (Resolver : Type 0) : Type 0 where
  pub from_contents : Json → Outcome Resource
  pub referencing : Referencing Resolver
  pub check_schema : Json → Work (Unit {0})
  pub iter_errors : (schema payload : Json) (count : ℕ) → Work (List ValidationError)
  pub repr : String → String

-- _MAX_COLLECTED_ERRORS
abbrev pub max_collected_errors : ℕ
max_collected_errors = 64

-- str(part)
abbrev shown_part : PathPart → String
shown_part (key k) = k
shown_part (index n) = decimal n

-- Python's order of texts, and of the paths of one payload: two that agree so far go on with keys
-- of one object or with indexes of one array.
abbrev less_text : String → String → Bool
less_text String.[] String.[] = false
less_text String.[] (String.◌∷◌ d t) = true
less_text (String.◌∷◌ c s) String.[] = false
less_text (String.◌∷◌ c s) (String.◌∷◌ d t) =
    let rest = less_text s t in if code c == code d then rest else ltb (code c) (code d)

abbrev less_part : PathPart → PathPart → Bool
less_part (key a) (key b) = less_text a b
less_part (index a) (index b) = ltb a b
less_part (key a) (index b) = false
less_part (index a) (key b) = true

abbrev same_part : PathPart → PathPart → Bool
same_part (key a) (key b) = str_eq a b
same_part (index a) (index b) = a == b
same_part _ _ = false

abbrev less_path : List PathPart → List PathPart → Bool
less_path [] [] = false
less_path [] (b ∷ bs) = true
less_path (a ∷ xs) [] = false
less_path (a ∷ xs) (b ∷ ys) =
    let rest = less_path xs ys in if same_part a b then rest else less_part a b

-- sorted(collected, key=lambda error: list(error.absolute_path))
abbrev insert_error : ValidationError → List ValidationError → List ValidationError
insert_error x [] = x ∷ []
insert_error x (y ∷ ys) =
    let rest = insert_error x ys in
    if less_path y.absolute_path x.absolute_path then y ∷ rest else x ∷ y ∷ ys

abbrev sort_errors : List ValidationError → List ValidationError
sort_errors [] = []
sort_errors (x ∷ xs) = insert_error x (sort_errors xs)

abbrev at_location : (location message : String) → String
at_location String.[] message = message
at_location (String.◌∷◌ c s) message = field_error (String.◌∷◌ c s) message

-- _describe
unfoldable pub describe : ValidationError → String
describe error =
    at_location (join "." (map shown_part error.absolute_path))
      (truncate max_message_chars error.message)

-- The end of _validate, from the errors that were collected.
unfoldable pub report : List ValidationError → Option String
unfolding describe
report [] = none
report (x ∷ xs) =
    some (join "; " (map describe (first_of max_reported_errors (sort_errors (x ∷ xs)))))

abbrev authoring_error : String → Outcome (Option String)
authoring_error message = done (some (string_append schema_error_prefix message))

abbrev regex_limit : String
regex_limit = "regular-expression evaluation exceeded 0.1s limit"

abbrev unresolvable_ref : String → String
unresolvable_ref shown =
    string_append "unresolvable $ref (" (string_append (truncate max_message_chars shown) ")")

-- the handlers of _validate_schema
abbrev pub schema_answer : Outcome (Option String) → Outcome (Option String)
schema_answer (done answer) = done answer
schema_answer (stop (schema_error message)) = authoring_error (truncate max_message_chars message)
schema_answer (stop (unresolvable shown)) = authoring_error (unresolvable_ref shown)
schema_answer (stop regex_budget_exceeded) = authoring_error regex_limit
schema_answer (stop validation_budget_exceeded) =
    authoring_error "schema exceeds the validation resource limit"
schema_answer (stop (schema_policy_error message)) = authoring_error message
schema_answer (stop recursion_error) = authoring_error "schema nesting is too deep to validate"
schema_answer (stop (unknown_type shown)) = stop (unknown_type shown)
schema_answer (stop (another name)) = stop (another name)

abbrev pub not_finite : String
not_finite = "not a finite JSON number (NaN/Infinity are not valid JSON)"

abbrev payload_limit : String
payload_limit = "payload exceeds the validation resource limit"

-- The handlers of _validate, without a schema and with one.
abbrev pub plain_answer : Outcome (Option String) → Outcome (Option String)
plain_answer (stop validation_budget_exceeded) = done (some payload_limit)
plain_answer answer = answer

abbrev pub payload_answer :
    (repr : String → String) → Outcome (Option String) → Outcome (Option String)
payload_answer repr (stop regex_budget_exceeded) = authoring_error regex_limit
payload_answer repr (stop validation_budget_exceeded) = done (some payload_limit)
payload_answer repr (stop (unknown_type shown)) =
    authoring_error (string_append "unknown type " shown)
payload_answer repr (stop (unresolvable shown)) = authoring_error (unresolvable_ref shown)
payload_answer repr answer = answer

-- type(exc).__name__
abbrev class_name : Stop → String
class_name regex_budget_exceeded = "_RegexBudgetExceeded"
class_name validation_budget_exceeded = "_ValidationBudgetExceeded"
class_name recursion_error = "RecursionError"
class_name (schema_policy_error message) = "_SchemaPolicyError"
class_name (schema_error message) = "SchemaError"
class_name (unresolvable message) = "Unresolvable"
class_name (unknown_type shown) = "UnknownType"
class_name (another name) = name

-- the handlers of validate_json
abbrev handled : Stop → String
handled recursion_error = "payload nesting is too deep to validate"
handled s =
    string_append schema_error_prefix
      (string_append "could not be validated (" (string_append (class_name s) ")"))

abbrev pub final_answer : Outcome (Option String) → Option String
final_answer (done answer) = answer
final_answer (stop s) = some (handled s)

abbrev pub is_object : Json → Bool
is_object (object d) = true
is_object _ = false

abbrev pub expect_object : Json → Option String
expect_object payload = if is_object payload then none else some "expected a JSON object"

-- `with _validation_budget(): …` and its handlers, at a reading of the clock: the answer, and the
-- readings afterwards.
abbrev pub within {ℓ} : {A : Type ℓ} → (Outcome A → Outcome A) → Outcome A × Budget → Outcome A × ℕ
within handle (answer, b) = (handle answer, b.reads)

abbrev pub answered : Option String → (ℕ → Outcome (Option String)) → ℕ → Outcome (Option String)
answered (some message) next reads = done (some message)
answered none next reads = next reads

-- The statements of _validate after _validate_schema, when it returns.
abbrev pub unless_answered :
    Outcome (Option String) × ℕ → (ℕ → Outcome (Option String)) → Outcome (Option String)
unless_answered (stop s, reads) next = stop s
unless_answered (done answer, reads) next = answered answer next reads

module _ {Resolver : Type 0} (py : Python) (lib : Library Resolver) where
  -- `if found is not None: return message`, or else the statements that follow.
  abbrev pub returning :
      Option String → (String → String) → Work (Option String) → Work (Option String)
  returning (some path) message rest b = (done (some (message path)), b)
  returning none message rest b = rest b

  abbrev pub schema_checks : Json → Resource → Work (Option String)
  schema_checks schema root b =
      preflight_schema_resources py lib.repr py.recursion_limit root b then_do λ done_ c.
      lib.check_schema schema c then_do λ done_ d.
      preflight_refs lib.referencing py root d then_do λ done_ e. (done none, e)

  abbrev pub nonfinite_schema : String → String
  nonfinite_schema path =
      string_append schema_error_prefix
        (string_append "non-finite number at '" (string_append (truncate max_path_chars path) "'"))

  -- the try block of _validate_schema
  unfoldable pub check_authored : Json → Work (Option String)
  unfolding first_nonfinite_path
  check_authored schema b = first_nonfinite_path py schema b then_do λ found.
      returning found nonfinite_schema
        λ c. (lib.from_contents schema, c) then_do λ root. schema_checks schema root

  -- _validate_schema
  unfoldable pub validate_schema : Json → ℕ → Outcome (Option String) × ℕ
  unfolding check_authored
  validate_schema schema reads =
      within schema_answer (check_authored schema (fresh_budget py reads))

  -- the try blocks of _validate
  unfoldable pub check_plain : Json → Work (Option String)
  unfolding first_nonfinite_path
  check_plain payload b = first_nonfinite_path py payload b then_do λ found.
      returning found (λ path. field_error path not_finite) λ c. (done (expect_object payload), c)

  unfoldable pub check_payload : Json → Json → Work (Option String)
  unfolding first_nonfinite_path report
  check_payload payload schema b = first_nonfinite_path py payload b then_do λ found.
      returning found (λ path. field_error path not_finite)
        λ c. lib.iter_errors schema payload max_collected_errors c then_do λ collected d.
          (done (report collected), d)

  -- _validate
  unfoldable pub validate : Json → Option Json → ℕ → Outcome (Option String)
  unfolding check_plain check_payload validate_schema
  validate payload none reads =
      (within plain_answer (check_plain payload (fresh_budget py reads))).0
  validate payload (some schema) reads = unless_answered (validate_schema schema reads) λ later.
      (within (payload_answer lib.repr) (check_payload payload schema (fresh_budget py later))).0

  abbrev pub bounded : Option String → Option String
  bounded none = none
  bounded (some message) = some (truncate max_diagnostic_chars message)

  -- validate_json, from a number of readings of the clock
  unfoldable pub validate_json : Json → Option Json → ℕ → Option String
  unfolding validate truncate
  validate_json payload schema reads = bounded (final_answer (validate payload schema reads))
