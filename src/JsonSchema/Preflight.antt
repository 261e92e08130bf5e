-- ===== src/JsonSchema/Preflight.antt =====
-- The checks of a schema before it is used: its finite numbers, its dialect and the size of its
-- patterns, and its references. A Resource of the `referencing` library is a tree of subresources.
use Prim.Native.Nat.{pred}
use Prim.Native.String.{◌++◌ as string_append}
use ravana.Prelude.{ℕ, String, Bool, not, ◌&&◌, Option, none, some, str_eq, ltb, if◌then◌else◌}
use ravana.Text.{length}
use ravana.JsonSchema.{
  Json, object, text, Fields, no_field, field, Outcome, stop, done, schema_policy_error, Work,
  Python, ◌then_do◌, consume_validation_step,
}
use ravana.JsonSchema.Texts.{max_pattern_chars, truncate, max_message_chars}
use ravana.JsonSchema.Walk.{enter}

mutual
  pub data Resource : Type 0 where
    resource : (contents : Json) (subresources : Subresources) → Resource

  pub data Subresources : Type 0 where
    no_subresource : Subresources
    subresource : (first : Resource) (rest : Subresources) → Subresources

-- contents.get(keyword), when the contents are an object
abbrev in_fields : Fields → String → Option Json
in_fields no_field k = none
in_fields (field j v d) k = let rest = in_fields d k in if str_eq j k then some v else rest

abbrev pub lookup_keyword : Json → String → Option Json
lookup_keyword (object d) k = in_fields d k
lookup_keyword _ k = none

abbrev pub as_text : Option Json → Option String
as_text (some (text s)) = some s
as_text _ = none

-- `dialect.removesuffix("#") != _SUPPORTED_DIALECT`
abbrev pub is_unsupported : String → Bool
is_unsupported dialect =
    not (str_eq dialect "https://json-schema.org/draft/2020-12/schema")
    && not (str_eq dialect "https://json-schema.org/draft/2020-12/schema#")

abbrev pub is_long : String → Bool
is_long pattern = ltb max_pattern_chars (length pattern)

-- `if test: raise _SchemaPolicyError(message)`
abbrev pub policy : (test : Bool) (message : String) → Work (Unit {0})
policy test message b = (if test then stop (schema_policy_error message) else done tt, b)

-- the tests of `$schema` and of `pattern`
abbrev pub check_dialect : (repr : String → String) → Option String → Work (Unit {0})
check_dialect repr none b = (done tt, b)
check_dialect repr (some dialect) b =
    policy (is_unsupported dialect)
      (string_append "unsupported $schema dialect " (repr (truncate max_message_chars dialect))) b

abbrev pub check_pattern : Option String → Work (Unit {0})
check_pattern none b = (done tt, b)
check_pattern (some pattern) b = policy (is_long pattern) "pattern exceeds 1500 characters" b

unfoldable pub check_candidates : Python → Fields → Work (Unit {0})
unfolding consume_validation_step
check_candidates py no_field b = (done tt, b)
check_candidates py (field candidate v d) b = consume_validation_step py b then_do λ done_ c.
    policy (is_long candidate) "patternProperties key exceeds 1500 characters" c then_do λ done_.
    check_candidates py d

abbrev pub check_pattern_properties : Python → Option Json → Work (Unit {0})
check_pattern_properties py (some (object d)) b = check_candidates py d b
check_pattern_properties py _ b = (done tt, b)

abbrev pub check_contents : Python → (repr : String → String) → Json → Work (Unit {0})
check_contents py repr contents b =
    check_dialect repr (as_text (lookup_keyword contents "$schema")) b then_do λ done_ c.
    check_pattern (as_text (lookup_keyword contents "pattern")) c then_do λ done_.
    check_pattern_properties py (lookup_keyword contents "patternProperties")

-- _preflight_schema_resources
unfoldable mutual
  pub preflight_schema_resources :
      Python → (repr : String → String) → (depth : ℕ) → Resource → Work (Unit {0})
  preflight_schema_resources py repr depth (resource contents subs) b =
      enter py depth b then_do λ done_ c.
      check_contents py repr contents c then_do λ done_. preflight_all py repr (pred depth) subs

  pub preflight_all :
      Python → (repr : String → String) → (depth : ℕ) → Subresources → Work (Unit {0})
  preflight_all py repr depth no_subresource b = (done tt, b)
  preflight_all py repr depth (subresource r rs) b =
      preflight_schema_resources py repr depth r b then_do λ done_. preflight_all py repr depth rs

-- The parts of `referencing` that resolve a reference: a lookup that fails raises Unresolvable.
pub record Referencing (Resolver : Type 0) : Type 0 where
  pub with_root : Resource → Resolver
  pub in_subresource : Resolver → Resource → Resolver
  pub lookup : Resolver → String → Outcome (Unit {0})

module _ {Resolver : Type 0} (refs : Referencing Resolver) where
  abbrev pub lookup_ref : Resolver → Option String → Work (Unit {0})
  lookup_ref resolver none b = (done tt, b)
  lookup_ref resolver (some ref) b = (refs.lookup resolver ref, b)

  -- _walk_refs
  unfoldable mutual
    pub walk_refs : Python → (depth : ℕ) → Resource → Resolver → Work (Unit {0})
    walk_refs py depth (resource contents subs) resolver b = enter py depth b then_do λ done_ c.
        lookup_ref resolver (as_text (lookup_keyword contents "$ref")) c then_do λ done_ d.
        lookup_ref resolver (as_text (lookup_keyword contents "$dynamicRef")) d then_do λ done_.
        walk_all py (pred depth) subs resolver

    pub walk_all : Python → (depth : ℕ) → Subresources → Resolver → Work (Unit {0})
    walk_all py depth no_subresource resolver b = (done tt, b)
    walk_all py depth (subresource r rs) resolver b =
        walk_refs py depth r (refs.in_subresource resolver r) b then_do λ done_.
        walk_all py depth rs resolver

  -- _preflight_refs
  unfoldable pub preflight_refs : Python → Resource → Work (Unit {0})
  unfolding walk_refs
  preflight_refs py root = walk_refs py py.recursion_limit root (refs.with_root root)
