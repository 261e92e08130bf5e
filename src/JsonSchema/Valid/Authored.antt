-- ===== src/JsonSchema/Valid/Authored.antt =====
-- A schema with which nothing is found wrong: its numbers are finite, its dialect and its patterns
-- are within the policy, and all its references resolve.
use Prim.Native.Nat.{pred}
use ravana.Prelude.{ℕ, ◌≡◌, refl, String, Bool, true, false, Option, none, some}
use ravana.JsonSchema.{
  Json, null, boolean, integer, float, text, array, object, Fields, no_field, field, Outcome, stop,
  done, Budget, Python, consume_validation_step,
}
use ravana.JsonSchema.Walk.{enter}
use ravana.JsonSchema.Preflight.{
  Resource, resource, Subresources, no_subresource, subresource, lookup_keyword, as_text,
  is_unsupported, is_long, policy, check_dialect, check_pattern, check_candidates,
  check_pattern_properties, check_contents, preflight_schema_resources, preflight_all, Referencing,
  lookup_ref, walk_refs, walk_all,
}
use ravana.JsonSchema.Valid.{Ended, then_do-any, then_do-both}

-- A keyword is missing, or its text does not have a defect.
abbrev pub Without : (defect : String → Bool) → Option String → Type 0
Without defect none = Unit
Without defect (some s) = defect s ≡ false

abbrev pub ShortKeys : Fields → Type 0
ShortKeys no_field = Unit
ShortKeys (field k v d) = (is_long k ≡ false) × ShortKeys d

abbrev pub ShortPatterns : Option Json → Type 0
ShortPatterns (some (object d)) = ShortKeys d
ShortPatterns _ = Unit

-- The contents of one resource keep to the policy.
abbrev pub Policed : Json → Type 0
Policed contents =
    Without is_unsupported (as_text (lookup_keyword contents "$schema"))
    × (Without is_long (as_text (lookup_keyword contents "pattern"))
        × ShortPatterns (lookup_keyword contents "patternProperties"))

abbrev mutual
  pub AllPoliced : Resource → Type 0
  AllPoliced (resource contents subs) = Policed contents × AllPolicedBelow subs

  pub AllPolicedBelow : Subresources → Type 0
  AllPolicedBelow no_subresource = Unit
  AllPolicedBelow (subresource r rs) = AllPoliced r × AllPolicedBelow rs

policy-Ended :
    (test : Bool) (message : String) (b : Budget)
    → Ended (λ done_. test ≡ false) (policy test message b)
policy-Ended true message b = tt
policy-Ended false message b = refl

check_dialect-Without :
    (repr : String → String) (dialect : Option String) (b : Budget)
    → Ended (λ done_. Without is_unsupported dialect) (check_dialect repr dialect b)
check_dialect-Without repr none b = tt
check_dialect-Without repr (some dialect) b = policy-Ended (is_unsupported dialect) _ b

check_pattern-Without :
    (pattern : Option String) (b : Budget)
    → Ended (λ done_. Without is_long pattern) (check_pattern pattern b)
check_pattern-Without none b = tt
check_pattern-Without (some pattern) b = policy-Ended (is_long pattern) _ b

module _ (py : Python) (repr : String → String) where
  check_candidates-ShortKeys :
      (d : Fields) (b : Budget) → Ended (λ done_. ShortKeys d) (check_candidates py d b)
  unfolding check_candidates
  check_candidates-ShortKeys no_field b = tt
  check_candidates-ShortKeys (field k v d) b =
      then_do-any (λ done_. ShortKeys (field k v d)) (consume_validation_step py b) _
        (λ stepped c.
          then_do-both (is_long k ≡ false) (ShortKeys d) (policy (is_long k) _ c) _
            (policy-Ended (is_long k) _ c) (λ passed e. check_candidates-ShortKeys d e))

  check_pattern_properties-ShortPatterns :
      (patterns : Option Json) (b : Budget)
      → Ended (λ done_. ShortPatterns patterns) (check_pattern_properties py patterns b)
  check_pattern_properties-ShortPatterns none b = tt
  check_pattern_properties-ShortPatterns (some (object d)) b = check_candidates-ShortKeys d b
  check_pattern_properties-ShortPatterns (some null) b = tt
  check_pattern_properties-ShortPatterns (some (boolean x)) b = tt
  check_pattern_properties-ShortPatterns (some (integer n)) b = tt
  check_pattern_properties-ShortPatterns (some (float x)) b = tt
  check_pattern_properties-ShortPatterns (some (text s)) b = tt
  check_pattern_properties-ShortPatterns (some (array xs)) b = tt

  check_contents-Policed :
      (contents : Json) (b : Budget)
      → Ended (λ done_. Policed contents) (check_contents py repr contents b)
  check_contents-Policed contents b =
      then_do-both (Without is_unsupported dialect)
        (Without is_long pattern × ShortPatterns patterns) (check_dialect repr dialect b) _
        (check_dialect-Without repr dialect b)
        (λ done_ c.
          then_do-both (Without is_long pattern) (ShortPatterns patterns) (check_pattern pattern c)
            _ (check_pattern-Without pattern c)
            (λ passed d. check_pattern_properties-ShortPatterns patterns d))
    where
      dialect : Option String
      dialect = as_text (lookup_keyword contents "$schema")

      pattern : Option String
      pattern = as_text (lookup_keyword contents "pattern")

      patterns : Option Json
      patterns = lookup_keyword contents "patternProperties"

  mutual
    unfolding preflight_schema_resources

    pub preflight-AllPoliced :
        (depth : ℕ) (r : Resource) (b : Budget)
        → Ended (λ done_. AllPoliced r) (preflight_schema_resources py repr depth r b)
    preflight-AllPoliced depth (resource contents subs) b =
        then_do-any (λ done_. Policed contents × AllPolicedBelow subs) (enter py depth b) _
          (λ entered c.
            then_do-both (Policed contents) (AllPolicedBelow subs)
              (check_contents py repr contents c) _ (check_contents-Policed contents c)
              (λ checked d. preflight_all-AllPolicedBelow (pred depth) subs d))

    preflight_all-AllPolicedBelow :
        (depth : ℕ) (rs : Subresources) (b : Budget)
        → Ended (λ done_. AllPolicedBelow rs) (preflight_all py repr depth rs b)
    preflight_all-AllPolicedBelow depth no_subresource b = tt
    preflight_all-AllPolicedBelow depth (subresource r rs) b =
        then_do-both (AllPoliced r) (AllPolicedBelow rs)
          (preflight_schema_resources py repr depth r b) _ (preflight-AllPoliced depth r b)
          (λ done_ c. preflight_all-AllPolicedBelow depth rs c)

module _ {Resolver : Type 0} (refs : Referencing Resolver) where
  -- A keyword is missing, or its reference resolves.
  abbrev pub Resolves : Resolver → Option String → Type 0
  Resolves resolver none = Unit
  Resolves resolver (some ref) = refs.lookup resolver ref ≡ done tt

  abbrev mutual
    pub AllResolve : Resource → Resolver → Type 0
    AllResolve (resource contents subs) resolver =
        Resolves resolver (as_text (lookup_keyword contents "$ref"))
        × (Resolves resolver (as_text (lookup_keyword contents "$dynamicRef"))
            × AllResolveBelow subs resolver)

    pub AllResolveBelow : Subresources → Resolver → Type 0
    AllResolveBelow no_subresource resolver = Unit
    AllResolveBelow (subresource r rs) resolver =
        AllResolve r (refs.in_subresource resolver r) × AllResolveBelow rs resolver

  looked_up :
      (answer : Outcome (Unit {0})) (b : Budget) → Ended (λ done_. answer ≡ done tt) (answer, b)
  looked_up (stop s) b = tt
  looked_up (done tt) b = refl

  lookup_ref-Resolves :
      (resolver : Resolver) (ref : Option String) (b : Budget)
      → Ended (λ done_. Resolves resolver ref) (lookup_ref refs resolver ref b)
  lookup_ref-Resolves resolver none b = tt
  lookup_ref-Resolves resolver (some ref) b = looked_up (refs.lookup resolver ref) b

  mutual
    unfolding walk_refs

    pub walk_refs-AllResolve :
        (py : Python) (depth : ℕ) (r : Resource) (resolver : Resolver) (b : Budget)
        → Ended (λ done_. AllResolve r resolver) (walk_refs refs py depth r resolver b)
    walk_refs-AllResolve py depth (resource contents subs) resolver b =
        then_do-any (λ done_. AllResolve (resource contents subs) resolver) (enter py depth b) _
          (λ entered c.
            then_do-both (Resolves resolver (as_text (lookup_keyword contents "$ref")))
              (Resolves resolver (as_text (lookup_keyword contents "$dynamicRef"))
                × AllResolveBelow subs resolver)
              (lookup_ref refs resolver (as_text (lookup_keyword contents "$ref")) c) _
              (lookup_ref-Resolves resolver (as_text (lookup_keyword contents "$ref")) c)
              (λ found d.
                then_do-both (Resolves resolver (as_text (lookup_keyword contents "$dynamicRef")))
                  (AllResolveBelow subs resolver)
                  (lookup_ref refs resolver (as_text (lookup_keyword contents "$dynamicRef")) d) _
                  (lookup_ref-Resolves resolver (as_text (lookup_keyword contents "$dynamicRef")) d)
                  (λ also e. walk_all-AllResolveBelow py (pred depth) subs resolver e)))

    walk_all-AllResolveBelow :
        (py : Python) (depth : ℕ) (rs : Subresources) (resolver : Resolver) (b : Budget)
        → Ended (λ done_. AllResolveBelow rs resolver) (walk_all refs py depth rs resolver b)
    walk_all-AllResolveBelow py depth no_subresource resolver b = tt
    walk_all-AllResolveBelow py depth (subresource r rs) resolver b =
        then_do-both (AllResolve r (refs.in_subresource resolver r)) (AllResolveBelow rs resolver)
          (walk_refs refs py depth r (refs.in_subresource resolver r) b) _
          (walk_refs-AllResolve py depth r (refs.in_subresource resolver r) b)
          (λ done_ c. walk_all-AllResolveBelow py depth rs resolver c)
