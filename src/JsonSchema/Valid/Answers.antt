-- ===== src/JsonSchema/Valid/Answers.antt =====
-- `validate_json` as a whole: what its answer says.
use ravana.Prelude.{
  ℕ, ◌≤◌, ◌≡◌, refl, Bool, true, false, String, Option, none, some, List, [], ◌∷◌, arith, ap, ◌∙◌,
  if◌then◌else◌,
}
use ravana.Text.{length}
use ravana.JsonSchema.{
  Json, regex_budget_exceeded, validation_budget_exceeded, recursion_error, schema_policy_error,
  schema_error, unresolvable, unknown_type, another, Outcome, stop, done, Work, Budget, Python,
  ◌then_do◌, fresh_budget,
}
use ravana.JsonSchema.Texts.{max_diagnostic_chars}
use ravana.JsonSchema.Bounded.{length-truncate}
use ravana.JsonSchema.Walk.{first_nonfinite_path}
use ravana.JsonSchema.Preflight.{Resource, preflight_schema_resources, preflight_refs}
use ravana.JsonSchema.Validate.{
  ValidationError, Library, max_collected_errors, report, returning, is_object, schema_answer,
  plain_answer, payload_answer, final_answer, unless_answered, schema_checks, check_authored,
  validate_schema, check_plain, check_payload, validate, bounded, validate_json,
}
use ravana.JsonSchema.Valid.{Ended, then_do-Ended, Silent, Ended-Silent}
use ravana.JsonSchema.Valid.Finite.{IsFinite, first_nonfinite-IsFinite}
use ravana.JsonSchema.Valid.Authored.{
  AllPoliced, AllResolve, preflight-AllPoliced, walk_refs-AllResolve,
}

first_nonfinite_path-IsFinite :
    (py : Python) (v : Json) (b : Budget)
    → Ended (Silent (IsFinite v)) (first_nonfinite_path py v b)
unfolding first_nonfinite_path
first_nonfinite_path-IsFinite py v b = first_nonfinite-IsFinite py py.recursion_limit v String.[] b

-- What holds when no exception is raised and nothing is reported.
abbrev Clean : Type 0 → Outcome (Option String) → Type 0
Clean P (stop s) = Unit
Clean P (done found) = Silent P found

known {ℓ} : {A : Type ℓ} (out : Outcome A × Budget) → Ended (λ a. out.0 ≡ done a) out
known (stop s, b) = tt
known (done a, b) = refl

Ended-mono {ℓ κ μ} :
    {A : Type ℓ} (P : A → Type κ) (R : A → Type μ) (out : Outcome A × Budget)
    → ((a : A) → P a → R a)
    → Ended P out
    → Ended R out
Ended-mono P R (stop s, b) weaken h = tt
Ended-mono P R (done a, b) weaken h = weaken a h

Silent-mono {ℓ κ} :
    (P : Type ℓ) (R : Type κ) → (P → R) → (found : Option String) → Silent P found → Silent R found
Silent-mono P R weaken none h = weaken h
Silent-mono P R weaken (some message) h = tt

then_do-Silent :
    {A : Type 0} (P R : Type 0) (first : Outcome A × Budget) (next : A → Work (Option String))
    → Ended (λ _. P) first
    → ((a : A) (c : Budget) → Ended (Silent R) (next a c))
    → Ended (Silent (P × R)) (first then_do next)
then_do-Silent P R (stop s, b) next h rest = tt
then_do-Silent P R (done a, b) next h rest = Ended-Silent P R (next a b) h (rest a b)

test-Silent : (b : Bool) (message : String) → Silent (b ≡ true) (if b then none else some message)
test-Silent true message = refl
test-Silent false message = tt

report-Silent :
    (P : Type 0) (errors : List ValidationError) → (errors ≡ [] → P) → Silent P (report errors)
unfolding report
report-Silent P [] h = h refl
report-Silent P (x ∷ xs) h = tt

-- The handlers turn no exception into silence.
schema_answer-Clean :
    (P : Type 0) (out : Outcome (Option String) × Budget)
    → Ended (Silent P) out
    → Clean P (schema_answer out.0)
schema_answer-Clean P (done found, b) h = h
schema_answer-Clean P (stop (schema_error message), b) h = tt
schema_answer-Clean P (stop (unresolvable shown), b) h = tt
schema_answer-Clean P (stop regex_budget_exceeded, b) h = tt
schema_answer-Clean P (stop validation_budget_exceeded, b) h = tt
schema_answer-Clean P (stop (schema_policy_error message), b) h = tt
schema_answer-Clean P (stop recursion_error, b) h = tt
schema_answer-Clean P (stop (unknown_type shown), b) h = tt
schema_answer-Clean P (stop (another name), b) h = tt

plain_answer-Clean :
    (P : Type 0) (out : Outcome (Option String) × Budget)
    → Ended (Silent P) out
    → Clean P (plain_answer out.0)
plain_answer-Clean P (done found, b) h = h
plain_answer-Clean P (stop (schema_error message), b) h = tt
plain_answer-Clean P (stop (unresolvable shown), b) h = tt
plain_answer-Clean P (stop regex_budget_exceeded, b) h = tt
plain_answer-Clean P (stop validation_budget_exceeded, b) h = tt
plain_answer-Clean P (stop (schema_policy_error message), b) h = tt
plain_answer-Clean P (stop recursion_error, b) h = tt
plain_answer-Clean P (stop (unknown_type shown), b) h = tt
plain_answer-Clean P (stop (another name), b) h = tt

payload_answer-Clean :
    (P : Type 0) (repr : String → String) (out : Outcome (Option String) × Budget)
    → Ended (Silent P) out
    → Clean P (payload_answer repr out.0)
payload_answer-Clean P repr (done found, b) h = h
payload_answer-Clean P repr (stop (schema_error message), b) h = tt
payload_answer-Clean P repr (stop (unresolvable shown), b) h = tt
payload_answer-Clean P repr (stop regex_budget_exceeded, b) h = tt
payload_answer-Clean P repr (stop validation_budget_exceeded, b) h = tt
payload_answer-Clean P repr (stop (schema_policy_error message), b) h = tt
payload_answer-Clean P repr (stop recursion_error, b) h = tt
payload_answer-Clean P repr (stop (unknown_type shown), b) h = tt
payload_answer-Clean P repr (stop (another name), b) h = tt

Clean-pair : (P R : Type 0) (out : Outcome (Option String)) → P → Clean R out → Clean (P × R) out
Clean-pair P R (stop s) p r = tt
Clean-pair P R (done none) p r = (p, r)
Clean-pair P R (done (some message)) p r = tt

unless_answered-Clean :
    (P R : Type 0) (first : Outcome (Option String) × ℕ) (next : ℕ → Outcome (Option String))
    → Clean P first.0
    → ((later : ℕ) → Clean R (next later))
    → Clean (P × R) (unless_answered first next)
unless_answered-Clean P R (stop s, later) next h rest = tt
unless_answered-Clean P R (done (some message), later) next h rest = tt
unless_answered-Clean P R (done none, later) next h rest =
    Clean-pair P R (next later) h (rest later)

module _ {Resolver : Type 0} (py : Python) (lib : Library Resolver) where
  -- The validator finds no error in the payload.
  abbrev pub Accepts : Json → Json → Type 0
  Accepts schema payload =
      (b : Budget) × ((lib.iter_errors schema payload max_collected_errors b).0 ≡ done [])

  -- The schema's numbers are finite, its resources keep to the policy, their references resolve, and
  -- it satisfies the schema of schemas.
  abbrev pub IsAuthored : Json → Type 0
  IsAuthored schema =
      IsFinite schema
      × ((root : Resource) × ((lib.from_contents schema ≡ done root)
            × (AllPoliced root
                × (((b : Budget) × ((lib.check_schema schema b).0 ≡ done tt))
                    × AllResolve lib.referencing root (lib.referencing.with_root root)))))

  abbrev pub IsValid : Json → Option Json → Type 0
  IsValid payload none = IsFinite payload × (is_object payload ≡ true)
  IsValid payload (some schema) = IsAuthored schema × (IsFinite payload × Accepts schema payload)

  -- The answer of a validation: the payload is valid, or a message of bounded length.
  abbrev pub Answers : Json → Option Json → Option String → Type 0
  Answers payload schema none = IsValid payload schema
  Answers payload schema (some message) = length message ≤ max_diagnostic_chars

  returning-Silent :
      (P R : Type 0) (found : Option String) (message : String → String)
      (rest : Work (Option String)) (c : Budget)
      → Silent P found
      → Ended (Silent R) (rest c)
      → Ended (Silent (P × R)) (returning py lib found message rest c)
  returning-Silent P R (some path) message rest c h after = tt
  returning-Silent P R none message rest c h after = Ended-Silent P R (rest c) h after

  check_plain-IsValid :
      (payload : Json) (b : Budget)
      → Ended (Silent (IsValid payload none)) (check_plain py lib payload b)
  unfolding check_plain
  check_plain-IsValid payload b =
      then_do-Ended (Silent (IsFinite payload)) (Silent (IsValid payload none))
        (first_nonfinite_path py payload b) _ (first_nonfinite_path-IsFinite py payload b)
        (λ found c finite.
          returning-Silent (IsFinite payload) (is_object payload ≡ true) found _ _ c finite
            (test-Silent (is_object payload) "expected a JSON object"))

  check_payload-IsValid :
      (payload schema : Json) (b : Budget)
      → Ended
          (Silent (IsFinite payload × Accepts schema payload))
          (check_payload py lib payload schema b)
  unfolding check_payload
  check_payload-IsValid payload schema b =
      then_do-Ended (Silent (IsFinite payload)) (Silent (IsFinite payload × Accepts schema payload))
        (first_nonfinite_path py payload b) _ (first_nonfinite_path-IsFinite py payload b)
        (λ found c finite.
          returning-Silent (IsFinite payload) (Accepts schema payload) found _ _ c finite (
            then_do-Ended
              (λ errors. (lib.iter_errors schema payload max_collected_errors c).0 ≡ done errors)
              (Silent (Accepts schema payload))
              (lib.iter_errors schema payload max_collected_errors c) _
              (known (lib.iter_errors schema payload max_collected_errors c))
              (λ errors d found_these.
                report-Silent (Accepts schema payload) errors
                  (λ no_error. (c, found_these ∙ ap done no_error)))))

  abbrev Checked : Json → Type 0
  Checked schema = (b : Budget) × ((lib.check_schema schema b).0 ≡ done tt)

  abbrev Refs : Resource → Type 0
  Refs root = AllResolve lib.referencing root (lib.referencing.with_root root)

  schema_checks-Silent :
      (schema : Json) (root : Resource) (b : Budget)
      → Ended
          (Silent (AllPoliced root × (Checked schema × Refs root)))
          (schema_checks py lib schema root b)
  unfolding preflight_refs
  schema_checks-Silent schema root b =
      then_do-Silent (AllPoliced root) (Checked schema × Refs root)
        (preflight_schema_resources py lib.repr py.recursion_limit root b) _
        (preflight-AllPoliced py lib.repr py.recursion_limit root b)
        (λ policed c.
          then_do-Silent (Checked schema) (Refs root) (lib.check_schema schema c) _
            (Ended-mono _ (λ done_. Checked schema) (lib.check_schema schema c)
              (λ done_ is. (c, is)) (known (lib.check_schema schema c)))
            (λ checked d.
              then_do-Ended (λ done_. Refs root) (Silent (Refs root))
                (preflight_refs lib.referencing py root d) _
                (walk_refs-AllResolve lib.referencing py py.recursion_limit root
                  (lib.referencing.with_root root) d)
                (λ done_ e resolve. resolve)))

  abbrev Rooted : Json → Type 0
  Rooted schema =
      (root : Resource) × ((lib.from_contents schema ≡ done root)
        × (AllPoliced root × (Checked schema × Refs root)))

  check_authored-IsAuthored :
      (schema : Json) (b : Budget)
      → Ended (Silent (IsAuthored schema)) (check_authored py lib schema b)
  unfolding check_authored
  check_authored-IsAuthored schema b =
      then_do-Ended (Silent (IsFinite schema)) (Silent (IsAuthored schema))
        (first_nonfinite_path py schema b) _ (first_nonfinite_path-IsFinite py schema b)
        (λ found c finite. returning-Silent (IsFinite schema) (Rooted schema) found _ _ c finite (
          then_do-Ended (λ root. lib.from_contents schema ≡ done root) (Silent (Rooted schema))
            (lib.from_contents schema, c) _ (known (lib.from_contents schema, c))
            (λ root d is.
              Ended-mono (Silent (AllPoliced root × (Checked schema × Refs root)))
                (Silent (Rooted schema)) (schema_checks py lib schema root d)
                (Silent-mono _ _ (λ checks. (root, (is, checks))))
                (schema_checks-Silent schema root d))))

  validate-IsValid :
      (payload : Json) (schema : Option Json) (reads : ℕ)
      → Clean (IsValid payload schema) (validate py lib payload schema reads)
  unfolding validate validate_schema
  validate-IsValid payload none reads =
      plain_answer-Clean (IsValid payload none) (check_plain py lib payload (fresh_budget py reads))
        (check_plain-IsValid payload (fresh_budget py reads))
  validate-IsValid payload (some schema) reads =
      unless_answered-Clean (IsAuthored schema) (IsFinite payload × Accepts schema payload)
        (validate_schema py lib schema reads) _
        (schema_answer-Clean (IsAuthored schema)
          (check_authored py lib schema (fresh_budget py reads))
          (check_authored-IsAuthored schema (fresh_budget py reads)))
        (λ later.
          payload_answer-Clean (IsFinite payload × Accepts schema payload) lib.repr
            (check_payload py lib payload schema (fresh_budget py later))
            (check_payload-IsValid payload schema (fresh_budget py later)))

  bounded-Answers :
      (payload : Json) (schema : Option Json) (answer : Outcome (Option String))
      → Clean (IsValid payload schema) answer
      → Answers payload schema (bounded py lib (final_answer answer))
  unfolding length
  bounded-Answers payload schema (stop s) h = length-truncate max_diagnostic_chars _ (omega arith)
  bounded-Answers payload schema (done none) h = h
  bounded-Answers payload schema (done (some message)) h =
      length-truncate max_diagnostic_chars message (omega arith)

  -- Whatever the clock, the stack and the libraries do, `validate_json` answers. Without a message,
  -- the payload has no number that is NaN or infinite, and it is an object when there is no schema;
  -- with a schema, the validator found no error in it, and the schema has no such number either,
  -- satisfies the schema of schemas, keeps to the supported dialect and to the length of patterns in
  -- each of its resources, and has all its references resolved. A message has at most 1,500
  -- characters.
  pub validate_json-Answers :
      (payload : Json) (schema : Option Json) (reads : ℕ)
      → Answers payload schema (validate_json py lib payload schema reads)
  unfolding validate_json
  validate_json-Answers payload schema reads =
      bounded-Answers payload schema (validate py lib payload schema reads)
        (validate-IsValid payload schema reads)
