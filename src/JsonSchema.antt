-- ===== src/JsonSchema.antt =====
-- runtime/schema_validate.py: what is validated, the budget of one validation, and the exceptions
-- inside it. The child modules have its walk over a payload, its checks of a schema, its bounded
-- texts and `validate_json`. The clock and the regular expressions are parameters.
pub mod Texts
pub mod Walk
pub mod Preflight
pub mod Keywords
pub mod Validate
pub mod Bounded
pub mod Valid
use ravana.Prelude.{
  ℕ, zero, suc, ◌+◌, ◌-◌, min, String, Bool, Option, none, some, List, leb, if◌then◌else◌,
}
use ravana.Prelude.Int.{ℤ}

-- A Python float: a fraction, or one of the three values that JSON does not have.
pub data Float : Type 0 where
  fraction : (numerator : ℤ) (denominator : ℕ) → Float
  nan infinity negative_infinity : Float

mutual
  pub data Json : Type 0 where
    null : Json
    boolean : Bool → Json
    integer : ℤ → Json
    float : Float → Json
    text : String → Json
    array : Items → Json
    object : Fields → Json

  pub data Items : Type 0 where
    no_item : Items
    item : (first : Json) (rest : Items) → Items

  pub data Fields : Type 0 where
    no_field : Fields
    field : (key : String) (value : Json) (rest : Fields) → Fields

-- The exceptions: the module's own, those of `jsonschema` and `referencing` that it handles, with
-- the text that it shows of them, Python's RecursionError, and any other by its class.
pub data Stop : Type 0 where
  regex_budget_exceeded validation_budget_exceeded recursion_error : Stop
  schema_policy_error schema_error unresolvable : (message : String) → Stop
  unknown_type : (shown : String) → Stop
  another : (class_name : String) → Stop

pub data Outcome {ℓ} (A : Type ℓ) : Type ℓ where
  stop : Stop → Outcome A
  done : A → Outcome A

-- _ValidationBudget, times as natural numbers, which stop at 0 where the source's go below: every
-- test of it is the same for both. `reads` counts the readings of the clock.
pub record Budget : Type 0 where
  pub deadline : ℕ
  pub regex_remaining : ℕ
  pub steps_remaining : ℕ
  pub reads : ℕ

abbrev pub Work {ℓ} : Type ℓ → Type ℓ
Work A = Budget → Outcome A × Budget

infixl 5 ◌then_do◌
abbrev pub ◌then_do◌ {ℓ κ} :
    {A : Type ℓ} {B : Type κ} → Outcome A × Budget → (A → Work B) → Outcome B × Budget
(stop s, b) then_do next = (stop s, b)
(done a, b) then_do next = next a b

-- The clock by the number of its reading, the alternate engine's `regex.search` within a time, with
-- `none` for its TimeoutError, and the depth of Python's stack.
pub record Python : Type 0 where
  pub monotonic : ℕ → ℕ
  pub search : (pattern value : String) (timeout reading : ℕ) → Option Bool
  pub recursion_limit : ℕ

-- _MAX_VALIDATION_STEPS, and _VALIDATION_BUDGET_SECONDS and _REGEX_BUDGET_SECONDS in milliseconds
abbrev pub max_validation_steps : ℕ
max_validation_steps = 10000

abbrev pub validation_budget : ℕ
validation_budget = 500

abbrev pub regex_budget : ℕ
regex_budget = 100

abbrev pub read_clock : Budget → Budget
read_clock b = record {
  deadline = b.deadline;
  regex_remaining = b.regex_remaining;
  steps_remaining = b.steps_remaining;
  reads = suc b.reads;
}

-- _validation_budget, on entry
unfoldable pub fresh_budget : Python → ℕ → Budget
fresh_budget py reads = record {
  deadline = py.monotonic reads + validation_budget;
  regex_remaining = regex_budget;
  steps_remaining = max_validation_steps;
  reads = suc reads;
}

abbrev take_step : ℕ → Work (Unit {0})
take_step zero b = (stop validation_budget_exceeded, b)
take_step (suc left) b = (
  done tt,
  record {
    deadline = b.deadline;
    regex_remaining = b.regex_remaining;
    steps_remaining = left;
    reads = b.reads;
  },
)

-- _consume_validation_step, within a validation
unfoldable pub consume_validation_step : Python → Work (Unit {0})
consume_validation_step py b =
    if leb b.deadline (py.monotonic b.reads)
    then (stop validation_budget_exceeded, read_clock b)
    else take_step b.steps_remaining (read_clock b)

abbrev spend_regex : Python → ℕ → Budget → Budget
spend_regex py started b = record {
  deadline = b.deadline;
  regex_remaining = b.regex_remaining - (py.monotonic b.reads - started);
  steps_remaining = b.steps_remaining;
  reads = suc b.reads;
}

abbrev search_answer : (limited_by_regex : Bool) → Option Bool → Outcome Bool
search_answer limited_by_regex (some found) = done found
search_answer limited_by_regex none =
    stop (if limited_by_regex then regex_budget_exceeded else validation_budget_exceeded)

abbrev run_search : Python → String → String → (overall : ℕ) → Work Bool
run_search py pattern value overall b = (
  search_answer (leb b.regex_remaining overall)
      (py.search pattern value (min overall b.regex_remaining) b.reads),
  spend_regex py (py.monotonic b.reads) (read_clock b),
)

abbrev search_within : Python → String → String → (overall regex_left : ℕ) → Work Bool
search_within py pattern value zero regex_left b = (stop validation_budget_exceeded, b)
search_within py pattern value (suc overall) zero b = (stop regex_budget_exceeded, b)
search_within py pattern value (suc overall) (suc regex_left) b =
    run_search py pattern value (suc overall) b

-- _regex_matches
unfoldable pub regex_matches : Python → String → String → Work Bool
unfolding consume_validation_step
regex_matches py pattern value b = consume_validation_step py b then_do λ done_ c.
    search_within py pattern value (c.deadline - py.monotonic c.reads) c.regex_remaining
      (read_clock c)
