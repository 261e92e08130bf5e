-- ===== src/Dod.antt =====
-- engine/dod.py: the definition of done, with expression criteria evaluated and prose criteria
-- left to a judge.
pub mod Gate
use ravana.Prelude.{
  ℕ, String, Bool, true, false, not, ◌&&◌, Option, none, some, List, [], ◌∷◌, map, keep, all,
  if◌then◌else◌,
}
use ravana.Exception.{Result, ok, raise, ◌>>=◌}
use ravana.Value.{State}
use ravana.Schema.{DefinitionOfDone}
use ravana.Expr.{Evaluator, eval_condition, is_boolean_expression}

pub data Kind : Type 0 where
  expression prose : Kind

-- `passed` is missing while a prose criterion has no verdict.
pub record CriterionResult : Type 0 where
  pub criterion : String
  pub kind : Kind
  pub passed : Option Bool

abbrev pub DodResult : Type 0
DodResult = List CriterionResult

abbrev pub is_prose : CriterionResult → Bool
is_prose r = elim r.kind [ expression ↦ false | prose ↦ true ]

abbrev pub not_failed : Option Bool → Bool
not_failed none = true
not_failed (some passed) = passed

abbrev pub is_failed : Option Bool → Bool
is_failed none = false
is_failed (some passed) = not passed

abbrev pub is_unevaluated : Option Bool → Bool
is_unevaluated none = true
is_unevaluated (some passed) = false

unfoldable pub met : DodResult → Bool
met results = all (λ r. not_failed r.passed) results

unfoldable pub unmet : DodResult → List String
unmet results = map (λ r. r.criterion) (keep (λ r. is_failed r.passed) results)

unfoldable pub unevaluated : DodResult → List String
unevaluated results = map (λ r. r.criterion) (keep (λ r. is_unevaluated r.passed) results)

unfoldable pub prose_criteria : DodResult → List String
prose_criteria results = map (λ r. r.criterion) (keep is_prose results)

-- A verdict of the judge: `true`, or anything else.
pub data Verdict : Type 0 where
  approved other : Verdict

abbrev pub is_true : Verdict → Bool
is_true approved = true
is_true other = false

abbrev pub next_verdict : List Verdict → Bool
next_verdict [] = false
next_verdict (v ∷ vs) = is_true v

abbrev pub later : List Verdict → List Verdict
later [] = []
later (v ∷ vs) = vs

-- The i-th prose result takes the i-th verdict; a missing one counts as not met.
unfoldable pub apply_prose_verdict : List Verdict → DodResult → DodResult
apply_prose_verdict verdicts [] = []
apply_prose_verdict verdicts (r ∷ results) =
    let judged = record r {
      passed = if is_prose r then some (next_verdict verdicts) else r.passed;
    } in
    judged ∷ apply_prose_verdict (if is_prose r then later verdicts else verdicts) results

-- as_dict
pub record Summary : Type 0 where
  pub met : Bool
  pub results : DodResult
  pub unmet : List String
  pub unevaluated : List String

unfoldable pub as_dict : DodResult → Summary
as_dict results = record {
  met = met results;
  results = results;
  unmet = unmet results;
  unevaluated = unevaluated results;
}

abbrev or_false : Result Bool → Bool
or_false (ok b) = b
or_false (raise e) = false

module _ (e : Evaluator) where
  -- _evaluate_expression: a criterion that raises is not met
  abbrev pub evaluate_expression : String → State → Bool
  evaluate_expression criterion state = or_false (eval_condition e criterion state)

  abbrev pub criterion_result : State → String → Bool → CriterionResult
  criterion_result state criterion true = record {
    criterion = criterion;
    kind = expression;
    passed = some (evaluate_expression criterion state);
  }
  criterion_result state criterion false = record {
    criterion = criterion;
    kind = prose;
    passed = none;
  }

  -- An exception of the parser that is no SyntaxError leaves the loop over the criteria.
  unfoldable pub evaluate_criteria : State → List String → Result DodResult
  evaluate_criteria state [] = ok []
  evaluate_criteria state (criterion ∷ criteria) = do
    is_expression ← is_boolean_expression e criterion
    rest ← evaluate_criteria state criteria
    ok (criterion_result state criterion is_expression ∷ rest)

  unfoldable pub evaluate_dod : DefinitionOfDone → State → Result DodResult
  evaluate_dod dod state = evaluate_criteria state dod.criteria
