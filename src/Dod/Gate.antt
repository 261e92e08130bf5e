-- ===== src/Dod/Gate.antt =====
-- When a definition of done is met.
use ravana.Prelude.{
  sym, subst, String, ◌≡◌, ◌↔◌, refl, Bool, true, false, ◌&&◌, List, [], ◌∷◌, arith, ℕ, zero, suc,
  Option, none, some, ap,
}
use ravana.Exception.{Result, raise, ok, >>=-eq-ok}
use ravana.Value.{State}
use ravana.Schema.{DefinitionOfDone}
use ravana.Expr.{Evaluator, eval_condition, is_boolean_expression}
use ravana.Dod.{
  DodResult, not_failed, met, unmet, Verdict, approved, other, next_verdict, later,
  apply_prose_verdict, evaluate_expression, criterion_result, evaluate_criteria, evaluate_dod,
}

and_true : {a b : Bool} → ((a && b) ≡ true) ↔ ((a ≡ true) × (b ≡ true))
and_true = (λ h. (ground arith, ground arith), λ h. ground arith)

ok-injective {ℓ} : {A : Type ℓ} {a b : A} → ◌≡◌ {A = Result A} (ok a) (ok b) → a ≡ b
ok-injective h = cc

-- the verdict at an index, if the judge gave that many
abbrev pub verdict_at : List Verdict → ℕ → Option Verdict
verdict_at [] i = none
verdict_at (v ∷ vs) zero = some v
verdict_at (v ∷ vs) (suc i) = verdict_at vs i

-- what is left of the verdicts after `i` prose criteria
abbrev left_after : ℕ → List Verdict → List Verdict
left_after zero verdicts = verdicts
left_after (suc i) verdicts = later (left_after i verdicts)

left_after-later :
    (i : ℕ) (verdicts : List Verdict)
    → left_after i (later verdicts) ≡ later (left_after i verdicts)
left_after-later zero verdicts = refl
left_after-later (suc i) verdicts = ap later (left_after-later i verdicts)

left_after-nil : (i : ℕ) → left_after i [] ≡ []
left_after-nil zero = refl
left_after-nil (suc i) = ap later (left_after-nil i)

next_approved :
    (verdicts : List Verdict)
    → (next_verdict verdicts ≡ true) ↔ (verdict_at verdicts 0 ≡ some approved)
next_approved [] = (λ h. cc, λ h. cc)
next_approved (approved ∷ vs) = (λ h. refl, λ h. refl)
next_approved (other ∷ vs) = (λ h. cc, λ h. cc)

-- The next verdict after `i` prose criteria is the one at index i.
next_verdict-left_after :
    (i : ℕ) (verdicts : List Verdict)
    → (next_verdict (left_after i verdicts) ≡ true) ↔ (verdict_at verdicts i ≡ some approved)
next_verdict-left_after zero verdicts = next_approved verdicts
next_verdict-left_after (suc i) [] = rw (left_after-nil i) (λ h. cc, λ h. cc)
next_verdict-left_after (suc i) (v ∷ vs) =
    rw (← left_after-later i (v ∷ vs)) (next_verdict-left_after i vs)

-- What holds of an expression, or of prose; a text that the parser raises on is neither.
abbrev pub ByKind : Result Bool → Type 0 → Type 0 → Type 0
ByKind (raise x) on_expression on_prose = false ≡ true
ByKind (ok true) on_expression on_prose = on_expression
ByKind (ok false) on_expression on_prose = on_prose

module _ (e : Evaluator) (state : State) where
  -- Every criterion that is an expression holds. Every other one has the verdict `true` at its
  -- place among the prose criteria, of which there are `i` before these criteria.
  abbrev pub Proven : List Verdict → ℕ → List String → Type 0
  Proven verdicts i [] = Unit
  Proven verdicts i (c ∷ cs) =
      ByKind (is_boolean_expression e c)
        ((eval_condition e c state ≡ ok true) × Proven verdicts i cs)
        ((verdict_at verdicts i ≡ some approved) × Proven verdicts (suc i) cs)

  criterion_holds :
      (c : String) → (evaluate_expression e c state ≡ true) ↔ (eval_condition e c state ≡ ok true)
  criterion_holds c = (λ h. ground arith, λ h. ground arith)

  -- `met` after the verdicts from the i-th on.
  abbrev MetFrom : List Verdict → ℕ → DodResult → Type 0
  MetFrom verdicts i results = met (apply_prose_verdict (left_after i verdicts) results) ≡ true

  first-Proven :
      (verdicts : List Verdict) (i : ℕ) (c : String) (cs : List String) (is_expression : Bool)
      → (results : DodResult) → is_boolean_expression e c ≡ ok is_expression
      → ((j : ℕ) → MetFrom verdicts j results ↔ Proven verdicts j cs)
      → MetFrom verdicts i (criterion_result e state c is_expression ∷ results)
        ↔ Proven verdicts i (c ∷ cs)
  unfolding met apply_prose_verdict
  first-Proven verdicts i c cs true results is rest =
      subst
        (λ kind.
          MetFrom verdicts i (criterion_result e state c true ∷ results)
          ↔ ByKind kind ((eval_condition e c state ≡ ok true) × Proven verdicts i cs)
              ((verdict_at verdicts i ≡ some approved) × Proven verdicts (suc i) cs))
        (sym is)
        (
          λ h. let both = and_true.0 h in ((criterion_holds c).0 both.0, (rest i).0 both.1),
          λ p. and_true.1 ((criterion_holds c).1 p.0, (rest i).1 p.1),
        )
  first-Proven verdicts i c cs false results is rest =
      let first = next_verdict-left_after i verdicts in
      subst
        (λ kind.
          MetFrom verdicts i (criterion_result e state c false ∷ results)
          ↔ ByKind kind ((eval_condition e c state ≡ ok true) × Proven verdicts i cs)
              ((verdict_at verdicts i ≡ some approved) × Proven verdicts (suc i) cs))
        (sym is)
        (
          λ h. let both = and_true.0 h in (first.0 both.0, (rest (suc i)).0 both.1),
          λ p. and_true.1 (first.1 p.0, (rest (suc i)).1 p.1),
        )

  evaluated-Proven :
      (verdicts : List Verdict) (cs : List String) {results : DodResult}
      → evaluate_criteria e state cs ≡ ok results
      → (i : ℕ) → MetFrom verdicts i results ↔ Proven verdicts i cs
  unfolding evaluate_criteria met apply_prose_verdict
  evaluated-Proven verdicts [] {results} h i =
      subst (λ r. MetFrom verdicts i r ↔ Unit) (ok-injective h) (λ _. tt, λ _. refl)
  evaluated-Proven verdicts (c ∷ cs) {results} h i =
      let (is_expression, is, more) = >>=-eq-ok (is_boolean_expression e c) _ h in
      let (rest, eq, last) = >>=-eq-ok (evaluate_criteria e state cs) _ more in
      subst (λ r. MetFrom verdicts i r ↔ Proven verdicts i (c ∷ cs)) (ok-injective last)
        (first-Proven verdicts i c cs is_expression rest is
          (λ j. evaluated-Proven verdicts cs eq j))

  -- When a definition of done is evaluated without an exception, it is met after the verdicts are
  -- applied exactly when every criterion that is an expression evaluates to true, and for every i
  -- the prose criterion after i others has the verdict `true` at index i of the list: an error, a
  -- missing verdict or another one fails it.
  pub met-apply_prose_verdict :
      (dod : DefinitionOfDone) (verdicts : List Verdict) (results : DodResult)
      → evaluate_dod e dod state ≡ ok results
      → (met (apply_prose_verdict verdicts results) ≡ true) ↔ Proven verdicts 0 dod.criteria
  unfolding evaluate_dod
  met-apply_prose_verdict dod verdicts results h = evaluated-Proven verdicts dod.criteria h 0

met_no_unmet : (results : DodResult) → met results ≡ true → unmet results ≡ []
unfolding met unmet
met_no_unmet [] h = refl
met_no_unmet (r ∷ results) h =
    ground (arith, met_no_unmet results ((and_true {a = not_failed r.passed}).0 h).1)

no_unmet_met : (results : DodResult) → unmet results ≡ [] → met results ≡ true
unfolding met unmet
no_unmet_met [] h = refl
no_unmet_met (r ∷ results) h = ground (arith, no_unmet_met results)

-- A result is met exactly when no criterion is reported unmet.
pub met-unmet : (results : DodResult) → (met results ≡ true) ↔ (unmet results ≡ [])
met-unmet results = (met_no_unmet results, no_unmet_met results)
