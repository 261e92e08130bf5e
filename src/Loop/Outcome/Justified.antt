-- ===== src/Loop/Outcome/Justified.antt =====
-- `_decide_dod`: the decision and the event that it comes with.
use ravana.Prelude.{
  String, ◌≡◌, refl, true, ◌⊎◌, Option, none, some, List, [], ◌∷◌, inl, inr, Bool-cases,
}
use ravana.Exception.{Result, ok, raise}
use ravana.Value.{State}
use ravana.Schema.{DefinitionOfDone}
use ravana.Usage.{LlmUsage, llm_usage}
use ravana.Dod.{
  DodResult, Verdict, Summary, apply_prose_verdict, evaluate_dod, prose_criteria, as_dict,
}
use ravana.Dod
use ravana.Store.{RunStatus, DodOutcome}
use ravana.Loop.{Ctx, Env, JudgeOutcome, judgement, judge_failed, judge_raised}
use ravana.Loop.Invariant.Routes.{if_rule}
use ravana.Loop.Finalize.{
  Decision, DodEvent, decide, decide_met, with_judge, ask_judge, after_evaluation, decide_for,
  judged, failed_judgement, decide_dod, exceeds,
}

-- An event that says that the definition of done is met: every result in its summary held or was
-- left to no judge.
pub record ReportsMet (e : DodEvent) : Type 0 where
  pub outcome : e.state_diff.outcome ≡ DodOutcome.met
  pub result : e.result ≡ true
  pub summary_met : e.state_diff.summary.met ≡ true

abbrev pub JustifiedBy : Option DodEvent → Option DefinitionOfDone → Type 0
JustifiedBy event none = event ≡ none
JustifiedBy event (some dod) = (e : DodEvent) × (event ≡ some e) × ReportsMet e

-- A decision fails the run, or completes it with its reason.
abbrev pub IsSound : Option DefinitionOfDone → Decision → Type 0
IsSound dod d =
    (d.status ≡ RunStatus.failed) ⊎ ((d.status ≡ RunStatus.completed) × JustifiedBy d.event dod)

module _ (c : Ctx) (dod : DefinitionOfDone) (result : DodResult) where
  decide-failed :
      (r : DodResult) (o : DodOutcome) (usage : Option LlmUsage)
      → IsSound (some dod) (decide dod r o RunStatus.failed usage)
  unfolding decide
  decide-failed r o usage = inl refl

  decide-met :
      (r : DodResult) (usage : Option LlmUsage)
      → Dod.met r ≡ true
      → IsSound (some dod) (decide dod r DodOutcome.met RunStatus.completed usage)
  unfolding decide as_dict
  decide-met r usage good =
      inr (refl, (_, refl, record { outcome = refl; result = refl; summary_met = good }))

  decide_met-IsSound :
      (r : DodResult) (usage : Option LlmUsage) → IsSound (some dod) (decide_met dod r usage)
  decide_met-IsSound r usage = elim (Bool-cases (Dod.met r)) [
    | inl good ↦ rw good (decide-met r usage good)
    | inr bad ↦ rw bad (decide-failed r DodOutcome.criteria_unmet usage)
  ]

  judged-IsSound :
      (verdicts : List Verdict) (u : Result LlmUsage)
      → IsSound (some dod) (judged c dod result verdicts u)
  judged-IsSound verdicts (raise e) = inl refl
  judged-IsSound verdicts (ok u) =
      if_rule (IsSound (some dod)) (exceeds c dod result u) (decide-failed _ _ _)
        (decide_met-IsSound (apply_prose_verdict verdicts result) (some u))

  failed_judgement-IsSound :
      (u : Result LlmUsage) → IsSound (some dod) (failed_judgement c dod result u)
  failed_judgement-IsSound (raise e) = decide-failed _ _ _
  failed_judgement-IsSound (ok u) = decide-failed _ _ _

  with_judge-IsSound : (o : JudgeOutcome) → IsSound (some dod) (with_judge c dod result o)
  with_judge-IsSound (judgement verdicts i o) = judged-IsSound verdicts (llm_usage i o)
  with_judge-IsSound (judge_failed i o) = failed_judgement-IsSound (llm_usage i o)
  with_judge-IsSound judge_raised = inl refl

  ask_judge-IsSound :
      (judge : Option (String → List String → State → JudgeOutcome)) (ps : List String)
      → IsSound (some dod) (ask_judge c dod result judge ps)
  ask_judge-IsSound (some judge) (p ∷ ps) =
      with_judge-IsSound (judge dod.evaluated_by (p ∷ ps) c.con.db.run.shared_state)
  ask_judge-IsSound (some judge) [] = decide_met-IsSound result none
  ask_judge-IsSound none ps = decide_met-IsSound result none

after_evaluation-IsSound :
    (env : Env) (c : Ctx) (dod : DefinitionOfDone) (results : Result DodResult)
    → IsSound (some dod) (after_evaluation env c dod results)
after_evaluation-IsSound env c dod (raise e) = inl refl
after_evaluation-IsSound env c dod (ok result) =
    ask_judge-IsSound c dod result env.judge (prose_criteria result)

decide_for-IsSound :
    (env : Env) (c : Ctx) (dod : Option DefinitionOfDone) → IsSound dod (decide_for env c dod)
decide_for-IsSound env c none = inr (refl, refl)
decide_for-IsSound env c (some dod) =
    after_evaluation-IsSound env c dod (evaluate_dod env.evaluator dod c.con.db.run.shared_state)

-- Whatever the judge answers, the run is decided as failed, or as completed: then there is either
-- no definition of done and no event, or an event with the outcome `met`, the result true and a
-- summary that is met.
pub decide_dod-IsSound :
    (env : Env) (c : Ctx) → IsSound c.graph.spec.definition_of_done (decide_dod env c)
unfolding decide_dod
decide_dod-IsSound env c = decide_for-IsSound env c c.graph.spec.definition_of_done
