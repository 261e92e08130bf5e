-- ===== src/Loop/Finalize.antt =====
-- `_decide_dod`, `_write_final` and `_finalize_status`: the outcome of a run. The handoff of the
-- workspace that may follow a completed run changes no status and is left out.
use Prim.Native.String.{◌++◌ as string_append}
use ravana.Prelude.{
  String, Bool, true, false, ◌&&◌, ◌||◌, Option, none, some, List, [], ◌∷◌, if◌then◌else◌,
}
use ravana.Exception.{Result, ok, raise, terminal_persistence_error}
use ravana.Value.{State}
use ravana.Schema.{DefinitionOfDone}
use ravana.Usage.{LlmUsage, total, llm_usage}
use ravana.Dod.{
  DodResult, Verdict, Summary, as_dict, prose_criteria, apply_prose_verdict, evaluate_dod,
}
use ravana.Dod
use ravana.Store.{
  RunStatus, EventType, DodOutcome, DodDiff, Diff, LogEvent, is_terminal, has_pending_hitl,
}
use ravana.Loop.{
  Ctx, Step, done, raised, Env, JudgeOutcome, judgement, judge_failed, judge_raised, guards, set_db,
  commit, rollback, set_run, pass, event, log_event,
}
use ravana.Loop.Dispatch.{would_exceed_token_cap}

pub record DodEvent : Type 0 where
  pub result : Bool
  pub condition : String
  pub state_diff : DodDiff

-- "; ".join(criteria)
unfoldable pub join_criteria : List String → String
join_criteria [] = ""
join_criteria (c ∷ []) = c
join_criteria (c ∷ d ∷ cs) = string_append c (string_append "; " (join_criteria (d ∷ cs)))

pub record Decision : Type 0 where
  pub status : RunStatus
  pub event : Option DodEvent

abbrev pub is_completed : RunStatus → Bool
is_completed RunStatus.completed = true
is_completed _ = false

-- _build_dod_event, with the status that it is decided with
unfoldable pub decide :
    DefinitionOfDone → DodResult → DodOutcome → RunStatus → Option LlmUsage → Decision
decide dod result outcome status usage = record {
  status = status;
  event = some (record {
    result = is_completed status;
    condition = join_criteria dod.criteria;
    state_diff = record { outcome = outcome; summary = as_dict result; usage = usage };
  });
}

-- _minimal_dod_error_event
abbrev pub minimal_error : DefinitionOfDone → Decision
minimal_error dod = record {
  status = RunStatus.failed;
  event = some (record {
    result = false;
    condition = join_criteria dod.criteria;
    state_diff = record {
      outcome = DodOutcome.evaluator_error;
      summary = record { met = false; results = []; unmet = []; unevaluated = [] };
      usage = none;
    };
  });
}

abbrev pub decide_met : DefinitionOfDone → DodResult → Option LlmUsage → Decision
decide_met dod result usage =
    if Dod.met result
    then decide dod result DodOutcome.met RunStatus.completed usage
    else decide dod result DodOutcome.criteria_unmet RunStatus.failed usage

module _ (c : Ctx) (dod : DefinitionOfDone) (result : DodResult) where
  abbrev pub exceeds : LlmUsage → Bool
  exceeds u = would_exceed_token_cap c.con.db (guards c).max_tokens_total (total u)

  -- the usage is checked again here; a bad one raises, which the outer handler turns into an error
  abbrev pub judged : List Verdict → Result LlmUsage → Decision
  judged verdicts (raise e) = minimal_error dod
  judged verdicts (ok usage) =
      if exceeds usage
      then decide dod result DodOutcome.cost_cap_exceeded RunStatus.failed (some usage)
      else decide_met dod (apply_prose_verdict verdicts result) (some usage)

  -- `_safe_usage`: a bad usage counts as none
  abbrev pub failed_judgement : Result LlmUsage → Decision
  failed_judgement (raise e) = decide dod result DodOutcome.evaluator_error RunStatus.failed none
  failed_judgement (ok spent) =
      decide dod result
        (if exceeds spent then DodOutcome.cost_cap_exceeded else DodOutcome.evaluator_error)
        RunStatus.failed (some spent)

  abbrev pub with_judge : JudgeOutcome → Decision
  with_judge (judgement verdicts i o) = judged verdicts (llm_usage i o)
  with_judge (judge_failed i o) = failed_judgement (llm_usage i o)
  with_judge judge_raised = minimal_error dod

  abbrev pub ask_judge :
      Option (String → List String → State → JudgeOutcome) → List String → Decision
  ask_judge (some judge) (p ∷ ps) =
      with_judge (judge dod.evaluated_by (p ∷ ps) c.con.db.run.shared_state)
  ask_judge _ _ = decide_met dod result none

-- `except Exception` around it all: a definition of done that raises fails the run
abbrev pub after_evaluation : Env → Ctx → DefinitionOfDone → Result DodResult → Decision
after_evaluation env c dod (raise e) = minimal_error dod
after_evaluation env c dod (ok result) = ask_judge c dod result env.judge (prose_criteria result)

abbrev pub decide_for : Env → Ctx → Option DefinitionOfDone → Decision
decide_for env c none = record { status = RunStatus.completed; event = none }
decide_for env c (some dod) =
    after_evaluation env c dod (evaluate_dod env.evaluator dod c.con.db.run.shared_state)

-- _decide_dod
unfoldable pub decide_dod : Env → Ctx → Decision
decide_dod env c = decide_for env c c.graph.spec.definition_of_done

abbrev pub dod_event : DodEvent → LogEvent
dod_event e = record (event EventType.dod_evaluated none none) {
  result = some e.result;
  condition_evaluated = some e.condition;
  state_diff = Diff.judged e.state_diff;
}

abbrev pub stage : Option DodEvent → Ctx → Ctx
stage none c = c
stage (some e) c = log_event (dod_event e) c

-- _update_run_status_if_active, followed by a commit, or by a rollback when the run is terminal
unfoldable pub update_run_status_if_active : RunStatus → Ctx → Ctx
update_run_status_if_active status c =
    if is_terminal c.con.db.run.status
    then rollback c
    else commit (set_db (set_run (record c.con.db.run { status = status }) c.con.db) c)

abbrev is_some_event : Option DodEvent → Bool
is_some_event none = false
is_some_event (some e) = true

abbrev pub refuses : Env → Option DodEvent → Bool
refuses env event = (is_some_event event && env.faults.event_write) || env.faults.status_write

-- _write_final: the event and the status in one transaction, then the status alone
unfoldable pub write_final : Env → RunStatus → Option DodEvent → Ctx → Step
write_final env status event c =
    if refuses env event
    then (if env.faults.fallback_write
        then raised terminal_persistence_error (rollback c)
        else done (update_run_status_if_active RunStatus.failed (rollback c)))
    else done (update_run_status_if_active status (stage event c))

abbrev pub write_decision : Env → Decision → Ctx → Step
write_decision env d c = write_final env d.status d.event c

-- _finalize_status
unfoldable pub finalize_status : Env → Ctx → Step
finalize_status env c =
    if c.failed
    then done c
    else if is_terminal c.con.db.run.status
    then done c
    else if has_pending_hitl c.con.db
    then write_final env RunStatus.waiting_human none c
    else if c.terminal_reached
    then write_decision env (decide_dod env c) (pass env.judge_meanwhile c)
    else write_final env c.con.db.run.status none c
