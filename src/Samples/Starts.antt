-- ===== src/Samples/Starts.antt =====
-- A run that cancels the previous one of its group.
use ravana.Prelude.{◌≤◌, ◌≡◌, refl, String, some, List, [], ◌∷◌, length, arith, if_cases}
use ravana.Exception.{ok}
use ravana.Value.{Value, str}
use ravana.Schema.{WorkflowSpec, ConcurrencyConfig, cancel_previous}
use ravana.Store.{RunStatus}
use ravana.Text.{span, take, drop, after_prefix}
use ravana.Dict.{get}
use ravana.Loop.Start.{
  RunEntry, Runs, StartEnv, match_group_var, resolve_from, resolve_group, start_run,
}
use ravana.Loop.Start.Occupants.{occupies, IsExclusive}
use ravana.Loop.Start.Exclusive.{start_run-IsExclusive}
use ravana.Samples.Data.{spec}

abbrev group : ConcurrencyConfig
group = record { group = "pr-${input.pr}"; strategy = cancel_previous }

abbrev grouped : WorkflowSpec
grouped = record spec { concurrency = some group }

abbrev text : Value → String
text (str s) = s
text v = ""

abbrev env : StartEnv
env = record {
  spec = grouped;
  workflow_id = "wf";
  run_id = "second";
  input_payload = ("pr", str "7") ∷ [];
  prepared = ok tt;
  node_rows =
      record { id = "draft"; agent_id = some "writer" }
      ∷ record { id = "review"; agent_id = some "writer" }
      ∷ [];
  str_of = text;
}

abbrev first : RunEntry
first = record {
  id = "first";
  workflow_id = "wf";
  status = RunStatus.running;
  concurrency_group = some "pr-7";
  shared_state = [];
  input_payload = [];
  agent_db_ids = [];
}

abbrev runs : Runs
runs = record { durable = first ∷ []; current = first ∷ [] }

resolves_group : resolve_group text "pr-${input.pr}" env.input_payload ≡ "pr-7"
unfolding resolve_group resolve_from match_group_var span take drop after_prefix get
resolves_group = refl

first_alone : IsExclusive "wf" runs.current
first_alone group named =
    if_cases (λ (rs : List RunEntry). length rs ≤ 1) (occupies "wf" group first) (λ _. omega arith)
      (λ _. omega arith)

start_run-IsExclusive_example : IsExclusive "wf" (start_run env runs).1.current
start_run-IsExclusive_example = start_run-IsExclusive env group runs refl (λ h. cc) first_alone
