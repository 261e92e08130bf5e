-- ===== src/Loop/Dispatch.antt =====
-- `_dispatch`: the guards, the new attempt, the agent's turn, its commit and its route.
use ravana.Prelude.{
  ℕ, ◌+◌, String, Bool, false, ◌||◌, Option, none, some, List, [], ◌∷◌, length, ltb, leb,
  if◌then◌else◌,
}
use ravana.Exception.{Exception, Result, ok, raise}
use ravana.Value.{State}
use ravana.Schema.{AgentConfig, GraphNode}
use ravana.Graph.{node, agent_for_node}
use ravana.Expr.OnEnter.{apply_on_enter}
use ravana.Secrets.{is_secret_text, state_contains_secret}
use ravana.Usage.{LlmUsage, total, llm_usage, ToolCall, RawTurn, AgentTurnResult}
use ravana.Backoff.{backoff_delay}
use ravana.Store.{
  NodeStatus, NodeExecution, Failure, Db, is_retried, consecutive_failures, latest_execution,
  next_attempt, total_tokens,
}
use ravana.Loop.{
  Ctx, Step, done, raised, Env, TurnRequest, TurnOutcome, returned, transient_failure,
  other_failure, guards, commit, pass, update_rows, set_rows,
}
use ravana.Loop.Commit.{Round, committed, conflict, failed, has_id, commit_turn, commit_state}
use ravana.Loop.Fail.{mark_failed, fail_run}
use ravana.Loop.Route.{route}

-- _NODE_RETRY_BASE_SECONDS and _NODE_RETRY_CAP_SECONDS
abbrev pub retry_base : ℕ
retry_base = 1

abbrev pub retry_cap : ℕ
retry_cap = 30

abbrev over : ℕ → Option ℕ → Bool
over tokens none = false
over tokens (some cap) = ltb cap tokens

-- _would_exceed_token_cap
unfoldable pub would_exceed_token_cap : Db → Option ℕ → ℕ → Bool
would_exceed_token_cap d cap additional = over (total_tokens d + additional) cap

abbrev reused : Option NodeExecution → ℕ → ℕ
reused none fresh = fresh
reused (some r) fresh = if is_retried r.status then r.logical_visit_id else fresh

-- _logical_visit_for_dispatch, with `fresh` for `new_id()`
unfoldable pub logical_visit_for_dispatch : Db → String → ℕ → ℕ
logical_visit_for_dispatch d node_id fresh = reused (latest_execution d node_id) fresh

-- The INSERT of a RUNNING attempt, and its commit. Two identifiers are taken, also when the visit is
-- reused and the source draws only one: nothing depends on the gap.
abbrev pub new_row : Ctx → String → NodeExecution
new_row c node_id = record {
  id = c.next_id + 1;
  node_id = node_id;
  attempt = next_attempt c.con.db node_id;
  logical_visit_id = logical_visit_for_dispatch c.con.db node_id c.next_id;
  status = NodeStatus.running;
  error = none;
  input_tokens = 0;
  output_tokens = 0;
  tool_call_count = 0;
  repair_count = 0;
}

abbrev take_ids : Ctx → Ctx
take_ids c = record c { next_id = c.next_id + 2 }

unfoldable pub start_attempt : String → Ctx → Ctx
start_attempt node_id c = commit (take_ids (set_rows (new_row c node_id ∷ c.con.db.executions) c))

abbrev any_secret_call : List ToolCall → Bool
any_secret_call [] = false
any_secret_call (call ∷ calls) =
    is_secret_text call.tool || state_contains_secret call.arguments || any_secret_call calls

abbrev secret_content : Option String → Bool
secret_content none = false
secret_content (some s) = is_secret_text s

-- What `ensure_secret_free` rejects in a turn's output.
unfoldable pub leaks_secret : RawTurn → Bool
leaks_secret raw =
    secret_content raw.content
    || state_contains_secret raw.structured_payload
    || any_secret_call raw.tool_calls

-- The `try` block: a checked snapshot of the turn, or why there is none.
pub data Checked : Type 0 where
  accepted : AgentTurnResult → Checked
  transient broken : Checked

abbrev snapshot : RawTurn → Result LlmUsage → Checked
snapshot raw (raise e) = broken
snapshot raw (ok usage) =
    if leaks_secret raw
    then broken
    else accepted (record {
      structured_payload = raw.structured_payload;
      content = raw.content;
      tool_calls = raw.tool_calls;
      usage = usage;
      repair_count = raw.repair_count;
      tool_call_count = raw.tool_call_count;
    })

unfoldable pub check_turn : TurnOutcome → Checked
check_turn (returned raw) = snapshot raw (llm_usage raw.input_tokens raw.output_tokens)
check_turn transient_failure = transient
check_turn other_failure = broken

abbrev pub put_back : String → Ctx → Ctx
put_back node_id c = record c { queue = node_id ∷ c.queue }

-- the sleep before the node is put back in the queue, when its delay is no exception
abbrev pub sleep_then_put_back : String → Result ℕ → Ctx → Step
sleep_then_put_back node_id (ok delay) c =
    done (put_back node_id (record c { sleeps = delay ∷ c.sleeps }))
sleep_then_put_back node_id (raise e) c = raised e c

-- The `except TransientAgentError` branch; `streak` counts the failure that just happened.
unfoldable pub retry_turn : Env → String → ℕ → ℕ → Ctx → Step
retry_turn env node_id execution streak c =
    let recorded = commit (
      set_rows (update_rows (has_id execution) (mark_failed Failure.transient) c.con.db.executions)
        c) in
    if ltb (guards c).max_retries_per_node streak
    then done (put_back node_id recorded)
    else sleep_then_put_back node_id (backoff_delay env.rng retry_base retry_cap streak) recorded

module _ (env : Env) (node_id : String) (execution visit streak : ℕ) where
  abbrev pub after_commit : Round → Step
  after_commit (committed shared_state c) = route env node_id execution shared_state c
  after_commit (conflict c) = done (fail_run env node_id Failure.commit_failed none c)
  after_commit (failed e c) = done (fail_run env node_id Failure.commit_failed none c)

  abbrev pub reject : Failure → AgentTurnResult → Ctx → Step
  reject error result c =
      done
        (fail_run env node_id error (some (record { result = result; logical_visit_id = visit })) c)

  -- the guards on a turn that the runtime returned
  abbrev pub settle : AgentTurnResult → Ctx → Step
  settle result c =
      if ltb (guards c).max_tool_calls_per_turn result.tool_call_count
      then reject Failure.max_tool_calls_per_turn result c
      else if ltb (guards c).max_output_repairs result.repair_count
      then reject Failure.max_output_repairs result c
      else if would_exceed_token_cap c.con.db (guards c).max_tokens_total (total result.usage)
      then reject Failure.max_tokens_total result c
      else after_commit (commit_turn env execution node_id result visit c)

  unfoldable pub finish_turn : Checked → Ctx → Step
  finish_turn (accepted result) c = settle result c
  finish_turn transient c = retry_turn env node_id execution streak c
  finish_turn broken c = done (fail_run env node_id Failure.turn_failed none c)

  abbrev pub request : AgentConfig → ℕ → State → TurnRequest
  request agent attempt shared_state = record {
    node_id = node_id;
    attempt = attempt;
    logical_visit_id = visit;
    agent_id = agent.id;
    shared_state = shared_state;
  }

  unfoldable pub run_turn : AgentConfig → ℕ → State → Ctx → Step
  run_turn agent attempt shared_state c =
      let r = request agent attempt shared_state in
      finish_turn (check_turn (env.run_turn r)) (pass (env.meanwhile r) c)

  abbrev pub after_enter : AgentConfig → ℕ → Round → Step
  after_enter agent attempt (committed shared_state c) = run_turn agent attempt shared_state c
  after_enter agent attempt (conflict c) = raised Exception.runtime_error c
  after_enter agent attempt (failed e c) = raised e c

  abbrev pub enter_delta : AgentConfig → ℕ → Result State → Ctx → Step
  enter_delta agent attempt (ok delta) c =
      after_enter agent attempt (commit_state execution node_id c.con.db.run.shared_state delta c)
  enter_delta agent attempt (raise e) c = raised e c

  -- `if node.on_enter`: the empty text is no mutation
  abbrev pub on_enter : AgentConfig → ℕ → Option String → Ctx → Step
  on_enter agent attempt (some (String.◌∷◌ ch s)) c =
      enter_delta agent attempt
        (apply_on_enter env.evaluator (String.◌∷◌ ch s) c.con.db.run.shared_state) c
  on_enter agent attempt _ c = run_turn agent attempt c.con.db.run.shared_state c

  unfoldable pub enter : ℕ → Result AgentConfig → Result GraphNode → Ctx → Step
  enter attempt (ok agent) (ok n) c = on_enter agent attempt n.on_enter c
  enter attempt (ok agent) (raise e) c = raised e c
  enter attempt (raise e) n c = raised e c

abbrev pub begin : Env → String → ℕ → NodeExecution → Ctx → Step
begin env node_id failures row c =
    enter env node_id row.id row.logical_visit_id (failures + 1) row.attempt
      (agent_for_node c.graph node_id) (node c.graph node_id) c

unfoldable pub dispatch : Env → String → Ctx → Step
dispatch env node_id c =
    let failures = consecutive_failures c.con.db node_id in
    if ltb (guards c).max_retries_per_node failures
    then done (fail_run env node_id Failure.max_retries_per_node none c)
    else if leb (guards c).max_total_steps (length c.con.db.executions)
    then done (fail_run env node_id Failure.max_total_steps none c)
    else begin env node_id failures (new_row c node_id) (start_attempt node_id c)
