-- ===== src/Loop/Commit.antt =====
-- `_commit_turn` and `_commit_state`: the writes of a turn, and the version check on the state.
use ravana.Prelude.{
  ℕ, zero, suc, ◌+◌, String, Bool, some, List, [], ◌∷◌, or_else, ◌==◌, if◌then◌else◌,
}
use ravana.Exception.{Exception, Result, ok, raise, runtime_error, operational_error}
use ravana.Dict.{get}
use ravana.Value.{State}
use ravana.StateMerge.{merge_delta}
use ravana.Usage.{AgentTurnResult, ToolCall}
use ravana.Store.{NodeStatus, NodeExecution, EventType, LogEvent, Diff, Role}
use ravana.Loop.{
  Ctx, Env, Contention, set_db, commit, rollback, set_run, other_write, both_sides, event,
  log_event, update_rows, set_rows, add_message,
}

-- One call of `_prepare_tool_calls`: the fields that the runtime left out are filled in.
abbrev prepare_call : Env → String → ℕ → ℕ → ToolCall → ToolCall
prepare_call env node_id visit fallback_ordinal call =
    let visit_id = or_else call.logical_visit_id visit in
    let ordinal = or_else call.tool_call_ordinal fallback_ordinal in
    record call {
      logical_visit_id = some visit_id;
      tool_call_ordinal = some ordinal;
      idempotency_key = some (
          or_else call.idempotency_key (
            env.digest (record {
              node_id = node_id;
              logical_visit_id = visit_id;
              tool_call_ordinal = ordinal;
              tool = call.tool;
              arguments = call.arguments;
            })));
    }

unfoldable pub prepare_from : Env → String → ℕ → ℕ → List ToolCall → List ToolCall
prepare_from env node_id visit ordinal [] = []
prepare_from env node_id visit ordinal (call ∷ calls) =
    prepare_call env node_id visit ordinal call ∷ prepare_from env node_id visit (ordinal + 1) calls

unfoldable pub prepare_tool_calls : Env → String → ℕ → List ToolCall → List ToolCall
prepare_tool_calls env node_id visit calls = prepare_from env node_id visit 1 calls

abbrev pub has_id : ℕ → NodeExecution → Bool
has_id id r = r.id == id

abbrev pub with_result : AgentTurnResult → NodeExecution → NodeExecution
with_result result r = record r {
  input_tokens = result.usage.input_tokens;
  output_tokens = result.usage.output_tokens;
  tool_call_count = result.tool_call_count;
  repair_count = result.repair_count;
}

abbrev pub succeed : AgentTurnResult → NodeExecution → NodeExecution
succeed result r = record r {
  status = NodeStatus.succeeded;
  input_tokens = result.usage.input_tokens;
  output_tokens = result.usage.output_tokens;
  tool_call_count = result.tool_call_count;
  repair_count = result.repair_count;
}

-- _insert_turn_message
unfoldable pub insert_turn_message : String → AgentTurnResult → List ToolCall → Ctx → Ctx
insert_turn_message node_id result calls c =
    add_message
      (record {
        node_id = node_id;
        sender_agent_id = get c.con.db.run.agent_db_ids node_id;
        role = Role.agent;
        content = result.content;
        structured_payload = result.structured_payload;
        tool_calls = calls;
      })
      c

pub data Round : Type 0 where
  committed : State → Ctx → Round
  conflict : Ctx → Round
  failed : Exception → Ctx → Round

abbrev pub commit_event : String → ℕ → State → ℕ → LogEvent
commit_event node_id execution delta version =
    record (event EventType.commit (some node_id) (some execution)) {
      state_diff = Diff.delta delta;
      state_version_before = some version;
      state_version_after = some (version + 1);
    }

-- UPDATE run SET shared_state = ?, state_version = ? WHERE state_version = ?, on a match
abbrev pub store_state : State → ℕ → Ctx → Ctx
store_state merged version c =
    set_db
      (set_run (record c.con.db.run { shared_state = merged; state_version = version + 1 })
        c.con.db)
      c

module _ (env : Env) (execution : ℕ) (node_id : String) (result : AgentTurnResult) where
  abbrev pub write_turn : List ToolCall → Ctx → Ctx
  write_turn calls c =
      insert_turn_message node_id result calls
        (set_rows (update_rows (has_id execution) (succeed result) c.con.db.executions) c)

  -- The writes of one attempt, from the version and the merged state read before.
  unfoldable pub write_round : List ToolCall → State → ℕ → Ctx → Round
  write_round calls merged version c =
      let written = write_turn calls c in
      if written.con.db.run.state_version == version
      then committed merged (
          commit (
            log_event (commit_event node_id execution result.structured_payload version)
              (store_state merged version written)))
      else conflict (rollback written)

  abbrev pub contended : Contention → List ToolCall → State → ℕ → Ctx → Round
  contended Contention.quiet calls merged version c = write_round calls merged version c
  contended Contention.fault calls merged version c = failed operational_error (rollback c)
  contended (Contention.written s) calls merged version c =
      write_round calls merged version (both_sides (other_write s) c)

  abbrev pub merged_round : ℕ → List ToolCall → Result State → Ctx → Round
  merged_round round calls (ok merged) c =
      contended (env.contention execution round) calls merged c.con.db.run.state_version c
  merged_round round calls (raise e) c = failed e c

  unfoldable pub commit_round : ℕ → List ToolCall → Ctx → Round
  commit_round round calls c =
      merged_round round calls
        (merge_delta c.con.db.run.shared_state result.structured_payload c.graph.spec.state) c

  -- `for _ in range(3)`; the rounds are numbered downwards
  unfoldable pub commit_rounds : ℕ → List ToolCall → Ctx → Round
  commit_rounds zero calls c = failed runtime_error c
  commit_rounds (suc round) calls c = elim (commit_round round calls c) [
    | committed merged c' ↦ committed merged c'
    | conflict c' ↦ commit_rounds round calls c'
    | failed e c' ↦ failed e c'
  ]

  unfoldable pub commit_turn : ℕ → Ctx → Round
  commit_turn visit c = commit_rounds 3 (prepare_tool_calls env node_id visit result.tool_calls) c

-- `_commit_state`, on the state that the caller loaded; no other writer comes between here.
abbrev pub commit_merged : ℕ → String → State → Result State → Ctx → Round
commit_merged execution node_id delta (ok merged) c = committed merged (
    commit (
      log_event (commit_event node_id execution delta c.con.db.run.state_version)
        (store_state merged c.con.db.run.state_version c)))
commit_merged execution node_id delta (raise e) c = failed e c

unfoldable pub commit_state : ℕ → String → State → State → Ctx → Round
commit_state execution node_id shared_state delta c =
    commit_merged execution node_id delta (merge_delta shared_state delta c.graph.spec.state) c
