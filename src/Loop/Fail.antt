-- ===== src/Loop/Fail.antt =====
-- `_fail_run`: the run's failure, with the turn that caused it when there is one.
use ravana.Prelude.{ℕ, String, Bool, true, ◌&&◌, Option, none, some, [], map, maximum, str_eq, ◌==◌}
use ravana.Usage.{AgentTurnResult}
use ravana.Store.{
  RunStatus, NodeStatus, NodeExecution, EventType, Failure, Db, rows_of, latest_execution,
}
use ravana.Loop.{Ctx, Env, set_db, commit, set_run, event, log_event, update_rows, set_rows}
use ravana.Loop.Commit.{has_id, prepare_tool_calls, insert_turn_message}

abbrev pub mark_failed : Failure → NodeExecution → NodeExecution
mark_failed error r = record r { status = NodeStatus.failed; error = some error }

abbrev pub fail_with : Failure → AgentTurnResult → NodeExecution → NodeExecution
fail_with error result r = record r {
  status = NodeStatus.failed;
  error = some error;
  input_tokens = result.usage.input_tokens;
  output_tokens = result.usage.output_tokens;
  tool_call_count = result.tool_call_count;
  repair_count = result.repair_count;
}

-- node_id = ? AND attempt = (SELECT MAX(attempt) …)
abbrev pub is_last_attempt : Db → String → NodeExecution → Bool
is_last_attempt d node_id r =
    str_eq r.node_id node_id
    && r.attempt == maximum (map (λ x. x.attempt) (rows_of node_id d.executions))

-- A turn's result with its logical visit, which `_dispatch` always passes together.
pub record Rejected : Type 0 where
  pub result : AgentTurnResult
  pub logical_visit_id : ℕ

abbrev pub row_id : Option NodeExecution → Option ℕ
row_id none = none
row_id (some r) = some r.id

abbrev pub record_failure :
    Env → String → Failure → Option Rejected → Option NodeExecution → Ctx → Ctx
record_failure env node_id error (some turn) (some row) c =
    insert_turn_message node_id turn.result
      (prepare_tool_calls env node_id turn.logical_visit_id turn.result.tool_calls)
      (set_rows (update_rows (has_id row.id) (fail_with error turn.result) c.con.db.executions) c)
record_failure env node_id error _ _ c =
    set_rows
      (update_rows (is_last_attempt c.con.db node_id) (mark_failed error) c.con.db.executions) c

-- UPDATE run SET status = 'FAILED'
abbrev pub set_failed : Ctx → Ctx
set_failed c = set_db (set_run (record c.con.db.run { status = RunStatus.failed }) c.con.db) c

abbrev pub stop : Ctx → Ctx
stop c = record c { failed = true; queue = [] }

unfoldable pub fail_run : Env → String → Failure → Option Rejected → Ctx → Ctx
fail_run env node_id error turn c =
    let row = latest_execution c.con.db node_id in
    stop (
      commit (
        log_event (event EventType.fail (some node_id) (row_id row))
          (set_failed (record_failure env node_id error turn row c))))
