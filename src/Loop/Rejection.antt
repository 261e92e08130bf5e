-- ===== src/Loop/Rejection.antt =====
-- What `_fail_run` leaves, and the turns that `_dispatch` rejects.
use ravana.Prelude.{
  ℕ, ◌+◌, String, ◌≡◌, refl, ap, Bool, true, ◌||◌, Option, none, some, List, [], ◌∷◌, if_cases, ltb,
  map, maximum,
}
use ravana.Usage.{AgentTurnResult, total}
use ravana.Store.{
  RunStatus, RunRow, NodeExecution, EventType, Failure, LogEvent, latest_execution, next_sequence,
}
use ravana.Loop.{Ctx, Step, done, Env, guards, event}
use ravana.Loop.Commit.{insert_turn_message}
use ravana.Loop.Fail.{Rejected, row_id, record_failure, fail_run}
use ravana.Loop.Dispatch.{would_exceed_token_cap, reject, settle}

-- A failure at a node: durable, the last event of the log, with the state as it was, and nothing
-- left to do.
pub record IsFailure (node_id : String) (start end : Ctx) : Type 0 where
  pub closed : end.con.durable ≡ end.con.db
  pub status : end.con.db.run.status ≡ RunStatus.failed
  pub same_state : end.con.db.run.shared_state ≡ start.con.db.run.shared_state
  pub same_version : end.con.db.run.state_version ≡ start.con.db.run.state_version
  pub logged :
      end.con.db.log
      ≡ record (event EventType.fail
          (some node_id)
          (row_id (latest_execution start.con.db node_id))) {
            sequence = next_sequence start.con.db;
          }
        ∷ start.con.db.log
  pub stopped : end.failed ≡ true
  pub emptied : end.queue ≡ []

record_failure-keeps :
    (env : Env) (node_id : String) (error : Failure) (turn : Option Rejected)
    (row : Option NodeExecution) (c : Ctx)
    → ((record_failure env node_id error turn row c).con.db.run ≡ c.con.db.run)
      × ((record_failure env node_id error turn row c).con.db.log ≡ c.con.db.log)
unfolding insert_turn_message
record_failure-keeps env node_id error (some turn) (some row) c = (refl, refl)
record_failure-keeps env node_id error (some turn) none c = (refl, refl)
record_failure-keeps env node_id error none row c = (refl, refl)

fail_run-IsFailure :
    (env : Env) (node_id : String) (error : Failure) (turn : Option Rejected) (c : Ctx)
    → IsFailure node_id c (fail_run env node_id error turn c)
unfolding fail_run next_sequence
fail_run-IsFailure env node_id error turn c =
    let row = latest_execution c.con.db node_id in
    let k = record_failure-keeps env node_id error turn row c in
    record {
      closed = refl;
      status = refl;
      same_state = ap (λ (r : RunRow). r.shared_state) k.0;
      same_version = ap (λ (r : RunRow). r.state_version) k.0;
      logged =
          ap
            (λ (l : List LogEvent).
              record (event EventType.fail (some node_id) (row_id row)) {
                sequence = maximum (map (λ (e : LogEvent). e.sequence) l) + 1;
              }
              ∷ l)
            k.1;
      stopped = refl;
      emptied = refl;
    }

abbrev pub Fails : String → Ctx → Step → Type 0
Fails node_id c s = (end : Ctx) × (s ≡ done end) × IsFailure node_id c end

module _ (env : Env) (node_id : String) (execution visit streak : ℕ) where
  -- Whether a turn breaks a guard.
  abbrev pub breaks_guard : AgentTurnResult → Ctx → Bool
  breaks_guard result c =
      ltb (guards c).max_tool_calls_per_turn result.tool_call_count
      || ltb (guards c).max_output_repairs result.repair_count
      || would_exceed_token_cap c.con.db (guards c).max_tokens_total (total result.usage)

  reject-Fails :
      (error : Failure) (result : AgentTurnResult) (c : Ctx)
      → Fails node_id c (reject env node_id execution visit streak error result c)
  reject-Fails error result c =
      let turn = some (record { result = result; logical_visit_id = visit }) in
      (fail_run env node_id error turn c, refl, fail_run-IsFailure env node_id error turn c)

  -- A turn that makes more tool calls or repairs than its guard admits, or that would take the run
  -- past its token cap, fails the run: the failure is durable and the last event of the log, and the
  -- turn's payload does not reach the shared state.
  pub settle-IsFailure :
      (result : AgentTurnResult) (c : Ctx)
      → breaks_guard result c ≡ true
      → Fails node_id c (settle env node_id execution visit streak result c)
  settle-IsFailure result c h =
      if_cases (Fails node_id c) (ltb (guards c).max_tool_calls_per_turn result.tool_call_count)
        (λ calls. reject-Fails Failure.max_tool_calls_per_turn result c)
        (λ few_calls.
          if_cases (Fails node_id c) (ltb (guards c).max_output_repairs result.repair_count)
            (λ repairs. reject-Fails Failure.max_output_repairs result c)
            (λ few_repairs.
              if_cases (Fails node_id c)
                (would_exceed_token_cap c.con.db (guards c).max_tokens_total (total result.usage))
                (λ tokens. reject-Fails Failure.max_tokens_total result c)
                (λ few_tokens. cc (rw (few_calls, few_repairs, few_tokens) at h))))
