-- ===== src/Loop/Invariant/Steps.antt =====
-- The rule for commits and routes.
use ravana.Prelude.{ℕ, zero, suc, ◌+◌, String, refl, Bool, List, Bool-cases, inl, inr, ◌==◌}
use ravana.Exception.{Result, ok, raise}
use ravana.Value.{State}
use ravana.Graph.{CompiledGraph}
use ravana.StateMerge.{merge_delta}
use ravana.Usage.{AgentTurnResult, ToolCall}
use ravana.Store.{NodeExecution, Db}
use ravana.Loop.{Ctx, Env, Meanwhile, Contention, both_sides, other_write, update_rows, set_rows}
use ravana.Loop.Commit.{
  Round, committed, conflict, failed, has_id, succeed, write_turn, store_state, commit_event,
  write_round, merged_round, contended, commit_round, commit_rounds, commit_turn, commit_merged,
  commit_state, prepare_tool_calls,
}
use ravana.Loop.Invariant.{
  SameIdentity, Stable, Good, AfterRound, Good-commit, Good-rollback, Good-log_event, Good-pass,
  Good-insert_turn_message,
}

module _ (g : CompiledGraph) (P : Db → Type 0) (st : Stable P) where
  pub Good-update_rows :
      (p : NodeExecution → Bool) (f : NodeExecution → NodeExecution) (c : Ctx)
      → SameIdentity f
      → Good g P c
      → Good g P (set_rows (update_rows p f c.con.db.executions) c)
  Good-update_rows p f c same h = record {
    same_graph = h.same_graph;
    durable = h.durable;
    current = st.on_rows p f c.con.db same h.current;
  }

  Good-store_state :
      (merged : State) (version : ℕ) (c : Ctx)
      → Good g P c
      → Good g P (store_state merged version c)
  Good-store_state merged version c h = record {
    same_graph = h.same_graph;
    durable = h.durable;
    current =
        st.on_run (record c.con.db.run { shared_state = merged; state_version = version + 1 })
          c.con.db h.current;
  }

  pub Good-commit_state :
      (execution : ℕ) (node_id : String) (shared_state delta : State) (c : Ctx)
      → Good g P c
      → AfterRound (Good g P) (commit_state execution node_id shared_state delta c)
  unfolding commit_state
  Good-commit_state execution node_id shared_state delta c h =
      merged (merge_delta shared_state delta c.graph.spec.state)
    where
      merged :
          (r : Result State) → AfterRound (Good g P) (commit_merged execution node_id delta r c)
      merged (ok m) = Good-commit g P st (
          Good-log_event g P st (commit_event node_id execution delta c.con.db.run.state_version)
            (Good-store_state m c.con.db.run.state_version c h))
      merged (raise e) = h

  module _ (env : Env) (execution : ℕ) (node_id : String) (result : AgentTurnResult) where
    Good-write_turn :
        (calls : List ToolCall) (c : Ctx)
        → Good g P c
        → Good g P (write_turn env execution node_id result calls c)
    Good-write_turn calls c h =
        Good-insert_turn_message g P st node_id result calls _
          (Good-update_rows (has_id execution) (succeed result) c (λ r. (refl, refl, refl)) h)

    Good-write_round :
        (calls : List ToolCall) (merged : State) (version : ℕ) (c : Ctx)
        → Good g P c
        → AfterRound (Good g P) (write_round env execution node_id result calls merged version c)
    unfolding write_round
    Good-write_round calls merged version c h =
        let w = Good-write_turn calls c h in
        let c' = write_turn env execution node_id result calls c in
        elim (Bool-cases (c'.con.db.run.state_version == version)) [
          | inl same ↦ rw same (
              Good-commit g P st (
                Good-log_event g P st
                  (commit_event node_id execution result.structured_payload version)
                  (Good-store_state merged version c' w)))
          | inr other ↦ rw other (Good-rollback g P st w)
        ]

    Good-contended :
        (k : Contention) (calls : List ToolCall) (merged : State) (version : ℕ) (c : Ctx)
        → Good g P c
        → AfterRound (Good g P) (contended env execution node_id result k calls merged version c)
    Good-contended Contention.quiet calls merged version c h =
        Good-write_round calls merged version c h
    Good-contended Contention.fault calls merged version c h = Good-rollback g P st h
    Good-contended (Contention.written s) calls merged version c h =
        Good-write_round calls merged version (both_sides (other_write s) c)
          (Good-pass g P st (Meanwhile.written s) c h)

    Good-merged_round :
        (round : ℕ) (calls : List ToolCall) (r : Result State) (c : Ctx)
        → Good g P c
        → AfterRound (Good g P) (merged_round env execution node_id result round calls r c)
    Good-merged_round round calls (ok merged) c h =
        Good-contended (env.contention execution round) calls merged c.con.db.run.state_version c h
    Good-merged_round round calls (raise e) c h = h

    Good-commit_rounds :
        (rounds : ℕ) (calls : List ToolCall) (c : Ctx)
        → Good g P c
        → AfterRound (Good g P) (commit_rounds env execution node_id result rounds calls c)
    unfolding commit_rounds commit_round
    Good-commit_rounds zero calls c h = h
    Good-commit_rounds (suc round) calls c h =
        again
          (merged_round env execution node_id result round calls
            (merge_delta c.con.db.run.shared_state result.structured_payload c.graph.spec.state) c)
          (Good-merged_round round calls
            (merge_delta c.con.db.run.shared_state result.structured_payload c.graph.spec.state) c
            h)
          (Good-commit_rounds round calls)
      where
        again :
            (r : Round)
            → AfterRound (Good g P) r
            → ((c' : Ctx)
                → Good g P c'
                → AfterRound (Good g P) (commit_rounds env execution node_id result round calls c'))
            → AfterRound (Good g P) (elim r [
              | committed merged c' ↦ committed merged c'
              | conflict c' ↦ commit_rounds env execution node_id result round calls c'
              | failed e c' ↦ failed e c'
            ])
        again (committed merged c') k more = k
        again (conflict c') k more = more c' k
        again (failed e c') k more = k

    pub Good-commit_turn :
        (visit : ℕ) (c : Ctx)
        → Good g P c
        → AfterRound (Good g P) (commit_turn env execution node_id result visit c)
    unfolding commit_turn
    Good-commit_turn visit c h =
        Good-commit_rounds 3 (prepare_tool_calls env node_id visit result.tool_calls) c h
