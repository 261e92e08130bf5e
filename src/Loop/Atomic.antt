-- ===== src/Loop/Atomic.antt =====
-- `_commit_turn` between the commits of other writers.
use ravana.Prelude.{
  ℕ, zero, suc, ◌+◌, String, ◌≡◌, refl, sym, ap, subst, false, List, ◌∷◌, ==_iff, ◌==◌, arith,
}
use ravana.Exception.{Result, ok, raise}
use ravana.Dict.{get}
use ravana.Value.{State}
use ravana.StateMerge.{merge_delta}
use ravana.Graph.{CompiledGraph}
use ravana.Usage.{AgentTurnResult, ToolCall}
use ravana.Store.{Db, Message, Role, next_sequence}
use ravana.Loop.{Ctx, Env, Contention, both_sides, other_write, update_rows, push_event}
use ravana.Loop.Commit.{
  Round, committed, conflict, failed, has_id, succeed, commit_event, prepare_tool_calls,
  insert_turn_message, write_round, merged_round, contended, commit_round, commit_rounds,
  commit_turn,
}

-- The second tables are the first after some commits of other writers.
pub data Overwritten : Db → Db → Type 0 where
  unchanged : {d : Db} → Overwritten d d
  overwritten : {d e : Db} (s : State) → Overwritten d e → Overwritten d (other_write s e)

-- The tables that a turn leaves when all its writes are made on `d`, with the merged state.
abbrev pub turn_message : String → AgentTurnResult → List ToolCall → Db → Message
turn_message node_id result calls d = record {
  node_id = node_id;
  sender_agent_id = get d.run.agent_db_ids node_id;
  role = Role.agent;
  content = result.content;
  structured_payload = result.structured_payload;
  tool_calls = calls;
}

abbrev pub with_turn : ℕ → String → AgentTurnResult → List ToolCall → State → Db → Db
with_turn execution node_id result calls merged d =
    push_event (commit_event node_id execution result.structured_payload d.run.state_version)
      (record {
        run = record d.run { shared_state = merged; state_version = d.run.state_version + 1 };
        executions = update_rows (has_id execution) (succeed result) d.executions;
        log = d.log;
        hitl = d.hitl;
        messages = turn_message node_id result calls d ∷ d.messages;
      })

module _ (env : Env) (execution : ℕ) (node_id : String) (result : AgentTurnResult) where
  -- What a committed turn leaves durable: its writes on the last committed tables, with its delta
  -- merged into the state that stood there.
  pub record TurnWritten (calls : List ToolCall) (start : Ctx) (merged : State) (end : Ctx)
      : Type 0 where
    pub before : Db
    pub reached : Overwritten start.con.db before
    pub is_merge :
        merge_delta before.run.shared_state result.structured_payload start.graph.spec.state
        ≡ ok merged
    pub durable : end.con.durable ≡ with_turn execution node_id result calls merged before
    pub closed : end.con.durable ≡ end.con.db

  -- A turn that failed to commit leaves nothing of itself: only what others committed.
  pub record NothingWritten (start end : Ctx) : Type 0 where
    pub reached : Overwritten start.con.db end.con.db
    pub closed : end.con.durable ≡ end.con.db
    pub same_graph : end.graph ≡ start.graph

  abbrev pub AllOrNothing : List ToolCall → Ctx → Round → Type 0
  AllOrNothing calls start (committed merged c) = TurnWritten calls start merged c
  AllOrNothing calls start (conflict c) = NothingWritten start c
  AllOrNothing calls start (failed e c) = NothingWritten start c

  write_round-AllOrNothing :
      (calls : List ToolCall) (merged : State) (start c : Ctx)
      → Overwritten start.con.db c.con.db
      → c.con.durable ≡ c.con.db
      → merge_delta c.con.db.run.shared_state result.structured_payload start.graph.spec.state
        ≡ ok merged
      → AllOrNothing calls start
          (write_round env execution node_id result calls merged c.con.db.run.state_version c)
  unfolding write_round insert_turn_message next_sequence
  write_round-AllOrNothing calls merged start c reached closed is_merge =
      rw ((==_iff c.con.db.run.state_version c.con.db.run.state_version).1 refl) (record {
        before = c.con.db;
        reached = reached;
        is_merge = is_merge;
        durable = refl;
        closed = refl;
      })

  lost_race :
      (calls : List ToolCall) (merged s : State) (start c : Ctx)
      → Overwritten start.con.db c.con.db
      → c.con.durable ≡ c.con.db
      → c.graph ≡ start.graph
      → AllOrNothing calls start (
          write_round env execution node_id result calls merged c.con.db.run.state_version
            (both_sides (other_write s) c))
  unfolding write_round insert_turn_message
  lost_race calls merged s start c reached closed same =
      let v = c.con.db.run.state_version in
      let moved : ((v + 1) == v) ≡ false = ground arith in
      rw moved (record {
        reached =
            subst (λ d. Overwritten start.con.db (other_write s d)) (sym closed)
              (overwritten s reached);
        closed = refl;
        same_graph = same;
      })

  merged_round-AllOrNothing :
      (round : ℕ) (calls : List ToolCall) (start c : Ctx)
      → Overwritten start.con.db c.con.db
      → c.con.durable ≡ c.con.db
      → c.graph ≡ start.graph
      → (r : Result State)
      → merge_delta c.con.db.run.shared_state result.structured_payload start.graph.spec.state ≡ r
      → AllOrNothing calls start (merged_round env execution node_id result round calls r c)
  merged_round-AllOrNothing round calls start c reached closed same (raise e) h = record {
    reached = reached;
    closed = closed;
    same_graph = same;
  }
  merged_round-AllOrNothing round calls start c reached closed same (ok merged) h =
      by_contention (env.contention execution round)
    where
      by_contention :
          (k : Contention)
          → AllOrNothing calls start
              (contended env execution node_id result k calls merged c.con.db.run.state_version c)
      by_contention Contention.quiet =
          write_round-AllOrNothing calls merged start c reached closed h
      by_contention Contention.fault = record {
        reached = subst (Overwritten start.con.db) (sym closed) reached;
        closed = refl;
        same_graph = same;
      }
      by_contention (Contention.written s) = lost_race calls merged s start c reached closed same

  again :
      (round : ℕ) (calls : List ToolCall) (start : Ctx) (r : Round)
      → AllOrNothing calls start r
      → ((c : Ctx)
          → Overwritten start.con.db c.con.db
          → c.con.durable ≡ c.con.db
          → c.graph ≡ start.graph
          → AllOrNothing calls start (commit_rounds env execution node_id result round calls c))
      → AllOrNothing calls start (elim r [
        | committed merged c ↦ committed merged c
        | conflict c ↦ commit_rounds env execution node_id result round calls c
        | failed e c ↦ failed e c
      ])
  again round calls start (committed merged c) h more = h
  again round calls start (conflict c) h more = more c h.reached h.closed h.same_graph
  again round calls start (failed e c) h more = h

  commit_rounds-AllOrNothing :
      (rounds : ℕ) (calls : List ToolCall) (start c : Ctx)
      → Overwritten start.con.db c.con.db
      → c.con.durable ≡ c.con.db
      → c.graph ≡ start.graph
      → AllOrNothing calls start (commit_rounds env execution node_id result rounds calls c)
  unfolding commit_rounds commit_round
  commit_rounds-AllOrNothing zero calls start c reached closed same = record {
    reached = reached;
    closed = closed;
    same_graph = same;
  }
  commit_rounds-AllOrNothing (suc round) calls start c reached closed same =
      let spec = c.graph.spec.state in
      let m = merge_delta c.con.db.run.shared_state result.structured_payload spec in
      again round calls start (merged_round env execution node_id result round calls m c)
        (merged_round-AllOrNothing round calls start c reached closed same m (
          ap
            (λ (g : CompiledGraph).
              merge_delta c.con.db.run.shared_state result.structured_payload g.spec.state)
            (sym same)))
        (commit_rounds-AllOrNothing round calls start)

  -- A turn's commit, started with the transaction closed, is all or nothing. If it commits, there
  -- are tables that other writers' commits lead to from the start such that the payload merges into
  -- the state that stood there, and what is durable is those tables with every write of the turn:
  -- the attempt SUCCEEDED with its usage, the message, the COMMIT event, and the merged state under
  -- the next version. Otherwise what is durable is what the other writers' commits lead to.
  pub commit_turn-AllOrNothing :
      (visit : ℕ) (c : Ctx)
      → c.con.durable ≡ c.con.db
      → AllOrNothing
          (prepare_tool_calls env node_id visit result.tool_calls)
          c
          (commit_turn env execution node_id result visit c)
  unfolding commit_turn
  commit_turn-AllOrNothing visit c closed =
      commit_rounds-AllOrNothing 3 (prepare_tool_calls env node_id visit result.tool_calls) c c
        unchanged closed refl
