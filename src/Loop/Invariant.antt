-- ===== src/Loop/Invariant.antt =====
-- The invariant rule of the loop: a property of the tables that each kind of write keeps holds of
-- what is committed and of what the open transaction sees, after every step, raised or not.
pub mod Steps
pub mod Routes
pub mod Turns
pub mod Runs
use ravana.Prelude.{
  ℕ, zero, suc, ◌+◌, String, ◌≡◌, refl, Bool, true, false, Option, none, some, List, [], ◌∷◌,
  Bool-cases, inl, inr, ◌==◌, if◌then◌else◌,
}
use ravana.Exception.{Exception, Result, ok, raise}
use ravana.Value.{State}
use ravana.Graph.{CompiledGraph}
use ravana.StateMerge.{merge_delta}
use ravana.Usage.{AgentTurnResult, ToolCall}
use ravana.Store.{
  RunStatus, EventType, NodeExecution, LogEvent, Message, HitlRequest, RunRow, Db, Failure,
  latest_execution,
}
use ravana.Loop.{
  Ctx, Step, done, raised, ◌>>=◌, Env, Meanwhile, Contention, set_run, push_event, pass, rollback,
  both_sides, other_write, update_rows, log_event, commit, event,
}
use ravana.Loop.Commit.{
  Round, committed, conflict, failed, insert_turn_message, write_round, merged_round, contended,
  commit_round, commit_rounds, commit_turn, commit_merged, commit_state, prepare_tool_calls,
}
use ravana.Loop.Fail.{Rejected, row_id, set_failed, record_failure, fail_run}

-- An update that leaves a row's identity alone.
abbrev pub SameIdentity : (NodeExecution → NodeExecution) → Type 0
SameIdentity f =
    (r : NodeExecution)
    → ((f r).id ≡ r.id) × ((f r).node_id ≡ r.node_id) × ((f r).attempt ≡ r.attempt)

-- The kinds of write, and that `P` survives each.
pub record Stable (P : Db → Type 0) : Type 0 where
  pub on_event : (e : LogEvent) (d : Db) → P d → P (push_event e d)
  pub on_run : (r : RunRow) (d : Db) → P d → P (set_run r d)
  pub on_rows :
      (p : NodeExecution → Bool) (f : NodeExecution → NodeExecution) (d : Db)
      → SameIdentity f
      → P d
      → P (record d { executions = update_rows p f d.executions })
  pub on_message : (ms : List Message) (d : Db) → P d → P (record d { messages = ms })
  pub on_hitl : (hs : List HitlRequest) (d : Db) → P d → P (record d { hitl = hs })

-- `P` on both sides of the connection, under the graph that the run started with.
pub record Good (g : CompiledGraph) (P : Db → Type 0) (c : Ctx) : Type 0 where
  pub same_graph : c.graph ≡ g
  pub durable : P c.con.durable
  pub current : P c.con.db

abbrev pub AfterStep : (Ctx → Type 0) → Step → Type 0
AfterStep Q (done c) = Q c
AfterStep Q (raised e c) = Q c

abbrev pub AfterRound : (Ctx → Type 0) → Round → Type 0
AfterRound Q (committed s c) = Q c
AfterRound Q (conflict c) = Q c
AfterRound Q (failed e c) = Q c

pub AfterStep-bind :
    (Q : Ctx → Type 0) (s : Step) (f : Ctx → Step)
    → AfterStep Q s
    → ((c : Ctx) → Q c → AfterStep Q (f c))
    → AfterStep Q (s >>= f)
AfterStep-bind Q (done c) f h k = k c h
AfterStep-bind Q (raised e c) f h k = h

module _ (g : CompiledGraph) (P : Db → Type 0) (st : Stable P) where
  pub Good-commit : {c : Ctx} → Good g P c → Good g P (commit c)
  Good-commit h = record { same_graph = h.same_graph; durable = h.current; current = h.current }

  pub Good-rollback : {c : Ctx} → Good g P c → Good g P (rollback c)
  Good-rollback h = record { same_graph = h.same_graph; durable = h.durable; current = h.durable }

  pub Good-log_event : (e : LogEvent) {c : Ctx} → Good g P c → Good g P (log_event e c)
  Good-log_event e {c} h = record {
    same_graph = h.same_graph;
    durable = h.durable;
    current = st.on_event e c.con.db h.current;
  }

  pub Good-pass : (m : Meanwhile) (c : Ctx) → Good g P c → Good g P (pass m c)
  Good-pass Meanwhile.quiet c h = h
  Good-pass Meanwhile.cancelled c h = record {
    same_graph = h.same_graph;
    durable = st.on_run _ c.con.durable h.durable;
    current = st.on_run _ c.con.db h.current;
  }
  Good-pass (Meanwhile.written s) c h = record {
    same_graph = h.same_graph;
    durable = st.on_run _ c.con.durable h.durable;
    current = st.on_run _ c.con.db h.current;
  }

  Good-other_write : (s : State) (c : Ctx) → Good g P c → Good g P (both_sides (other_write s) c)
  Good-other_write s c h = Good-pass (Meanwhile.written s) c h

  Good-set_failed : {c : Ctx} → Good g P c → Good g P (set_failed c)
  Good-set_failed {c} h = record {
    same_graph = h.same_graph;
    durable = h.durable;
    current = st.on_run (record c.con.db.run { status = RunStatus.failed }) c.con.db h.current;
  }

  pub Good-insert_turn_message :
      (node_id : String) (result : AgentTurnResult) (calls : List ToolCall) (c : Ctx)
      → Good g P c
      → Good g P (insert_turn_message node_id result calls c)
  unfolding insert_turn_message
  Good-insert_turn_message node_id result calls c h = record {
    same_graph = h.same_graph;
    durable = h.durable;
    current = st.on_message _ c.con.db h.current;
  }

  module _ (env : Env) (node_id : String) (error : Failure) where
    Good-record_failure :
        (turn : Option Rejected) (row : Option NodeExecution) (c : Ctx)
        → Good g P c
        → Good g P (record_failure env node_id error turn row c)
    Good-record_failure (some turn) (some row) c h =
        Good-insert_turn_message node_id turn.result _ _ (record {
          same_graph = h.same_graph;
          durable = h.durable;
          current = st.on_rows _ _ c.con.db (λ r. (refl, refl, refl)) h.current;
        })
    Good-record_failure none row c h = record {
      same_graph = h.same_graph;
      durable = h.durable;
      current = st.on_rows _ _ c.con.db (λ r. (refl, refl, refl)) h.current;
    }
    Good-record_failure (some turn) none c h = record {
      same_graph = h.same_graph;
      durable = h.durable;
      current = st.on_rows _ _ c.con.db (λ r. (refl, refl, refl)) h.current;
    }

    pub Good-fail_run :
        (turn : Option Rejected) (c : Ctx)
        → Good g P c
        → Good g P (fail_run env node_id error turn c)
    unfolding fail_run
    Good-fail_run turn c h =
        let row = latest_execution c.con.db node_id in
        let k = Good-record_failure turn row c h in
        let m =
          Good-commit (
            Good-log_event (event EventType.fail (some node_id) (row_id row))
              (Good-set_failed k)) in
        record { same_graph = m.same_graph; durable = m.durable; current = m.current }
