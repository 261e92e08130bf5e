-- ===== src/Loop.antt =====
-- engine/loop.py: the context of a run, its connection, and the parts that every step shares.
pub mod Commit
pub mod Fail
pub mod Route
pub mod Dispatch
pub mod Finalize
pub mod Drain
pub mod Invariant
pub mod Termination
pub mod Numbering
pub mod Atomic
pub mod Outcome
pub mod Resume
pub mod Rejection
pub mod Joins
pub mod Start
use ravana.Prelude.{
  ℕ, zero, suc, ◌+◌, String, Bool, true, false, Option, none, some, List, [], ◌∷◌, ◌++◌, map,
  or_else, ◌==◌, if◌then◌else◌,
}
use ravana.Exception.{Exception}
use ravana.Dict.{Dict, get}
use ravana.Value.{State}
use ravana.Schema.{GraphGuards}
use ravana.Graph.{CompiledGraph}
use ravana.Expr.{Evaluator}
use ravana.Dod.{Verdict}
use ravana.Usage.{RawTurn, Reported, ToolCall}
use ravana.Store.{
  RunStatus, NodeExecution, EventType, Diff, nothing, LogEvent, RunRow, Db, Message, next_sequence,
}

-- A SQLite connection: what is committed, and what the open transaction sees.
pub record Conn : Type 0 where
  pub durable : Db
  pub db : Db

-- _RunCtx. `next_id` numbers the calls of `new_id`, and `sleeps` records what `retry_sleep` was asked.
pub record Ctx : Type 0 where
  pub graph : CompiledGraph
  pub con : Conn
  pub queue : List String
  pub terminal_reached : Bool
  pub failed : Bool
  pub next_id : ℕ
  pub sleeps : List ℕ

abbrev pub guards : Ctx → GraphGuards
guards c = c.graph.spec.graph.guards

abbrev pub db : Ctx → Db
db c = c.con.db

-- A step that goes on, or an exception that leaves the loop, with the state it leaves behind.
pub data Step : Type 0 where
  done : Ctx → Step
  raised : Exception → Ctx → Step

infixl 5 ◌>>=◌
abbrev pub ◌>>=◌ : Step → (Ctx → Step) → Step
done c >>= f = f c
raised e c >>= f = raised e c

-- What another connection commits while the loop waits: an operator cancels the run, or a writer
-- stores a state under the next version.
pub data Meanwhile : Type 0 where
  quiet cancelled : Meanwhile
  written : State → Meanwhile

-- What happens between the read of the run's row and the writes of one commit attempt: nothing,
-- another writer's commit, or an error of the database in the midst of the writes.
pub data Contention : Type 0 where
  quiet fault : Contention
  written : State → Contention

pub record TurnRequest : Type 0 where
  pub node_id : String
  pub attempt : ℕ
  pub logical_visit_id : ℕ
  pub agent_id : String
  pub shared_state : State

pub data TurnOutcome : Type 0 where
  returned : RawTurn → TurnOutcome
  transient_failure other_failure : TurnOutcome

pub data JudgeOutcome : Type 0 where
  judgement : List Verdict → Reported → Reported → JudgeOutcome
  judge_failed : Reported → Reported → JudgeOutcome
  judge_raised : JudgeOutcome

-- The parts of an idempotency key, for the digest of runtime/idempotency.py.
pub record KeyParts : Type 0 where
  pub node_id : String
  pub logical_visit_id : ℕ
  pub tool_call_ordinal : ℕ
  pub tool : String
  pub arguments : State

-- The writes of the finalization that the database refuses.
pub record Faults : Type 0 where
  pub event_write : Bool
  pub status_write : Bool
  pub fallback_write : Bool

-- The world around a run: the evaluator, the runtime's answers, other connections, the hash, the
-- random source, the judge (absent when no prose verdict is wired) and the database's faults.
pub record Env : Type 0 where
  pub evaluator : Evaluator
  pub run_turn : TurnRequest → TurnOutcome
  pub meanwhile : TurnRequest → Meanwhile
  pub contention : ℕ → ℕ → Contention
  pub digest : KeyParts → String
  pub rng : ℕ → ℕ
  pub judge : Option (String → List String → State → JudgeOutcome)
  pub judge_meanwhile : Meanwhile
  pub faults : Faults

abbrev pub set_db : Db → Ctx → Ctx
set_db d c = record c { con = record { durable = c.con.durable; db = d } }

-- con.commit(), con.rollback()
abbrev pub commit : Ctx → Ctx
commit c = record c { con = record { durable = c.con.db; db = c.con.db } }

abbrev pub rollback : Ctx → Ctx
rollback c = record c { con = record { durable = c.con.durable; db = c.con.durable } }

abbrev pub set_run : RunRow → Db → Db
set_run r d = record d { run = r }

abbrev pub other_write : State → Db → Db
other_write s d =
    set_run (record d.run { shared_state = s; state_version = d.run.state_version + 1 }) d

abbrev pub other_cancel : Db → Db
other_cancel d = set_run (record d.run { status = RunStatus.cancelled }) d

abbrev pub both_sides : (Db → Db) → Ctx → Ctx
both_sides f c = record c { con = record { durable = f c.con.durable; db = f c.con.db } }

abbrev pub pass : Meanwhile → Ctx → Ctx
pass Meanwhile.quiet c = c
pass Meanwhile.cancelled c = both_sides other_cancel c
pass (Meanwhile.written s) c = both_sides (other_write s) c

-- An event with the columns that `_log_event` leaves NULL by default.
abbrev pub event : EventType → Option String → Option ℕ → LogEvent
event type from_node execution = record {
  sequence = 0;
  node_execution_id = execution;
  event_type = type;
  from_node = from_node;
  to_node = none;
  condition_evaluated = none;
  result = none;
  state_diff = nothing;
  state_version_before = none;
  state_version_after = none;
}

abbrev pub push_event : LogEvent → Db → Db
push_event e d = record d { log = record e { sequence = next_sequence d } ∷ d.log }

-- _log_event
abbrev pub log_event : LogEvent → Ctx → Ctx
log_event e c = set_db (push_event e c.con.db) c

-- UPDATE node_execution SET … WHERE id = ?
abbrev pub update_where :
    (NodeExecution → Bool) → (NodeExecution → NodeExecution) → NodeExecution → NodeExecution
update_where p f r = if p r then f r else r

unfoldable pub update_rows :
    (NodeExecution → Bool)
    → (NodeExecution → NodeExecution)
    → List NodeExecution
    → List NodeExecution
update_rows p f [] = []
update_rows p f (r ∷ rows) = update_where p f r ∷ update_rows p f rows

abbrev pub set_rows : List NodeExecution → Ctx → Ctx
set_rows rows c = set_db (record c.con.db { executions = rows }) c

abbrev pub add_message : Message → Ctx → Ctx
add_message m c = set_db (record c.con.db { messages = m ∷ c.con.db.messages }) c
