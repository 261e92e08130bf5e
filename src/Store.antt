-- ===== src/Store.antt =====
-- The tables of schema/db.py that one run of the engine reads and writes, restricted to its rows,
-- and the queries of engine/loop.py. A table lists its rows with the newest first; time stamps and
-- columns that nothing reads back are left out, and an error's text is kept by its kind.
pub mod Sequence
use ravana.Prelude.{
  ℕ, zero, suc, ◌+◌, String, Bool, true, false, not, ◌&&◌, ◌||◌, Option, none, some, List, [], ◌∷◌,
  map, keep, length, sum, maximum, contains, distinct, str_eq, ◌==◌, ltb, leb, or_else, is_some,
  if◌then◌else◌,
}
use ravana.Dict.{Dict}
use ravana.Value.{State}
use ravana.Usage.{ToolCall, LlmUsage}
use ravana.Dod.{Summary}

pub data RunStatus : Type 0 where
  pending running waiting_human completed failed cancelled : RunStatus

pub data NodeStatus : Type 0 where
  running succeeded failed waiting_human : NodeStatus

-- Why a row failed.
pub data Failure : Type 0 where
  max_retries_per_node max_total_steps max_tool_calls_per_turn : Failure
  max_output_repairs max_tokens_total : Failure
  transient turn_failed commit_failed no_matching_route : Failure

pub record NodeExecution : Type 0 where
  pub id : ℕ
  pub node_id : String
  pub attempt : ℕ
  pub logical_visit_id : ℕ
  pub status : NodeStatus
  pub error : Option Failure
  pub input_tokens : ℕ
  pub output_tokens : ℕ
  pub tool_call_count : ℕ
  pub repair_count : ℕ

pub data EventType : Type 0 where
  route commit fail terminate hitl_raised hitl_resolved dod_evaluated : EventType

pub data DodOutcome : Type 0 where
  met criteria_unmet evaluator_error cost_cap_exceeded : DodOutcome

-- the `state_diff` of a DOD_EVALUATED event, without the name of the error's class
pub record DodDiff : Type 0 where
  pub outcome : DodOutcome
  pub summary : Summary
  pub usage : Option LlmUsage

pub data Diff : Type 0 where
  nothing : Diff
  delta : State → Diff
  judged : DodDiff → Diff

pub record LogEvent : Type 0 where
  pub sequence : ℕ
  pub node_execution_id : Option ℕ
  pub event_type : EventType
  pub from_node : Option String
  pub to_node : Option String
  pub condition_evaluated : Option String
  pub result : Option Bool
  pub state_diff : Diff
  pub state_version_before : Option ℕ
  pub state_version_after : Option ℕ

pub data HitlStatus : Type 0 where
  pending answered : HitlStatus

pub record HitlRequest : Type 0 where
  pub id : ℕ
  pub node_id : String
  pub question : String
  pub assignee : Option String
  pub status : HitlStatus
  pub response : Option State

pub data Role : Type 0 where
  agent user : Role

pub record Message : Type 0 where
  pub node_id : String
  pub sender_agent_id : Option String
  pub role : Role
  pub content : Option String
  pub structured_payload : State
  pub tool_calls : List ToolCall

pub record RunRow : Type 0 where
  pub status : RunStatus
  pub shared_state : State
  pub state_version : ℕ
  pub agent_db_ids : Dict String

pub record Db : Type 0 where
  pub run : RunRow
  pub executions : List NodeExecution
  pub log : List LogEvent
  pub hitl : List HitlRequest
  pub messages : List Message

-- TERMINAL_STATUSES
abbrev pub is_terminal : RunStatus → Bool
is_terminal RunStatus.completed = true
is_terminal RunStatus.failed = true
is_terminal RunStatus.cancelled = true
is_terminal _ = false

abbrev pub is_failed : NodeStatus → Bool
is_failed NodeStatus.failed = true
is_failed _ = false

-- status in ("FAILED", "WAITING_HUMAN")
abbrev pub is_retried : NodeStatus → Bool
is_retried NodeStatus.failed = true
is_retried NodeStatus.waiting_human = true
is_retried _ = false

abbrev pub is_pending : HitlStatus → Bool
is_pending HitlStatus.pending = true
is_pending HitlStatus.answered = false

abbrev pub is_route : EventType → Bool
is_route route = true
is_route _ = false

abbrev pub is_commit : EventType → Bool
is_commit commit = true
is_commit _ = false

-- `column = ?`, where the column may be NULL
abbrev pub is_text : Option String → String → Bool
is_text none s = false
is_text (some t) s = str_eq t s

-- _next_sequence
unfoldable pub next_sequence : Db → ℕ
next_sequence db = maximum (map (λ e. e.sequence) db.log) + 1

-- WHERE node_id = ?
abbrev pub rows_of : String → List NodeExecution → List NodeExecution
rows_of node_id = keep (λ r. str_eq r.node_id node_id)

-- ORDER BY attempt DESC
unfoldable pub insert_by_attempt : NodeExecution → List NodeExecution → List NodeExecution
insert_by_attempt r [] = r ∷ []
insert_by_attempt r (x ∷ xs) =
    if leb x.attempt r.attempt then r ∷ x ∷ xs else x ∷ insert_by_attempt r xs

unfoldable pub by_attempt : List NodeExecution → List NodeExecution
by_attempt [] = []
by_attempt (r ∷ rows) = insert_by_attempt r (by_attempt rows)

abbrev pub leading_failures : List NodeExecution → ℕ
leading_failures [] = 0
leading_failures (r ∷ rows) =
    let more = leading_failures rows in if is_failed r.status then suc more else 0

-- _consecutive_failures
unfoldable pub consecutive_failures : Db → String → ℕ
consecutive_failures db node_id = leading_failures (by_attempt (rows_of node_id db.executions))

abbrev pub head? {ℓ} : {A : Type ℓ} → List A → Option A
head? [] = none
head? (x ∷ xs) = some x

-- ORDER BY attempt DESC LIMIT 1
unfoldable pub latest_execution : Db → String → Option NodeExecution
latest_execution db node_id = head? (by_attempt (rows_of node_id db.executions))

-- COALESCE(MAX(attempt), 0) + 1
unfoldable pub next_attempt : Db → String → ℕ
next_attempt db node_id = maximum (map (λ r. r.attempt) (rows_of node_id db.executions)) + 1

abbrev pub row_tokens : NodeExecution → ℕ
row_tokens r = r.input_tokens + r.output_tokens

-- _total_tokens
unfoldable pub total_tokens : Db → ℕ
total_tokens db = sum (map row_tokens db.executions)

abbrev pub fires : String → String → LogEvent → Bool
fires from_node to_node e =
    is_route e.event_type && is_text e.from_node from_node && is_text e.to_node to_node

-- _edge_fire_count
unfoldable pub edge_fire_count : Db → String → String → ℕ
edge_fire_count db from_node to_node = length (keep (fires from_node to_node) db.log)

abbrev pub commits : String → LogEvent → Bool
commits node_id e = is_commit e.event_type && is_text e.from_node node_id

abbrev pub arrives : String → ℕ → LogEvent → Bool
arrives node_id since e = is_route e.event_type && is_text e.to_node node_id && ltb since e.sequence

abbrev pub texts : List (Option String) → List String
texts [] = []
texts (none ∷ xs) = texts xs
texts (some s ∷ xs) = s ∷ texts xs

-- the sequence of the node's last COMMIT
unfoldable pub last_commit : Db → String → ℕ
last_commit db node_id = maximum (map (λ e. e.sequence) (keep (commits node_id) db.log))

-- _join_arrivals
unfoldable pub join_arrivals : Db → String → List String
join_arrivals db node_id =
    distinct
      (texts (map (λ e. e.from_node) (keep (arrives node_id (last_commit db node_id)) db.log)))

-- SELECT 1 FROM hitl_request WHERE status = 'PENDING'
unfoldable pub has_pending_hitl : Db → Bool
has_pending_hitl db = some_row (keep (λ h. is_pending h.status) db.hitl)
  where
    some_row : List HitlRequest → Bool
    some_row [] = false
    some_row (h ∷ hs) = true
