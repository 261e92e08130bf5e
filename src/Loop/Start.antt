-- ===== src/Loop/Start.antt =====
-- `start_run` up to its first commit, on the rows of the `run` table: the concurrency group of the
-- new run, what becomes of the active runs in it, and the row that is inserted. The drain that
-- follows for a RUNNING run is Loop.Drain's.
pub mod Occupants
pub mod Exclusive
use Prim.Native.String.{◌++◌ as string_append}
use Prim.Native.Char.{Char, code}
use Prim.Native.Nat.{pred}
use ravana.Prelude.{
  ℕ, zero, suc, ◌+◌, String, Bool, true, false, not, ◌&&◌, ◌||◌, Option, none, some, is_some,
  or_else, List, [], ◌∷◌, ◌++◌, map, keep, any, contains, str_eq, ◌==◌, if◌then◌else◌,
}
use ravana.Exception.{Exception, value_error, operational_error, Result, ok, raise, guard, ◌>>=◌}
use ravana.Dict.{Dict, get, put, has_key}
use ravana.Value.{Value, str, State}
use ravana.Text.{is_alnum, span, take, drop, after_prefix}
use ravana.Schema.{
  GraphNode, WorkflowSpec, ConcurrencyConfig, ConcurrencyStrategy, queue, cancel_previous, allow,
}
use ravana.Store.{RunStatus, pending, running, waiting_human, cancelled}

-- [A-Za-z0-9_]
abbrev is_word_char : ℕ → Bool
is_word_char c = is_alnum c || c == b'_'

abbrev closed_var : String → ℕ → Option String → Option (String × ℕ)
closed_var name n none = none
closed_var name n (some rest) = some (name, n + 9)

abbrev named_var : String → ℕ → Option (String × ℕ)
named_var rest zero = none
named_var rest (suc n) =
    closed_var (take (suc n) rest) (suc n) (after_prefix "}" (drop (suc n) rest))

abbrev var_in : Option String → Option (String × ℕ)
var_in none = none
var_in (some rest) = named_var rest (span is_word_char rest)

-- A match of `_GROUP_VAR_RE` at the start of a text: the name, and the length of the match.
unfoldable pub match_group_var : String → Option (String × ℕ)
unfolding span take drop after_prefix
match_group_var s = var_in (after_prefix "${input." s)

abbrev length_of : Option (String × ℕ) → ℕ
length_of none = 1
length_of (some (name, n)) = n

-- str(input_payload.get(name, ""))
abbrev text_of : (Value → String) → State → String → String
text_of str_of input name = str_of (or_else (get input name) (str ""))

abbrev emit : (Value → String) → State → Char → Option (String × ℕ) → String → String
emit str_of input c none rest = String.◌∷◌ c rest
emit str_of input c (some (name, n)) rest = string_append (text_of str_of input name) rest

-- `_GROUP_VAR_RE.sub`: `skip` counts the characters of a match that are still to be dropped.
unfoldable pub resolve_from : (Value → String) → State → ℕ → String → String
unfolding match_group_var
resolve_from str_of input skip String.[] = String.[]
resolve_from str_of input zero (String.◌∷◌ c s) =
    emit str_of input c (match_group_var (String.◌∷◌ c s))
      (resolve_from str_of input (pred (length_of (match_group_var (String.◌∷◌ c s)))) s)
resolve_from str_of input (suc skip) (String.◌∷◌ c s) = resolve_from str_of input skip s

-- _resolve_group
unfoldable pub resolve_group : (Value → String) → String → State → String
resolve_group str_of template input = resolve_from str_of input 0 template

-- The columns of `run` that `start_run` reads, or writes for the engine.
pub record RunEntry : Type 0 where
  pub id : String
  pub workflow_id : String
  pub status : RunStatus
  pub concurrency_group : Option String
  pub shared_state : State
  pub input_payload : State
  pub agent_db_ids : Dict String

-- What is committed, and what the open transaction sees.
pub record Runs : Type 0 where
  pub durable : List RunEntry
  pub current : List RunEntry

-- A row of `workflow_node`.
pub record NodeRow : Type 0 where
  pub id : String
  pub agent_id : Option String

abbrev add_agent : Option String → String → Dict String → Dict String
add_agent none id mapping = mapping
add_agent (some agent_id) id mapping = put mapping id agent_id

abbrev pub agent_mapping : List NodeRow → Dict String → Dict String
agent_mapping [] mapping = mapping
agent_mapping (r ∷ rows) mapping = agent_mapping rows (add_agent r.agent_id r.id mapping)

abbrev is_missing : Dict String → GraphNode → Bool
is_missing mapping n = is_some n.agent && not (has_key mapping n.id)

-- _workflow_agent_db_ids
unfoldable pub workflow_agent_db_ids : List NodeRow → List GraphNode → Result (Dict String)
workflow_agent_db_ids rows nodes =
    let mapping = agent_mapping rows [] in
    guard (not (any (is_missing mapping) nodes)) value_error >>= λ done_. ok mapping

-- The arguments of `start_run`, with the run's id; `prepared` is what `prepare_run` answers, and
-- `str_of` is Python's `str`.
pub record StartEnv : Type 0 where
  pub spec : WorkflowSpec
  pub workflow_id : String
  pub run_id : String
  pub input_payload : State
  pub prepared : Result (Unit {0})
  pub node_rows : List NodeRow
  pub str_of : Value → String

-- status IN ('PENDING','RUNNING','WAITING_HUMAN')
abbrev pub is_active : RunStatus → Bool
is_active RunStatus.pending = true
is_active RunStatus.running = true
is_active RunStatus.waiting_human = true
is_active _ = false

abbrev pub has_group : String → Option String → Bool
has_group group none = false
has_group group (some g) = str_eq g group

abbrev pub is_rival : String → String → RunEntry → Bool
is_rival workflow_id group r =
    str_eq r.workflow_id workflow_id && has_group group r.concurrency_group && is_active r.status

abbrev pub ids : List RunEntry → List String
ids rows = map (λ r. r.id) rows

abbrev pub cancel_if : Bool → RunEntry → RunEntry
cancel_if test r = record r { status = if test then RunStatus.cancelled else r.status }

-- UPDATE run SET status = 'CANCELLED' … WHERE id = ?, for each of the rivals
abbrev pub cancel_runs : List String → List RunEntry → List RunEntry
cancel_runs rivals rows = map (λ r. cancel_if (contains rivals r.id) r) rows

abbrev pub by_strategy :
    ConcurrencyStrategy → List RunEntry → List RunEntry → RunStatus × List RunEntry
by_strategy queue rivals rows = (RunStatus.pending, rows)
by_strategy cancel_previous rivals rows = (RunStatus.running, cancel_runs (ids rivals) rows)
by_strategy allow rivals rows = (RunStatus.running, rows)

-- `if active`
abbrev pub against : ConcurrencyStrategy → List RunEntry → List RunEntry → RunStatus × List RunEntry
against strategy [] rows = (RunStatus.running, rows)
against strategy (r ∷ rivals) rows = by_strategy strategy (r ∷ rivals) rows

abbrev pub is_empty : String → Bool
is_empty String.[] = true
is_empty (String.◌∷◌ c s) = false

-- `if concurrency and concurrency_group`: the status of the new run, and the rows before it
abbrev pub admit :
    Option ConcurrencyConfig → Option String → String → List RunEntry → RunStatus × List RunEntry
admit (some c) (some group) workflow_id rows =
    if is_empty group
    then (RunStatus.running, rows)
    else against c.strategy (keep (is_rival workflow_id group) rows) rows
admit _ _ workflow_id rows = (RunStatus.running, rows)

abbrev pub group_by : StartEnv → Option ConcurrencyConfig → Option String
group_by e none = none
group_by e (some c) = some (resolve_group e.str_of c.group e.input_payload)

abbrev pub group_of : StartEnv → Option String
group_of e = group_by e e.spec.concurrency

abbrev pub new_run : StartEnv → RunStatus → Dict String → RunEntry
new_run e status agent_db_ids = record {
  id = e.run_id;
  workflow_id = e.workflow_id;
  status = status;
  concurrency_group = group_of e;
  shared_state = e.spec.state.initial;
  input_payload = e.input_payload;
  agent_db_ids = agent_db_ids;
}

-- The INSERT, which a row of that id refuses, and the commit.
abbrev pub insert_run : RunEntry → Runs → Result RunStatus × Runs
insert_run r runs =
    let rows = r ∷ runs.current in
    if contains (ids runs.current) r.id
    then (raise operational_error, runs)
    else (ok r.status, record { durable = rows; current = rows })

abbrev pub inserted : StartEnv → RunStatus → Result (Dict String) → Runs → Result RunStatus × Runs
inserted e status (raise ex) runs = (raise ex, runs)
inserted e status (ok agent_db_ids) runs = insert_run (new_run e status agent_db_ids) runs

abbrev pub admitted : StartEnv → Runs → Result RunStatus × Runs
admitted e runs =
    let entry = admit e.spec.concurrency (group_of e) e.workflow_id runs.current in
    inserted e entry.0 (workflow_agent_db_ids e.node_rows e.spec.graph.nodes)
      (record runs { current = entry.1 })

abbrev pub start_prepared : StartEnv → Result (Unit {0}) → Runs → Result RunStatus × Runs
start_prepared e (raise ex) runs = (raise ex, runs)
start_prepared e (ok done_) runs = admitted e runs

-- start_run: the status that the new run gets, which says whether it is drained
unfoldable pub start_run : StartEnv → Runs → Result RunStatus × Runs
start_run e runs = start_prepared e e.prepared runs
