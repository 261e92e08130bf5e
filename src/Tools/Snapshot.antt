-- ===== src/Tools/Snapshot.antt =====
-- runtime/toolkits/mcp_snapshot.py: the tools that an MCP server offered when a run was prepared,
-- as rows of `mcp_tool_snapshot`. Each operation ends with a commit, so the rows are one list. A
-- time is a number of seconds, and none is the empty text.
pub mod Order
pub mod Pins
pub mod Roundtrip
use Prim.Native.Char.{code}
use ravana.Prelude.{
  ℕ, ◌-◌, String, Bool, true, false, not, ◌&&◌, ◌||◌, Option, none, some, List, [], ◌∷◌, ◌++◌, map,
  keep, all, str_eq, ltb, ◌==◌, length, if◌then◌else◌,
}
use ravana.Exception.{
  Exception, toolkit_error, ToolFailureKind, fatal, Result, ok, raise, guard, ◌>>=◌, ◌>>◌,
}
use ravana.Dict.{Dict, get, put}
use ravana.Value.{Value, obj}
use ravana.Store.{RunStatus, is_terminal}
use ravana.Tools.{Tool}

pub record SnapshotRow : Type 0 where
  pub run_id : String
  pub toolkit_id : String
  pub server_fingerprint : String
  pub tool_name : String
  pub description : String
  pub input_schema : String
  pub created_at : Option ℕ

-- SQLite's order of texts
unfoldable pub leb_text : String → String → Bool
leb_text String.[] t = true
leb_text (String.◌∷◌ c s) String.[] = false
leb_text (String.◌∷◌ c s) (String.◌∷◌ d t) =
    let rest = leb_text s t in if code c == code d then rest else ltb (code c) (code d)

-- ORDER BY tool_name
unfoldable pub insert_row : SnapshotRow → List SnapshotRow → List SnapshotRow
insert_row r [] = r ∷ []
insert_row r (s ∷ rows) =
    let rest = insert_row r rows in
    if leb_text r.tool_name s.tool_name then r ∷ s ∷ rows else s ∷ rest

unfoldable pub sort_rows : List SnapshotRow → List SnapshotRow
sort_rows [] = []
sort_rows (r ∷ rows) = insert_row r (sort_rows rows)

-- run_id = ? AND toolkit_id = ?
abbrev pub is_of : String → String → SnapshotRow → Bool
is_of run_id toolkit_id r = str_eq r.run_id run_id && str_eq r.toolkit_id toolkit_id

abbrev pub has_fingerprint : String → SnapshotRow → Bool
has_fingerprint expected r = str_eq r.server_fingerprint expected

-- `json.loads` and `isinstance(schema, dict)`
abbrev pub object_in : Option Value → Result Value
object_in (some (obj d)) = ok (obj d)
object_in _ = raise (toolkit_error fatal)

abbrev pub tool_in : SnapshotRow → Value → Tool
tool_in r schema = record { name = r.tool_name; description = r.description; input_schema = schema }

unfoldable pub pin_rows :
    (String → Option Value) → List SnapshotRow → Dict Tool → Result (Dict Tool)
pin_rows loads [] pinned = ok pinned
pin_rows loads (r ∷ rows) pinned = do
  schema ← object_in (loads r.input_schema)
  pin_rows loads rows (put pinned r.tool_name (tool_in r schema))

-- restore, from the selected rows
abbrev pub restore_rows :
    (String → Option Value) → String → List SnapshotRow → Result (Option (Dict Tool))
restore_rows loads expected [] = ok none
restore_rows loads expected (r ∷ rows) = do
  guard (all (has_fingerprint expected) (r ∷ rows)) (toolkit_error fatal)
  pinned ← pin_rows loads (r ∷ rows) []
  ok (some pinned)

-- McpToolSnapshotStore.restore
unfoldable pub restore :
    (String → Option Value)
    → String
    → String
    → String
    → List SnapshotRow
    → Result (Option (Dict Tool))
restore loads run_id toolkit_id expected rows =
    restore_rows loads expected (sort_rows (keep (is_of run_id toolkit_id) rows))

abbrev pub row_of : (Value → String) → ℕ → String → String → String → String → Tool → SnapshotRow
row_of dumps now run_id toolkit_id fingerprint name spec = record {
  run_id = run_id;
  toolkit_id = toolkit_id;
  server_fingerprint = fingerprint;
  tool_name = name;
  description = spec.description;
  input_schema = dumps spec.input_schema;
  created_at = some now;
}

abbrev pub rows_of : (Value → String) → ℕ → String → String → String → Dict Tool → List SnapshotRow
rows_of dumps now run_id toolkit_id fingerprint [] = []
rows_of dumps now run_id toolkit_id fingerprint ((name, spec) ∷ pinned) =
    row_of dumps now run_id toolkit_id fingerprint name spec
    ∷ rows_of dumps now run_id toolkit_id fingerprint pinned

-- McpToolSnapshotStore.persist, with `json.dumps` and the time
unfoldable pub persist :
    (Value → String)
    → ℕ
    → String
    → String
    → String
    → Dict Tool
    → List SnapshotRow
    → List SnapshotRow
persist dumps now run_id toolkit_id fingerprint pinned rows =
    keep (λ r. not (is_of run_id toolkit_id r)) rows
    ++ rows_of dumps now run_id toolkit_id fingerprint pinned

abbrev pub is_over : Option RunStatus → Bool
is_over none = true
is_over (some status) = is_terminal status

-- McpToolSnapshotStore.release, with the statuses of the runs
unfoldable pub release : Dict RunStatus → String → List SnapshotRow → List SnapshotRow
release runs run_id rows =
    if is_over (get runs run_id) then keep (λ r. not (str_eq r.run_id run_id)) rows else rows

abbrev pub orphan_grace : ℕ
orphan_grace = 3600

abbrev is_old : ℕ → Option ℕ → Bool
is_old now none = true
is_old now (some at) = ltb at (now - orphan_grace)

abbrev is_stale_for : ℕ → SnapshotRow → Option RunStatus → Bool
is_stale_for now r none = is_old now r.created_at
is_stale_for now r (some status) = is_terminal status

abbrev pub is_stale : ℕ → Dict RunStatus → SnapshotRow → Bool
is_stale now runs r = is_stale_for now r (get runs r.run_id)

-- McpToolSnapshotStore.cleanup: how many rows it removes, and the rows that stay
unfoldable pub cleanup : ℕ → Dict RunStatus → List SnapshotRow → ℕ × List SnapshotRow
cleanup now runs rows =
    (length (keep (is_stale now runs) rows), keep (λ r. not (is_stale now runs r)) rows)
