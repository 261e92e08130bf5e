-- ===== src/Mcp.antt =====
-- runtime/toolkits/mcp_server.py: the server that an administrator defines, the names of its tools,
-- and the state of a handler. Mcp.Allow has the checks of its configuration, Mcp.Pin the listing of
-- its tools, Mcp.Handler and Mcp.Call its methods. Processes and the protocol are parameters.
pub mod Allow
pub mod Pin
pub mod Session
pub mod Handler
pub mod Call
pub mod Usable
pub mod Frozen
pub mod Safe
pub mod Executed
use Prim.Native.Char.{Char, code}
use Prim.Native.String.{◌++◌ as string_append}
use ravana.Prelude.{
  String, Bool, true, false, not, ◌&&◌, ◌||◌, Option, none, some, List, [], ◌∷◌, contains, leb,
  ◌==◌, or_else, if◌then◌else◌,
}
use ravana.Exception.{
  Exception, secret_leak_error, toolkit_error, ToolFailureKind, transient, fatal,
  retry_safe_cancellation, outcome_unknown, Result, ok, raise, guard, ◌>>=◌,
}
use ravana.Text.{is_alnum, length, after_prefix}
use ravana.Dict.{Dict, put}
use ravana.Value.{Value}
use ravana.Secrets.Known.{ensure_secret_free}
use ravana.Tools.{Tool}
use ravana.Tools.Snapshot.{SnapshotRow}

-- McpServerDefinition
pub record ServerDefinition : Type 0 where
  pub name : String
  pub command : String
  pub cwd : String
  pub args : List String
  pub env : Dict String
  pub auth_env : String
  pub authenticate_discovery : Bool
  pub read_only_tools : List String
  pub command_target : String

-- What a credential provider gives: a text, held by a ResolvedSecret or plain, or something else.
pub data Token : Type 0 where
  resolved plain : (value : String) → Token
  unsupported : Token

-- What an McpServerHandler is made of.
pub record McpServer : Type 0 where
  pub toolkit_id : String
  pub server : ServerDefinition
  pub allowed_tools : Option (List String)
  pub get_auth_token : Option (Result (Option Token))
  pub has_store : Bool

-- What it changes, with the rows of its snapshot store. Its own description is left out: the tools
-- of a server have theirs.
pub record Pins : Type 0 where
  pub pinned_by_run : Dict (Dict Tool)
  pub executable : Bool
  pub rows : List SnapshotRow

abbrev pub separator : String
separator = "__"

-- qualified_tool_name
abbrev pub qualified_tool_name : (toolkit_id sub_tool : String) → String
qualified_tool_name toolkit_id sub_tool =
    string_append toolkit_id (string_append separator sub_tool)

-- `tool[len(prefix):] if tool.startswith(prefix) else tool`
unfoldable pub unqualified : McpServer → String → String
unfolding after_prefix
unqualified h tool = or_else (after_prefix (string_append h.toolkit_id separator) tool) tool

abbrev pub all_chars : (Char → Bool) → String → Bool
all_chars p String.[] = true
all_chars p (String.◌∷◌ c s) = p c && all_chars p s

-- [A-Za-z0-9_-]
abbrev pub is_name_char : Char → Bool
is_name_char c = is_alnum (code c) || code c == b'_' || code c == b'-'

-- _PROVIDER_TOOL_NAME_RE.fullmatch
unfoldable pub is_provider_name : String → Bool
unfolding length
is_provider_name s = leb 1 (length s) && leb (length s) 64 && all_chars is_name_char s

-- _validate_provider_tool_name
abbrev pub validate_provider_tool_name : McpServer → String → Result (Unit {0})
validate_provider_tool_name h sub_tool =
    guard (is_provider_name (qualified_tool_name h.toolkit_id sub_tool)) (toolkit_error fatal)

-- _is_side_effecting_sub_tool
abbrev pub is_side_effecting_sub_tool : McpServer → String → Bool
is_side_effecting_sub_tool h sub_tool = not (contains h.server.read_only_tools sub_tool)

-- is_side_effecting_for_tool
abbrev pub is_side_effecting_for_tool : McpServer → String → Bool
is_side_effecting_for_tool h tool = is_side_effecting_sub_tool h (unqualified h tool)

-- _failure_for_phase, without its texts
unfoldable pub failure_for_phase :
    McpServer → (sub_tool : String) → (dispatched retry_safe : Bool) → Exception
failure_for_phase h sub_tool false true = retry_safe_cancellation
failure_for_phase h sub_tool false false = toolkit_error transient
failure_for_phase h sub_tool true retry_safe =
    if is_side_effecting_sub_tool h sub_tool then outcome_unknown else toolkit_error transient

-- the value of a token
abbrev pub token_value : Option Token → Result (Option String)
token_value none = ok none
token_value (some (resolved value)) = ok (some value)
token_value (some (plain value)) = ok (some value)
token_value (some unsupported) = raise (toolkit_error fatal)

-- A provider that raises is fatal.
abbrev pub resolve_token : Option (Result (Option Token)) → Result (Option String)
resolve_token none = ok none
resolve_token (some (raise e)) = raise (toolkit_error fatal)
resolve_token (some (ok token)) = token_value token

abbrev pub inherited : Dict String
inherited =
    ("HOME", "") ∷ ("LOGNAME", "") ∷ ("PATH", "") ∷ ("SHELL", "") ∷ ("TERM", "") ∷ ("USER", "") ∷ []

-- d.update(other)
abbrev pub update : Dict String → Dict String → Dict String
update d [] = d
update d ((k, v) ∷ other) = update (put d k v) other

-- The environment of a child process, and the credential in it.
pub record ChildEnvironment : Type 0 where
  pub variables : Dict String
  pub secret : Option String

abbrev pub with_token : McpServer → Dict String → Option String → ChildEnvironment
with_token h variables none = record { variables = variables; secret = none }
with_token h variables (some value) = record {
  variables = put variables h.server.auth_env value;
  secret = some value;
}

-- _child_environment
unfoldable pub child_environment : McpServer → (include_auth : Bool) → Result ChildEnvironment
unfolding put
child_environment h false = ok (with_token h (update inherited h.server.env) none)
child_environment h true = resolve_token h.get_auth_token >>= λ token.
    ok (with_token h (update inherited h.server.env) token)

-- `ensure_secret_free(…)`, with SecretLeakError turned into the exception
abbrev pub or_leak : Exception → Result (Unit {0}) → Result (Unit {0})
or_leak leak (ok done_) = ok done_
or_leak leak (raise e) = raise leak

unfoldable pub screen : (leak : Exception) → Option String → Value → Result (Unit {0})
unfolding ensure_secret_free
screen leak secret value = or_leak leak (ensure_secret_free secret value)
