-- ===== src/Mcp/Allow.antt =====
-- What an administrator allows: `parse_server_allowlist`, `check_endpoint_allowed`, and the check of
-- a workflow's own `allowed_tools`. Paths of the file system are a parameter.
use Prim.Native.Char.{code}
use ravana.Prelude.{
  String, Bool, true, false, not, ◌&&◌, ◌||◌, Option, none, some, List, [], ◌∷◌, any, is_some,
  or_else, keep, str_eq, ◌==◌,
}
use ravana.Exception.{toolkit_error, fatal, Result, ok, raise, guard, ◌>>=◌, ◌>>◌}
use ravana.Dict.{Dict, get, put}
use ravana.Value.{
  Value, null, bool, str, arr, obj, Elements, nil, cons, Entries, end, field, get_field,
}
use ravana.Mcp.{ServerDefinition, McpServer, Token}

-- The functions of `os.path` and `shutil` that are called; `split_path` splits at `os.pathsep`, and
-- `sorted_items` is `sorted(d.items())`.
pub record FileSystem : Type 0 where
  pub isabs : String → Bool
  pub isdir : String → Bool
  pub abspath : String → String
  pub realpath : String → String
  pub which : (command path : String) → Option String
  pub split_path : String → List String
  pub sorted_items : Dict String → Dict String

abbrev refuse {ℓ} : {A : Type ℓ} → Result A
refuse = raise (toolkit_error fatal)

abbrev is_filled : String → Bool
is_filled String.[] = false
is_filled (String.◌∷◌ c s) = true

-- `isinstance(v, str) and v`
abbrev filled_text : Value → Result String
filled_text (str s) = guard (is_filled s) (toolkit_error fatal) >> ok s
filled_text _ = refuse

-- `isinstance(v, list)`, with a test of every item
abbrev texts : (String → Bool) → Elements → Result (List String)
texts p nil = ok []
texts p (cons (str s) xs) =
    guard (p s) (toolkit_error fatal) >> (texts p xs >>= λ rest. ok (s ∷ rest))
texts p (cons _ xs) = refuse

abbrev text_list : (String → Bool) → Value → Result (List String)
text_list p (arr xs) = texts p xs
text_list p _ = refuse

-- `isinstance(env, dict)`, with texts in it
abbrev text_fields : Entries → Result (Dict String)
text_fields end = ok []
text_fields (field k (str s) d) = text_fields d >>= λ rest. ok ((k, s) ∷ rest)
text_fields (field k _ d) = refuse

abbrev text_dict : Value → Result (Dict String)
text_dict (obj d) = text_fields d
text_dict _ = refuse

abbrev a_boolean : Value → Result Bool
a_boolean (bool b) = ok b
a_boolean _ = refuse

-- `"=" in s or "\x00" in s`
abbrev has_bad_char : String → Bool
has_bad_char String.[] = false
has_bad_char (String.◌∷◌ c s) = code c == b'=' || code c == 0 || has_bad_char s

abbrev or_value : Option Value → Value → Value
or_value = or_else

module _ (fs : FileSystem) where
  -- an existing absolute directory
  abbrev is_directory : String → Bool
  is_directory path = fs.isabs path && fs.isdir path

  abbrev relative_entries : Dict String → List String
  relative_entries env =
      keep (λ entry. is_filled entry && not (fs.isabs entry))
        (fs.split_path (or_else (get env "PATH") ""))

  abbrev is_empty {ℓ} : {A : Type ℓ} → List A → Bool
  is_empty [] = true
  is_empty (x ∷ xs) = false

  abbrev found_command : Option String → Result String
  found_command none = refuse
  found_command (some path) = ok (fs.abspath path)

  -- The command that is launched: found on the definition's own PATH, whose entries are absolute.
  abbrev launch_command : (command : String) (env : Dict String) → Result String
  launch_command command env = do
    guard (fs.isabs command || is_some (get env "PATH")) (toolkit_error fatal)
    guard (is_empty (relative_entries env)) (toolkit_error fatal)
    found_command (fs.which command (or_else (get env "PATH") ""))

  -- one round of the loop over `raw.items()`, in the order of the source's checks
  unfoldable pub parse_definition : (name : String) → Value → Result ServerDefinition
  unfolding get get_field
  parse_definition name (obj d) = do
    guard (is_filled name) (toolkit_error fatal)
    command ← filled_text (or_value (get_field d "command") null)
    args ← text_list (λ s. true) (or_value (get_field d "args") (arr nil))
    env ← text_dict (or_value (get_field d "env") (obj end))
    auth_env ← filled_text (or_value (get_field d "auth_env") (str "MCP_AUTH_TOKEN"))
    guard (not (has_bad_char auth_env)) (toolkit_error fatal)
    cwd ← filled_text (or_value (get_field d "cwd") null)
    guard (is_directory cwd) (toolkit_error fatal)
    discovery ← a_boolean (or_value (get_field d "authenticate_discovery") (bool false))
    read_only ← text_list is_filled (or_value (get_field d "read_only_tools") (arr nil))
    launched ← launch_command command env
    guard (is_directory (fs.realpath cwd)) (toolkit_error fatal)
    ok (record {
      name = name;
      command = launched;
      cwd = fs.realpath cwd;
      args = args;
      env = fs.sorted_items env;
      auth_env = auth_env;
      authenticate_discovery = discovery;
      read_only_tools = read_only;
      command_target = fs.realpath launched;
    })
  parse_definition name _ = refuse

  unfoldable pub parse_definitions :
      Entries → Dict ServerDefinition → Result (Dict ServerDefinition)
  unfolding parse_definition put
  parse_definitions end parsed = ok parsed
  parse_definitions (field name v raw) parsed =
      parse_definition name v >>= λ definition. parse_definitions raw (put parsed name definition)

  -- parse_server_allowlist
  unfoldable pub parse_server_allowlist : Value → Result (Option (Dict ServerDefinition))
  unfolding parse_definitions
  parse_server_allowlist (obj (field name v raw)) =
      parse_definitions (field name v raw) [] >>= λ parsed. ok (some parsed)
  parse_server_allowlist _ = ok none

abbrev or_refuse {ℓ} : {A : Type ℓ} → Option A → Result A
or_refuse none = refuse
or_refuse (some a) = ok a

abbrev launch_keys : List String
launch_keys = "command" ∷ "args" ∷ "env" ∷ "cwd" ∷ []

-- check_endpoint_allowed
unfoldable pub check_endpoint_allowed :
    (config : Entries) → Option (Dict ServerDefinition) → Result ServerDefinition
unfolding get get_field
check_endpoint_allowed config none = refuse
check_endpoint_allowed config (some []) = refuse
check_endpoint_allowed config (some (entry ∷ allowlist)) = do
  guard (not (any (λ key. is_some (get_field config key)) launch_keys)) (toolkit_error fatal)
  name ← filled_text (or_value (get_field config "server") null)
  or_refuse (get (entry ∷ allowlist) name)

abbrev some_list : List String → Result (Option (List String))
some_list [] = refuse
some_list (t ∷ ts) = ok (some (t ∷ ts))

-- _allowed_tools
unfoldable pub allowed_tools : Option Value → Result (Option (List String))
allowed_tools none = ok none
allowed_tools (some null) = ok none
allowed_tools (some v) = text_list is_filled v >>= some_list

abbrev is_stdio : Value → Bool
is_stdio (str s) = str_eq s "stdio"
is_stdio _ = false

-- McpServerHandler.__init__
unfoldable pub new_handler :
    (toolkit_id : String) (config : Entries)
    → ServerDefinition
    → (get_auth_token : Option (Result (Option Token))) (has_store : Bool) → Result McpServer
unfolding allowed_tools get_field
new_handler toolkit_id config server get_auth_token has_store = do
  guard (is_stdio (or_value (get_field config "transport") (str "stdio"))) (toolkit_error fatal)
  allowed ← allowed_tools (get_field config "allowed_tools")
  ok (record {
    toolkit_id = toolkit_id;
    server = server;
    allowed_tools = allowed;
    get_auth_token = get_auth_token;
    has_store = has_store;
  })
