-- ===== src/Samples/Servers.antt =====
-- Tests and examples of runtime/toolkits/mcp_server.py.
use Prim.Native.String.{◌++◌}
use ravana.Prelude.{
  ℕ, zero, suc, ◌≡◌, ◌≤◌, refl, is_some, String, true, false, Option, none, some, List, [], ◌∷◌,
}
use ravana.Exception.{
  toolkit_error, fatal, transient, outcome_unknown, model_addressable, ok, raise, Returns,
}
use ravana.Text.{length, take, drop, span, after_prefix, strip}
use ravana.Secrets.{redact_secrets}
use ravana.Secrets.Known.{replace, contains_known, ensure_secret_free}
use ravana.Dict.{Dict, get, put}
use ravana.Value.{Value, get_field, str, obj, arr, nil, cons, end, field}
use ravana.Tools.{Tool, pinned_tools, matches, resolve}
use ravana.Mcp.{
  ServerDefinition, McpServer, Pins, plain, unqualified, is_provider_name, failure_for_phase,
  child_environment, screen, is_side_effecting_for_tool,
}
use ravana.Mcp.Allow.{
  FileSystem, parse_definition, parse_definitions, allowed_tools, parse_server_allowlist,
  check_endpoint_allowed, new_handler,
}
use ravana.Mcp.Pin.{ToolSpec, Page, pin_tool, pin_page, pin_pages, pin_tools}
use ravana.Mcp.Session.{returned, failed, Session, McpEnv}
use ravana.Mcp.Handler.{discover_tools, prepare_run, sub_tools_for, resolve_sub_tool}
use ravana.Mcp.Call.{render, call_once, call}
use ravana.Mcp.Usable.{Usable, pin_tools-Usable}
use ravana.Mcp.Frozen.{Event, prepares, releases, after, sub_tools_for-after}
use ravana.Tools.Ledger.{claim, record_outcome, record_indeterminate}
use ravana.Tools.Execute.{Executor, Tools, ToolRequest, make_ready, begin, settle, execute}
use ravana.Tools.Once.{executed, Reachable, fresh_tools, allowance, status_of}
use ravana.Mcp.Executed.{Installed, as_handler, dispatches}
use ravana.Mcp.Executed.Once.{dispatched_once}
use ravana.Mcp.Safe.{IsSettled, call-IsSettled}

abbrev definition : ServerDefinition
definition = record {
  name = "issues";
  command = "/opt/issues";
  cwd = "/srv";
  args = [];
  env = [];
  auth_env = "MCP_AUTH_TOKEN";
  authenticate_discovery = false;
  read_only_tools = "list" ∷ [];
  command_target = "/opt/issues";
}

abbrev server : McpServer
server = record {
  toolkit_id = "gh";
  server = definition;
  allowed_tools = none;
  get_auth_token = some (ok (some (plain "s3cret-value")));
  has_store = false;
}

abbrev spec : String → ToolSpec
spec name = record { name = name; description = none; input_schema = obj end }

-- Two pages, the second one asked for by its cursor.
abbrev two_pages : ℕ → Option String → Page
two_pages zero cursor = record { tools = spec "list" ∷ []; next_cursor = some (str "more") }
two_pages (suc n) cursor = record { tools = spec "close" ∷ []; next_cursor = none }

abbrev same_page : ℕ → Option String → Page
same_page n cursor = record { tools = spec "list" ∷ []; next_cursor = some (str "more") }

abbrev session : (ℕ → Option String → Page) → Session
session pages = record {
  opened = returned tt;
  list_tools = λ n cursor. returned (pages n cursor);
  call_tool = failed;
  closed = returned tt;
}

abbrev env : Session → McpEnv
env s = record {
  loads = λ s. none;
  dumps = λ v. "";
  snapshot_fingerprint = λ h. "f";
  repr = λ s. s;
  now = 0;
  session = λ variables. s;
  pages = 9;
  by_timeout = false;
}

abbrev unprepared : Pins
unprepared = record { pinned_by_run = []; executable = false; rows = [] }

abbrev pinned : String → Tool
pinned name = record { name = name; description = name ++ " (via gh)"; input_schema = obj end }

abbrev both : Dict Tool
both = ("list", pinned "list") ∷ ("close", pinned "close") ∷ []

abbrev prepared : Pins
prepared = record { pinned_by_run = ("run", both) ∷ []; executable = true; rows = [] }

pins_both : prepare_run (env (session two_pages)) server "run" unprepared ≡ (ok tt, prepared)
unfolding get put length take drop span after_prefix strip redact_secrets replace contains_known
    ensure_secret_free screen child_environment pin_tools pin_pages pin_page pin_tool discover_tools
    prepare_run failure_for_phase unqualified is_provider_name resolve_sub_tool call_once call
    render
pins_both = refl

refuses_loop :
    prepare_run (env (session same_page)) server "run" unprepared
    ≡ (raise (toolkit_error fatal), unprepared)
unfolding get put length take drop span after_prefix strip redact_secrets replace contains_known
    ensure_secret_free screen child_environment pin_tools pin_pages pin_page pin_tool discover_tools
    prepare_run failure_for_phase unqualified is_provider_name resolve_sub_tool call_once call
    render
refuses_loop = refl

unknown_outcome :
    call (env (session two_pages)) server "run" (some "gh__close") prepared
    ≡ (raise outcome_unknown, true)
unfolding get put length take drop span after_prefix strip redact_secrets replace contains_known
    ensure_secret_free screen child_environment pin_tools pin_pages pin_page pin_tool discover_tools
    prepare_run failure_for_phase unqualified is_provider_name resolve_sub_tool call_once call
    render
unknown_outcome = refl

read_only_again :
    call (env (session two_pages)) server "run" (some "gh__list") prepared
    ≡ (raise (toolkit_error transient), true)
unfolding get put length take drop span after_prefix strip redact_secrets replace contains_known
    ensure_secret_free screen child_environment pin_tools pin_pages pin_page pin_tool discover_tools
    prepare_run failure_for_phase unqualified is_provider_name resolve_sub_tool call_once call
    render
read_only_again = refl

not_pinned :
    call (env (session two_pages)) server "run" (some "gh__delete") prepared
    ≡ (raise (toolkit_error model_addressable), false)
unfolding get put length take drop span after_prefix strip redact_secrets replace contains_known
    ensure_secret_free screen child_environment pin_tools pin_pages pin_page pin_tool discover_tools
    prepare_run failure_for_phase unqualified is_provider_name resolve_sub_tool call_once call
    render
not_pinned = refl

pin_tools-Usable_example :
    Returns (Usable server none) (pin_tools server none (λ n cursor. ok (two_pages n cursor)) 9)
pin_tools-Usable_example = pin_tools-Usable server none (λ n cursor. ok (two_pages n cursor)) 9

close_has_effect : is_side_effecting_for_tool server "close" ≡ true
unfolding unqualified after_prefix
close_has_effect = refl

call-IsSettled_example :
    IsSettled (call (env (session two_pages)) server "run" (some "close") prepared)
call-IsSettled_example =
    call-IsSettled (env (session two_pages)) server "run" "close" prepared close_has_effect

-- Another run is prepared and released meanwhile, when the server lists other tools.
abbrev meanwhile : List Event
meanwhile = prepares (env (session same_page)) "other" ∷ releases [] "other" ∷ []

run_is_pinned : get prepared.pinned_by_run "run" ≡ some both
unfolding get
run_is_pinned = refl

sub_tools_for-after_example :
    (sub_tools_for (λ s. s) server "run" (after server meanwhile prepared)
      ≡ sub_tools_for (λ s. s) server "run" prepared)
    × (resolve_sub_tool server "run" (some "list") (after server meanwhile prepared)
        ≡ resolve_sub_tool server "run" (some "list") prepared)
sub_tools_for-after_example =
    sub_tools_for-after server "run" both prepared meanwhile run_is_pinned refl (λ s. s)
      (some "list")

abbrev installed : Installed
installed = record {
  description = "";
  meets = λ calls. env (session two_pages);
  repr = λ s. s;
  server = server;
  pins = prepared;
}

abbrev only_gh : Executor
only_gh = record {
  handlers = ("gh", as_handler installed) ∷ [];
  validate_json = λ arguments schema. true;
}

abbrev closing_request : ToolRequest
closing_request = record {
  run_id = "run";
  node_id = "draft";
  tool = "gh__close";
  arguments = [];
  idempotency_key = "key";
}

abbrev closed_once : Tools
closed_once = (execute only_gh closing_request fresh_tools).1

-- The call fails after its dispatch: the second request with its key is refused.
refused_again : (execute only_gh closing_request closed_once).0 ≡ raise (toolkit_error fatal)
unfolding get put length take drop span after_prefix redact_secrets replace contains_known
    ensure_secret_free screen child_environment failure_for_phase unqualified resolve_sub_tool
    call_once call as_handler sub_tools_for pinned_tools matches resolve make_ready claim begin
    settle record_outcome record_indeterminate execute ravana.Tools.sub_tools_for
    ravana.Tools.Snapshot.leb_text
refused_again = refl

dispatched_once_example :
    (dispatches installed "key" closed_once.calls
      ≤ allowance (status_of closed_once.ledger.current "key"))
    × (dispatches installed "key" closed_once.calls ≤ 1)
dispatched_once_example =
    dispatched_once installed only_gh (refl, tt)
      (Reachable.next Reachable.start (executed closing_request fresh_tools)) "key"

abbrev files : FileSystem
files = record {
  isabs = λ path. is_some (after_prefix "/" path);
  isdir = λ path. true;
  abspath = λ path. path;
  realpath = λ path. path;
  which = λ command path. some command;
  split_path = λ path. path ∷ [];
  sorted_items = λ d. d;
}

abbrev allow_list : Value
allow_list = obj (
    field "issues"
      (obj (
        field "command" (str "/opt/issues")
          (field "cwd" (str "/srv") (field "read_only_tools" (arr (cons (str "list") nil)) end))))
      end)

allows : parse_server_allowlist files allow_list ≡ ok (some (("issues", definition) ∷ []))
unfolding get put get_field after_prefix parse_definition parse_definitions parse_server_allowlist
    check_endpoint_allowed allowed_tools new_handler
allows = refl

refuses_command :
    check_endpoint_allowed
      (field "server" (str "issues") (field "command" (str "/bin/sh") end))
      (some (("issues", definition) ∷ []))
    ≡ raise (toolkit_error fatal)
unfolding get put get_field after_prefix parse_definition parse_definitions parse_server_allowlist
    check_endpoint_allowed allowed_tools new_handler
refuses_command = refl

hands_over :
    check_endpoint_allowed (field "server" (str "issues") end) (some (("issues", definition) ∷ []))
    ≡ ok definition
unfolding get put get_field after_prefix parse_definition parse_definitions parse_server_allowlist
    check_endpoint_allowed allowed_tools new_handler
hands_over = refl

refuses_sse :
    new_handler "gh" (field "transport" (str "sse") end) definition none false
    ≡ raise (toolkit_error fatal)
unfolding get put get_field after_prefix parse_definition parse_definitions parse_server_allowlist
    check_endpoint_allowed allowed_tools new_handler
refuses_sse = refl
