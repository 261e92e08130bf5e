-- ===== src/Samples/Calls.antt =====
-- The theorems on the tool executor at a handler that deploys.
use ravana.Prelude.{
  ◌≤◌, All, Option, String, str_eq, if◌then◌else◌, false, some, ◌≡◌, refl, true, none, [], ◌∷◌,
}
use ravana.Tools.{Tool, tools_for, offers, all_pinned}
use ravana.Tools.Offered.Resolves.{Resolves, tools_for-Resolves}
use ravana.Tools.Snapshot.{restore, persist}
use ravana.Tools.Snapshot.Roundtrip.{restored, restore-persist}
use ravana.Exception.{toolkit_error, transient, ok, raise}
use ravana.Dict.{Dict, get, put}
use ravana.Value.{Value, null, bool, str, obj, Entries, end, field}
use ravana.Tools.{Handler, sub_tools_for, pinned_tools, matches, resolve}
use ravana.Tools.Ledger.{claim, record_outcome}
use ravana.Tools.Execute.{
  Executor, Tools, ToolRequest, Ready, make_ready, begin, settle, execute, die,
}
use ravana.Tools.Once.{
  fresh_tools, start, next, executed, died, times_unfailed, allowance, status_of,
}
use ravana.Tools.Once.Order.{FailedBefore, Reachable-FailedBefore}
use ravana.Tools.Once.Replay.{same, after, execute-again}

abbrev pub deploy : Handler
deploy = record {
  description = "deploys";
  input_schema = null;
  executable = true;
  sub_tools = none;
  is_prepared_for = none;
  input_schema_for_tool = none;
  is_side_effecting = λ arguments. true;
  is_side_effecting_for_tool = none;
  call = λ request calls. ok "deployed";
}

abbrev pub executor : Executor
executor = record { handlers = ("deploy", deploy) ∷ []; validate_json = λ arguments schema. true }

-- A handler that times out.
abbrev slow : Executor
slow = record executor {
  handlers =
      ("deploy", record deploy { call = λ request calls. raise (toolkit_error transient) }) ∷ [];
}

abbrev request : ToolRequest
request = record {
  run_id = "run";
  node_id = "draft";
  tool = "deploy";
  arguments = [];
  idempotency_key = "key";
}

abbrev ready : Ready
ready = record {
  handler = deploy;
  call = record { run_id = "run"; sub_tool = none; arguments = []; idempotency_key = "key" };
  side_effecting = true;
}

abbrev other : ToolRequest
other = record request { idempotency_key = "other" }

abbrev failed_once : Tools
failed_once = (execute slow request fresh_tools).1

-- A call that times out, then the same request again, in a process that dies.
Reachable-FailedBefore_example :
    FailedBefore (die slow request true failed_once).calls
    × ((key : String)
        → times_unfailed (die slow request true failed_once).calls key
          ≤ allowance (status_of (die slow request true failed_once).ledger.current key))
Reachable-FailedBefore_example =
    Reachable-FailedBefore slow
      (next (next start (executed request fresh_tools)) (died request true failed_once))

abbrev deployed : Tools
deployed = (execute executor request fresh_tools).1

-- A process dies in another request in between.
execute-again_example :
    execute executor request (die executor other true deployed)
    ≡ (ok "deployed", die executor other true deployed)
unfolding execute begin make_ready resolve matches pinned_tools sub_tools_for settle claim
    record_outcome get put
execute-again_example =
    execute-again executor request ready fresh_tools (die executor other true deployed) "deployed"
      start refl refl refl (after same (died other true deployed))

-- A schema, and the same with its keys sorted.
abbrev schema : Entries
schema = field "type" (str "object") (field "additionalProperties" (bool false) end)

abbrev sorted_schema : Entries
sorted_schema = field "additionalProperties" (bool false) (field "type" (str "object") end)

abbrev find_tool : Tool
find_tool = record { name = "find"; description = "finds"; input_schema = obj schema }

abbrev get_tool : Tool
get_tool = record { name = "get"; description = "gets"; input_schema = obj schema }

-- A handler with two tools of its own.
abbrev server : Handler
server = record deploy { sub_tools = some (λ run_id. ok (get_tool ∷ find_tool ∷ [])) }

abbrev handlers : Dict Handler
handlers = ("deploy", deploy) ∷ ("server", server) ∷ []

abbrev deploy_tool : Tool
deploy_tool = record { name = "deploy"; description = "deploys"; input_schema = null }

tools_for-Resolves_example : All (Resolves handlers "run") (deploy_tool ∷ get_tool ∷ find_tool ∷ [])
unfolding tools_for offers all_pinned pinned_tools sub_tools_for get
tools_for-Resolves_example =
    tools_for-Resolves handlers ("deploy" ∷ "server" ∷ []) "run"
      (deploy_tool ∷ get_tool ∷ find_tool ∷ []) refl

-- `json` on one document.
abbrev dumps : Value → String
dumps v = "{\"additionalProperties\":false,\"type\":\"object\"}"

abbrev loads : String → Option Value
loads text = if str_eq text (dumps null) then some (obj sorted_schema) else none

abbrev sort_keys : Entries → Entries
sort_keys d = sorted_schema

restore-persist_example :
    (pinned : Dict Tool) × (restore loads "run" "mcp" "print"
        (persist dumps 5 "run" "mcp" "print" (("get", get_tool) ∷ ("find", find_tool) ∷ []) [])
      ≡ ok (some pinned))
    × ((name : String)
        → get pinned name
          ≡ restored sort_keys name (get (("get", get_tool) ∷ ("find", find_tool) ∷ []) name))
restore-persist_example =
    restore-persist dumps loads sort_keys 5 "run" "mcp" "print" "get" get_tool
      (("find", find_tool) ∷ []) [] (refl, (refl, tt))
      ((schema, refl, refl), ((schema, refl, refl), tt))
