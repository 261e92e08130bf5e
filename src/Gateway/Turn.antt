-- ===== src/Gateway/Turn.antt =====
-- One entry of the chain runs a node's turn: `_run_tool_loop` with its tool calls, `_run_guided`,
-- and `_run_one_llm`, which chooses between them.
pub mod Rounds
pub mod Node
pub mod Requests
pub mod Granted
pub mod Balanced
use ravana.Prelude.{
  ℕ, zero, suc, ◌+◌, String, Bool, true, false, not, Option, none, some, List, [], ◌∷◌, ◌++◌, map,
  keep, any, contains, length, str_eq, ltb, leb, if◌then◌else◌,
}
use ravana.Prelude.Int.{ℤ, pos, ◌+ℤ◌}
use ravana.Exception.{
  Exception, toolkit_error, ToolFailureKind, transient, fatal, model_addressable, outcome_unknown,
  runtime_error, transient_error, agent_output_error, value_error, Result, ok, raise, guard, ◌>>=◌,
  ◌>>◌,
}
use ravana.Dict.{Dict}
use ravana.Value.{Value, str, obj, State}
use ravana.Schema.{GraphGuards}
use ravana.Usage.{ToolCall}
use ravana.Secrets.Known.{ensure_secret_free}
use ravana.Tools.{Tool, tools_for}
use ravana.Tools.Execute.{Executor, ToolRequest, execute, Tools}
use ravana.Loop.{KeyParts}
use ravana.Gateway.Steps.{and_then}
use ravana.Gateway.{
  submit_result, LlmConfig, ModelCall, Prompt, respond_with_json, complete_task, invalid_output,
  call_submit_result, Refusal, not_available, over_budget, tool_failed, submit_ignored, said,
  refused, Message, user_message, assistant_message, tool_result, ProviderRequest, ProviderResponse,
  World, Adapter, use_guided, Strategy, select_strategy, adapter_for, resolve_api_key, entries_of,
  ensure_response_secret_free, ask, parse_json,
}

-- AgentTurnResult as the gateway builds it: the payload is what the model wrote.
pub record TurnResult : Type 0 where
  pub structured_payload : Value
  pub content : Option String
  pub tool_calls : List ToolCall
  pub input_tokens : ℤ
  pub output_tokens : ℤ
  pub repair_count : ℕ
  pub tool_call_count : ℕ

-- What stands fixed during a turn: the node, its contract, the executor with the preparation of
-- its handlers, and the libraries' parts: `json.loads`, `validate_json` and the key's digest.
pub record TurnEnv : Type 0 where
  pub run_id : String
  pub node_id : String
  pub logical_visit_id : ℕ
  pub guards : GraphGuards
  pub toolkits : List String
  pub output_schema : Value
  pub executor : Executor
  pub prepare_tools : List String → Result (Unit {0})
  pub loads : String → Option Value
  pub validate_json : Value → Value → Bool
  pub digest : KeyParts → String
  pub adapters : Dict Adapter
  pub secret_resolver : Option (String → Result String)

-- The locals of a try of one entry.
pub record Entry : Type 0 where
  pub llm : LlmConfig
  pub adapter : Adapter
  pub api_key : Option String

-- The local variables of the loops.
pub record Turn : Type 0 where
  pub messages : List Message
  pub tool_call_count : ℕ
  pub repair_count : ℕ
  pub input_tokens : ℤ
  pub output_tokens : ℤ
  pub recorded : List ToolCall

abbrev pub first_turn : Prompt → Turn
first_turn prompt = record {
  messages = user_message prompt ∷ [];
  tool_call_count = 0;
  repair_count = 0;
  input_tokens = pos 0;
  output_tokens = pos 0;
  recorded = [];
}

abbrev pub say : Message → Turn → Turn
say m t = record t { messages = t.messages ++ (m ∷ []) }

-- _error_result
abbrev pub refuse : Refusal → ModelCall → Turn → Turn
refuse why tc t = say (tool_result tc.id tc.tool (refused why)) t

abbrev pub counted : Turn → Turn
counted t = record t { tool_call_count = t.tool_call_count + 1 }

abbrev pub repaired : Prompt → Turn → Turn
repaired prompt t = say (user_message prompt) (record t { repair_count = t.repair_count + 1 })

abbrev pub metered : ProviderResponse → Turn → Turn
metered r t = record t {
  input_tokens = t.input_tokens +ℤ r.input_tokens;
  output_tokens = t.output_tokens +ℤ r.output_tokens;
}

-- The handler of ToolkitError; `ToolOutcomeUnknown` is a fatal one.
abbrev pub call_failed : Exception → ModelCall → Turn → Result Turn
call_failed (toolkit_error fatal) tc t = raise runtime_error
call_failed (toolkit_error transient) tc t = raise transient_error
call_failed (toolkit_error model_addressable) tc t = ok (refuse tool_failed tc t)
call_failed outcome_unknown tc t = raise runtime_error
call_failed e tc t = raise e

abbrev pub key_parts : TurnEnv → ModelCall → Turn → KeyParts
key_parts e tc t = record {
  node_id = e.node_id;
  logical_visit_id = e.logical_visit_id;
  tool_call_ordinal = t.tool_call_count;
  tool = tc.tool;
  arguments = tc.arguments;
}

abbrev pub request_of : TurnEnv → ModelCall → Turn → ToolRequest
request_of e tc t = record {
  run_id = e.run_id;
  node_id = e.node_id;
  tool = tc.tool;
  arguments = tc.arguments;
  idempotency_key = e.digest (key_parts e tc t);
}

abbrev pub recorded_call : TurnEnv → ModelCall → Turn → ToolCall
recorded_call e tc t = record {
  tool = tc.tool;
  arguments = tc.arguments;
  logical_visit_id = some e.logical_visit_id;
  tool_call_ordinal = some t.tool_call_count;
  idempotency_key = some (e.digest (key_parts e tc t));
}

abbrev pub call_answered : TurnEnv → ModelCall → Turn → Result String → Result Turn
call_answered e tc t (raise ex) = call_failed ex tc t
call_answered e tc t (ok result) = do
  ensure_secret_free none (str result)
  ok (
      say (tool_result tc.id tc.tool (said result))
        (record t { recorded = t.recorded ++ (recorded_call e tc t ∷ []) }))

abbrev pub dispatch_tool : TurnEnv → ModelCall → Turn → World → Result Turn × World
dispatch_tool e tc t w =
    let done = execute e.executor (request_of e tc t) w.tools in
    (
      call_answered e tc t done.0,
      record w {
        dispatched = (t.tool_call_count, request_of e tc t) ∷ w.dispatched;
        tools = done.1;
      },
    )

-- the body of `for tc in other_calls`, after the count
abbrev pub call_counted : TurnEnv → List String → ModelCall → Turn → World → Result Turn × World
call_counted e allowed tc t w =
    if not (contains allowed tc.tool)
    then (ok (refuse not_available tc t), w)
    else (if ltb e.guards.max_tool_calls_per_turn t.tool_call_count
        then (ok (refuse over_budget tc t), w)
        else dispatch_tool e tc t w)

abbrev pub call_tool : TurnEnv → List String → ModelCall → Turn → World → Result Turn × World
call_tool e allowed tc t w = call_counted e allowed tc (counted t) w

unfoldable pub call_tools :
    TurnEnv → List String → List ModelCall → Turn → World → Result Turn × World
call_tools e allowed [] t w = (ok t, w)
call_tools e allowed (tc ∷ tcs) t w =
    and_then (call_tool e allowed tc t w) (call_tools e allowed tcs)

abbrev pub ignore_all : List ModelCall → Turn → Turn
ignore_all [] t = t
ignore_all (sc ∷ scs) t = ignore_all scs (refuse submit_ignored sc t)
