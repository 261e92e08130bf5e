-- ===== src/Gateway/Turn/Rounds.antt =====
-- The loops of a turn: `_run_tool_loop` and `_run_guided` from their first request to the last, and
-- `_run_one_llm`. Both loops count against a fixed ceiling, so they recurse on what is left of it.
use ravana.Prelude.{
  ℕ, zero, suc, ◌+◌, String, Bool, true, false, not, Option, none, some, List, [], ◌∷◌, ◌++◌, map,
  keep, any, length, str_eq, leb, if◌then◌else◌,
}
use ravana.Exception.{
  Exception, toolkit_error, transient, outcome_unknown, runtime_error, transient_error,
  agent_output_error, value_error, Result, ok, raise, guard,
}
use ravana.Value.{Value, obj}
use ravana.Tools.{Tool, tools_for}
use ravana.Gateway.{
  submit_result, LlmConfig, ModelCall, respond_with_json, complete_task, invalid_output,
  call_submit_result, user_message, assistant_message, ProviderRequest, ProviderResponse, World,
  Adapter, Strategy, use_guided, select_strategy, adapter_for, resolve_api_key, entries_of,
  ensure_response_secret_free, ask, parse_json,
}
use ravana.Gateway.Steps.{and_then}
use ravana.Gateway.Turn.{
  TurnResult, TurnEnv, Entry, Turn, first_turn, say, counted, repaired, metered, call_tools,
  ignore_all,
}

pub data Round : Type 0 where
  again : Turn → Round
  finished : TurnResult → Round

abbrev pub is_submit : ModelCall → Bool
is_submit tc = str_eq tc.tool submit_result

abbrev pub is_other : ModelCall → Bool
is_other tc = not (str_eq tc.tool submit_result)

abbrev pub turn_result : Value → ProviderResponse → Turn → TurnResult
turn_result payload r t = record {
  structured_payload = payload;
  content = r.text;
  tool_calls = t.recorded;
  input_tokens = t.input_tokens;
  output_tokens = t.output_tokens;
  repair_count = t.repair_count;
  tool_call_count = length t.recorded;
}

abbrev pub payload_of : ModelCall → Value
payload_of submit = obj (entries_of submit.arguments)

-- `if submit is not None`
abbrev pub submitted : TurnEnv → ProviderResponse → ModelCall → Turn → Result Round
submitted e r submit t =
    if e.validate_json (payload_of submit) e.output_schema
    then ok (finished (turn_result (payload_of submit) r t))
    else (if leb e.guards.max_output_repairs t.repair_count
        then raise agent_output_error
        else ok (again (repaired invalid_output t)))

abbrev pub nudged : Turn → Turn
nudged t = counted (say (user_message call_submit_result) t)

-- What follows a response, by its other calls and its submissions.
abbrev pub answer_with :
    TurnEnv
    → List String
    → ProviderResponse
    → List ModelCall
    → List ModelCall
    → Turn
    → World
    → Result Round × World
answer_with e allowed r (tc ∷ tcs) submits t w =
    and_then (call_tools e allowed (tc ∷ tcs) (say (assistant_message r.tool_calls r.text) t) w)
      (λ u v. (ok (again (ignore_all submits u)), v))
answer_with e allowed r [] (sc ∷ scs) t w = (submitted e r sc t, w)
answer_with e allowed r [] [] t w = (ok (again (nudged t)), w)

abbrev pub answer_response :
    TurnEnv → List String → ProviderResponse → Turn → World → Result Round × World
answer_response e allowed r t w =
    answer_with e allowed r (keep is_other r.tool_calls) (keep is_submit r.tool_calls) t w

abbrev pub submit_tool : Value → Tool
submit_tool schema = record {
  name = submit_result;
  description = "Call this exactly once, when done, to submit your final structured result.";
  input_schema = schema;
}

abbrev pub loop_request : TurnEnv → Entry → List Tool → Turn → ProviderRequest
loop_request e entry agent_tools t = record {
  llm = entry.llm;
  api_key = entry.api_key;
  messages = t.messages;
  tools = agent_tools ++ (submit_tool e.output_schema ∷ []);
  force_tool =
      if leb e.guards.max_tool_calls_per_turn t.tool_call_count then some submit_result else none;
  output_schema = none;
}

abbrev pub tool_names : List Tool → List String
tool_names tools = map (λ t. t.name) tools

abbrev pub screened :
    Entry → ProviderResponse → World → (World → Result Round × World) → Result Round × World
screened entry r w next =
    and_then (ensure_response_secret_free entry.api_key r, w) (λ done_ v. next v)

-- One round of `while True` below the ceiling.
abbrev pub round : TurnEnv → Entry → List Tool → Turn → World → Result Round × World
round e entry agent_tools t w =
    and_then (ask entry.adapter (loop_request e entry agent_tools t) w)
      (λ r v. screened entry r v (answer_response e (tool_names agent_tools) r (metered r t)))

abbrev pub next_round :
    (Turn → World → Result TurnResult × World) → Round → World → Result TurnResult × World
next_round loop (again t) w = loop t w
next_round loop (finished result) w = (ok result, w)

-- The loop with `max_model_calls - model_calls` rounds left.
unfoldable pub tool_loop :
    TurnEnv → Entry → List Tool → ℕ → Turn → World → Result TurnResult × World
tool_loop e entry agent_tools zero t w = (raise agent_output_error, w)
tool_loop e entry agent_tools (suc left) t w =
    and_then (round e entry agent_tools t w) (next_round (tool_loop e entry agent_tools left))

abbrev pub prepare_failed : Exception → Exception
prepare_failed (toolkit_error transient) = transient_error
prepare_failed (toolkit_error kind) = runtime_error
prepare_failed outcome_unknown = runtime_error
prepare_failed e = e

abbrev pub prepared : Result (Unit {0}) → Result (Unit {0})
prepared (ok done_) = ok tt
prepared (raise e) = raise (prepare_failed e)

abbrev pub max_model_calls : TurnEnv → ℕ
max_model_calls e = e.guards.max_tool_calls_per_turn + e.guards.max_output_repairs + 2

unfoldable pub run_tool_loop : TurnEnv → Entry → World → Result TurnResult × World
run_tool_loop e entry w =
    and_then (prepared (e.prepare_tools e.toolkits), w)
      (λ done_ v.
        and_then (tools_for e.executor.handlers e.toolkits (some e.run_id), v)
          (λ agent_tools v.
            and_then
              (guard (not (any (λ t. str_eq t.name submit_result) agent_tools)) value_error, v)
              (λ done_ v.
                tool_loop e entry agent_tools (max_model_calls e) (first_turn complete_task) v)))

abbrev guided_request : TurnEnv → Entry → Turn → ProviderRequest
guided_request e entry t = record {
  llm = entry.llm;
  api_key = entry.api_key;
  messages = t.messages;
  tools = [];
  force_tool = none;
  output_schema = some e.output_schema;
}

abbrev guided_payload : TurnEnv → ProviderResponse → Turn → Option Value → Result Round
guided_payload e r t (some payload) =
    if e.validate_json payload e.output_schema
    then ok (finished (turn_result payload r t))
    else ok (again (repaired invalid_output t))
guided_payload e r t none = ok (again (repaired invalid_output t))

abbrev pub guided_round : TurnEnv → Entry → Turn → World → Result Round × World
guided_round e entry t w = and_then (ask entry.adapter (guided_request e entry t) w) (λ r v.
    screened entry r v (λ v. (guided_payload e r (metered r t) (parse_json e.loads r.text), v)))

-- The loop with `max_output_repairs - repair_count` repairs left.
unfoldable pub guided_loop : TurnEnv → Entry → ℕ → Turn → World → Result TurnResult × World
guided_loop e entry zero t w =
    and_then (guided_round e entry t w) (next_round (λ t v. (raise agent_output_error, v)))
guided_loop e entry (suc left) t w =
    and_then (guided_round e entry t w) (next_round (guided_loop e entry left))

unfoldable pub run_guided : TurnEnv → Entry → World → Result TurnResult × World
run_guided e entry w =
    guided_loop e entry e.guards.max_output_repairs (first_turn respond_with_json) w

abbrev pub is_nil : List String → Bool
is_nil [] = true
is_nil (x ∷ xs) = false

abbrev pub run_strategy : TurnEnv → Entry → Strategy → World → Result TurnResult × World
run_strategy e entry use_guided w =
    if is_nil e.toolkits then run_guided e entry w else run_tool_loop e entry w
run_strategy e entry strategy w = run_tool_loop e entry w

abbrev run_entry : TurnEnv → LlmConfig → Adapter → Option String → World → Result TurnResult × World
run_entry e llm adapter api_key w =
    run_strategy e (record { llm = llm; adapter = adapter; api_key = api_key })
      (select_strategy adapter llm) w

-- _run_one_llm
unfoldable pub run_one_llm : TurnEnv → LlmConfig → World → Result TurnResult × World
run_one_llm e llm w =
    and_then (adapter_for e.adapters llm.provider, w)
      (λ adapter v. and_then (resolve_api_key e.secret_resolver llm, v) (run_entry e llm adapter))
