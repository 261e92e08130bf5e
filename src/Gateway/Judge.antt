-- ===== src/Gateway/Judge.antt =====
-- `judge_prose` and `_judge_completion`: a judge's verdicts on prose criteria, with one account of
-- tokens and one budget of repairs over all entries of the chain.
pub mod Billed
pub mod Asked
use ravana.Prelude.{
  ℕ, zero, suc, ◌+◌, ◌-◌, String, Bool, true, false, Option, none, some, List, [], ◌∷◌, ◌++◌,
  str_eq, if◌then◌else◌,
}
use ravana.Exception.{
  Exception, agent_output_error, cancelled_error, retry_safe_cancellation, type_error, Result, ok,
  raise,
}
use ravana.Dict.{Dict}
use ravana.Value.{Value, null, bool, int, str, arr, obj, nil, cons, Entries, end, field}
use ravana.Schema.{GraphGuards}
use ravana.Usage.{LlmUsage, an_int, add_usage}
use ravana.Tools.{Tool}
use ravana.Gateway.{
  submit_verdict, LlmConfig, ModelCall, rule_on_criteria, invalid_output, Message, user_message,
  ProviderRequest, ProviderResponse, World, Adapter, Strategy, use_guided, select_strategy,
  adapter_for, resolve_api_key, entries_of, ensure_response_secret_free, received, parse_json,
}
use ravana.Gateway.Steps.{and_then}
use ravana.Gateway.Fallback.{run_with_fallback}
use ravana.Gateway.Verdicts.{map_verdicts}

pub record JudgeEnv : Type 0 where
  pub guards : GraphGuards
  pub loads : String → Option Value
  pub validate_json : Value → Value → Bool
  pub adapters : Dict Adapter
  pub secret_resolver : Option (String → Result String)

-- _JudgeState, and the world around it
pub record JudgeState : Type 0 where
  pub world : World
  pub usage : LlmUsage
  pub repairs_used : ℕ

abbrev typed : String → Value
typed name = obj (field "type" (str name) end)

abbrev verdict_item : Value
verdict_item = obj (
    field "type" (str "object") (
      field "properties"
        (obj (
          field "index" (typed "integer")
            (field "met" (typed "boolean") (field "reason" (typed "string") end))))
        (field "required" (arr (cons (str "index") (cons (str "met") nil)))
          (field "additionalProperties" (bool false) end))))

-- _VERDICT_SCHEMA
abbrev pub verdict_schema : Value
verdict_schema = obj (
    field "type" (str "object") (
      field "properties"
        (obj (
          field "verdicts" (obj (field "type" (str "array") (field "items" verdict_item end))) end))
        (field "required" (arr (cons (str "verdicts") nil))
          (field "additionalProperties" (bool false) end))))

abbrev verdict_tool : Tool
verdict_tool = record {
  name = submit_verdict;
  description = "Submit your Definition-of-Done verdict, one entry per criterion.";
  input_schema = verdict_schema;
}

-- The locals of a try, as for a node's turn, with its messages.
pub record JudgeEntry : Type 0 where
  pub llm : LlmConfig
  pub adapter : Adapter
  pub api_key : Option String
  pub is_guided : Bool

abbrev pub judge_request : JudgeEntry → List Message → ProviderRequest
judge_request j messages = record {
  llm = j.llm;
  api_key = j.api_key;
  messages = messages;
  tools = if j.is_guided then [] else verdict_tool ∷ [];
  force_tool = if j.is_guided then none else some submit_verdict;
  output_schema = if j.is_guided then some verdict_schema else none;
}

abbrev in_world : {A : Type 0} → JudgeState → Result A × World → Result A × JudgeState
in_world js (a, w) = (a, record js { world = w })

-- `await adapter.complete(request)` within the judgement
abbrev pub ask_judge : JudgeEntry → List Message → JudgeState → Result ProviderResponse × JudgeState
ask_judge j messages js =
    let request = judge_request j messages in
    in_world js (received request js.world (j.adapter.complete request js.world))

abbrev pub billed_as : JudgeState → Result LlmUsage → Result (Unit {0}) × JudgeState
billed_as js (ok usage) = (ok tt, record js { usage = usage })
billed_as js (raise e) = (raise e, js)

-- state.usage = state.usage.add(…)
abbrev pub fold_usage : ProviderResponse → JudgeState → Result (Unit {0}) × JudgeState
fold_usage r js = billed_as js (add_usage js.usage (an_int r.input_tokens) (an_int r.output_tokens))

-- A forced judgement is exactly one `submit_verdict` call.
abbrev forced_payload : List ModelCall → Option Value
forced_payload [] = none
forced_payload (c ∷ []) =
    if str_eq c.tool submit_verdict then some (obj (entries_of c.arguments)) else none
forced_payload (c ∷ d ∷ cs) = none

abbrev valid_only : JudgeEnv → Option Value → Option Value
valid_only e none = none
valid_only e (some payload) = if e.validate_json payload verdict_schema then some payload else none

-- the payload of a response, unless it is invalid
abbrev pub payload_in : JudgeEnv → JudgeEntry → ProviderResponse → Option Value
payload_in e j r =
    valid_only e (if j.is_guided then parse_json e.loads r.text else forced_payload r.tool_calls)

-- One round of the loop: a valid payload, or none.
abbrev pub judge_round :
    JudgeEnv → JudgeEntry → List Message → JudgeState → Result (Option Value) × JudgeState
judge_round e j messages js = and_then (ask_judge j messages js) (λ r ks.
    and_then (fold_usage r ks) (λ done_ ls.
      and_then (ensure_response_secret_free j.api_key r, ls)
        (λ done_ ms. (ok (payload_in e j r), ms))))

abbrev pub repair : JudgeState → JudgeState
repair js = record js { repairs_used = js.repairs_used + 1 }

abbrev pub after_round :
    (JudgeState → Result Value × JudgeState) → Option Value → JudgeState → Result Value × JudgeState
after_round invalid (some payload) js = (ok payload, js)
after_round invalid none js = invalid js

-- The loop with `max_output_repairs - state.repairs_used` repairs left.
unfoldable pub judge_loop :
    JudgeEnv → JudgeEntry → ℕ → List Message → JudgeState → Result Value × JudgeState
judge_loop e j zero messages js =
    and_then (judge_round e j messages js) (after_round (λ ks. (raise agent_output_error, ks)))
judge_loop e j (suc left) messages js = and_then (judge_round e j messages js) (
    after_round
      (λ ks. judge_loop e j left (messages ++ (user_message invalid_output ∷ [])) (repair ks)))

abbrev guided_strategy : Strategy → Bool
guided_strategy use_guided = true
guided_strategy _ = false

abbrev pub judge_entry : LlmConfig → Adapter → Option String → JudgeEntry
judge_entry llm adapter api_key = record {
  llm = llm;
  adapter = adapter;
  api_key = api_key;
  is_guided = guided_strategy (select_strategy adapter llm);
}

-- _judge_completion
unfoldable pub judge_completion : JudgeEnv → LlmConfig → JudgeState → Result Value × JudgeState
judge_completion e llm js =
    and_then (adapter_for e.adapters llm.provider, js)
      (λ adapter ks.
        and_then (resolve_api_key e.secret_resolver llm, ks)
          (λ api_key ls.
            judge_loop e (judge_entry llm adapter api_key)
              (e.guards.max_output_repairs - ls.repairs_used) (user_message rule_on_criteria ∷ [])
              ls))

-- What `judge_prose` does: a judgement, a ProseJudgementError with the usage, or another exception.
pub data Judged : Type 0 where
  judgement : List Bool → LlmUsage → Judged
  judgement_failed : LlmUsage → Judged
  judgement_raised : Exception → Judged

abbrev mapped : ℕ → LlmUsage → Value → Judged
mapped n usage (obj payload) = judgement (map_verdicts payload n) usage
mapped n usage payload = judgement_raised type_error

-- A cancellation is no `Exception`.
abbrev pub judged : ℕ → Result Value × JudgeState → Judged × World
judged n (ok payload, js) = (mapped n js.usage payload, js.world)
judged n (raise cancelled_error, js) = (judgement_raised cancelled_error, js.world)
judged n (raise retry_safe_cancellation, js) = (judgement_raised retry_safe_cancellation, js.world)
judged n (raise e, js) = (judgement_failed js.usage, js.world)

abbrev pub first_state : World → JudgeState
first_state w = record {
  world = w;
  usage = record { input_tokens = 0; output_tokens = 0 };
  repairs_used = 0;
}

abbrev pub sleep_in_judgement : ℕ → JudgeState → JudgeState
sleep_in_judgement delay js = record js {
  world = record js.world { sleeps = delay ∷ js.world.sleeps };
}

abbrev pub judge_chain : (ℕ → ℕ) → JudgeEnv → List LlmConfig → World → Result Value × JudgeState
judge_chain rng e chain w =
    run_with_fallback (judge_completion e) sleep_in_judgement rng chain (first_state w)

-- judge_prose, for a known agent with this chain and `n` criteria
unfoldable pub judge_prose : (ℕ → ℕ) → JudgeEnv → List LlmConfig → ℕ → World → Judged × World
judge_prose rng e chain n w = judged n (judge_chain rng e chain w)
