-- ===== src/Samples/Turns.antt =====
-- The theorems on the gateway at a model that calls tools and then submits.
use ravana.Prelude.{ℕ, ◌≤◌, ◌≡◌, String, true, false, none, List, [], ◌∷◌, ◌++◌, length, arith}
use ravana.Prelude.Int.{pos}
use ravana.Exception.{provider_error, Result, ok, raise}
use ravana.Value.{Value, null, bool, int, str, arr, obj, nil, cons, Entries, end, field, get_field}
use ravana.Schema.{GraphGuards}
use ravana.Tools.Once.{fresh_tools}
use ravana.Gateway.{
  complete_task, LlmConfig, LlmFallbackEntry, ModelCall, ProviderRequest, ProviderResponse, World,
  Adapter,
}
use ravana.Gateway.Steps.{Ends}
use ravana.Gateway.Fallback.{run_with_fallback}
use ravana.Gateway.Fallback.Chained.{Chained, run_with_fallback-Chained}
use ravana.Gateway.Turn.{TurnEnv, Turn, Entry, first_turn}
use ravana.Gateway.Turn.Rounds.{answer_response, run_tool_loop, run_one_llm}
use ravana.Gateway.Turn.Node.{AgentLlm, sleep_for, run_turn, chain_of}
use ravana.Gateway.Turn.Requests.{run_turn-Requests}
use ravana.Gateway.Turn.Granted.{Granted}
use ravana.Gateway.Turn.Granted.Accepted.{Accepted, grants, run_tool_loop-Accepted}
use ravana.Gateway.Turn.Balanced.{GoesOn, Anywhere, answer_response-GoesOn}
use ravana.Gateway.Verdicts.{map_verdicts}
use ravana.Gateway.Verdicts.Sole.{rulings_on, map_verdicts-sole}
use ravana.Gateway.Judge.{JudgeEnv, judge_prose}
use ravana.Gateway.Judge.Billed.{Reports, billed, judge_prose-Reports}
use ravana.Gateway.Judge.Asked.{judge_prose-requests}
use ravana.Samples.Calls.{executor}

abbrev guards : GraphGuards
guards = record {
  max_total_steps = 5;
  max_loop_iterations = [];
  max_tool_calls_per_turn = 3;
  max_output_repairs = 1;
  max_retries_per_node = 1;
  max_tokens_total = none;
}

abbrev call_of : String → ModelCall
call_of tool = record { id = tool; tool = tool; arguments = [] }

abbrev response : List ModelCall → ProviderResponse
response calls = record {
  text = none;
  tool_calls = calls;
  input_tokens = pos 5;
  output_tokens = pos 2;
  stop_reason = none;
}

-- A model that deploys, tries a tool that it was not granted, and submits too early; then it submits.
abbrev eager : List ProviderRequest → ProviderResponse
eager [] = response (call_of "deploy" ∷ call_of "search" ∷ call_of "submit_result" ∷ [])
eager (r ∷ rs) = response (call_of "submit_result" ∷ [])

abbrev adapter : Adapter
adapter = record { capabilities = λ target. []; complete = λ request w. ok (eager w.requests) }

-- A provider that is down for a while.
abbrev failing : List ProviderRequest → Result ProviderResponse
failing [] = raise (provider_error true)
failing (r ∷ rs) = raise (provider_error false)

abbrev down : Adapter
down = record adapter { complete = λ request w. failing w.requests }

abbrev primary : LlmConfig
primary = record {
  provider = "one";
  model = "m";
  endpoint = none;
  api_key_ref = none;
  max_tokens = none;
}

abbrev fallback : LlmFallbackEntry
fallback = record { provider = "two"; model = "m"; endpoint = none; api_key_ref = none }

abbrev agent : AgentLlm
agent = record { primary = primary; fallback = fallback ∷ [] }

abbrev env : TurnEnv
env = record {
  run_id = "run";
  node_id = "draft";
  logical_visit_id = 1;
  guards = guards;
  toolkits = "deploy" ∷ [];
  output_schema = null;
  executor = executor;
  prepare_tools = λ toolkits. ok tt;
  loads = λ s. none;
  validate_json = λ payload schema. true;
  digest = λ parts. "key";
  adapters = ("one", down) ∷ ("two", adapter) ∷ [];
  secret_resolver = none;
}

abbrev entry : Entry
entry = record { llm = primary; adapter = adapter; api_key = none }

abbrev quiet : World
quiet = record { requests = []; responses = []; dispatched = []; sleeps = []; tools = fresh_tools }

abbrev no_jitter : ℕ → ℕ
no_jitter n = 0

run_with_fallback-Chained_example :
    Chained
      (run_one_llm env)
      sleep_for
      (chain_of agent)
      quiet
      false
      (run_with_fallback (run_one_llm env) sleep_for no_jitter (chain_of agent) quiet)
run_with_fallback-Chained_example =
    run_with_fallback-Chained (run_one_llm env) sleep_for no_jitter (λ n. omega arith)
      (chain_of agent) quiet

run_turn-Requests_example : length ((run_turn no_jitter env agent quiet).1.requests) ≤ 24
run_turn-Requests_example = run_turn-Requests no_jitter env agent quiet

run_tool_loop-Accepted_example :
    Ends
      (Accepted env (grants env) [])
      (Granted env (grants env) [])
      (run_tool_loop env entry quiet)
run_tool_loop-Accepted_example = run_tool_loop-Accepted env entry quiet

abbrev hello : Turn
hello = first_turn complete_task

answer_response-GoesOn_example :
    Ends
      (GoesOn
        (call_of "deploy" ∷ call_of "search" ∷ [])
        (call_of "submit_result" ∷ [])
        (eager [])
        hello)
      Anywhere
      (answer_response env ("deploy" ∷ []) (eager []) hello quiet)
answer_response-GoesOn_example = answer_response-GoesOn env ("deploy" ∷ []) (eager []) hello quiet

abbrev ruling : ℕ → Value → Value
ruling i met = obj (field "index" (int (pos i)) (field "met" met end))

-- Criterion 0 is met, 1 is ruled on twice, 2 by a text, 3 not at all.
abbrev payload : Entries
payload =
    field "verdicts"
      (arr (
        cons (ruling 0 (bool true)) (
          cons (ruling 1 (bool true))
            (cons (ruling 1 (bool true)) (cons (ruling 2 (str "false")) nil)))))
      end

map_verdicts-sole_example : map_verdicts payload 4 ≡ true ∷ false ∷ false ∷ false ∷ []
unfolding get_field rulings_on
map_verdicts-sole_example = map_verdicts-sole payload 4

abbrev judge : JudgeEnv
judge = record {
  guards = guards;
  loads = λ s. none;
  validate_json = λ payload schema. true;
  adapters = ("one", down) ∷ ("two", adapter) ∷ [];
  secret_resolver = none;
}

judge_prose-Reports_example :
    (rs : List ProviderResponse) × ((judge_prose no_jitter judge
        (chain_of agent)
        2
        quiet).1.responses
      ≡ rs ++ [])
    × Reports (judge_prose no_jitter judge (chain_of agent) 2 quiet).0 (billed rs)
judge_prose-Reports_example = judge_prose-Reports no_jitter judge (chain_of agent) 2 quiet

judge_prose-requests_example :
    length ((judge_prose no_jitter judge (chain_of agent) 2 quiet).1.requests) ≤ 5
judge_prose-requests_example = judge_prose-requests no_jitter judge (chain_of agent) 2 quiet
