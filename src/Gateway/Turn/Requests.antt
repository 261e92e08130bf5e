-- ===== src/Gateway/Turn/Requests.antt =====
-- How many requests a turn makes, whatever the model and the tools do.
use ravana.Prelude.{
  ℕ, zero, suc, ◌+◌, ◌*◌, ◌≤◌, ◌≡◌, String, not, contains, ltb, some, List, [], ◌∷◌, length, any,
  keep, str_eq, arith, if_cases, subst,
}
use ravana.Exception.{Result, ok, raise, guard, value_error}
use ravana.Tools.{Tool, tools_for}
use ravana.Gateway.{
  submit_result, Strategy, use_guided, select_strategy, adapter_for, resolve_api_key,
  respond_with_json, ensure_response_secret_free, LlmConfig, ModelCall, ProviderRequest,
  ProviderResponse, World, Adapter, received, ask, complete_task,
}
use ravana.Gateway.Steps.{and_then}
use ravana.Gateway.Turn.{
  TurnEnv, TurnResult, Turn, Entry, metered, first_turn, call_tool, call_tools,
}
use ravana.Gateway.Turn.Rounds.{
  is_other, is_submit, screened, run_strategy, is_nil, tool_names, Round, again, finished,
  next_round, answer_with, round, tool_loop, run_tool_loop, guided_round, guided_loop, run_guided,
  run_one_llm, max_model_calls, prepared,
}
use ravana.Gateway.Turn.Node.{AgentLlm, chain_of, sleep_for, run_turn}
use ravana.Gateway.Fallback.Cost.{run_with_fallback-Costs}

abbrev pub Requests : {B : Type 0} → ℕ → B × World → Type 0
Requests n (b, w) = length w.requests ≤ n

pub and_then-Requests :
    {A B : Type 0} (n m : ℕ) (first : Result A × World) (next : A → World → Result B × World)
    → n ≤ m
    → Requests n first
    → ((a : A) (w : World) → length w.requests ≤ n → Requests m (next a w))
    → Requests m (and_then first next)
and_then-Requests n m (raise e, w) next le h more = omega (arith, le, h)
and_then-Requests n m (ok a, w) next le h more = more a w h

-- Tool calls ask the model nothing.
pub call_tool-Requests :
    (e : TurnEnv) (allowed : List String) (n : ℕ) (tc : ModelCall) (t : Turn) (w : World)
    → length w.requests ≤ n
    → Requests n (call_tool e allowed tc t w)
call_tool-Requests e allowed n tc t w h =
    if_cases (λ (out : Result Turn × World). Requests n out) (not (contains allowed tc.tool))
      (λ _. h)
      (λ _.
        if_cases (λ (out : Result Turn × World). Requests n out)
          (ltb e.guards.max_tool_calls_per_turn (t.tool_call_count + 1)) (λ _. h) (λ _. h))

pub call_tools-Requests :
    (e : TurnEnv) (allowed : List String) (n : ℕ) (tcs : List ModelCall) (t : Turn) (w : World)
    → length w.requests ≤ n
    → Requests n (call_tools e allowed tcs t w)
unfolding call_tools
call_tools-Requests e allowed n [] t w h = h
call_tools-Requests e allowed n (tc ∷ tcs) t w h =
    and_then-Requests n n (call_tool e allowed tc t w) _ (omega arith)
      (call_tool-Requests e allowed n tc t w h) (call_tools-Requests e allowed n tcs)

pub ask-Requests :
    (n : ℕ) (adapter : Adapter) (request : ProviderRequest) (w : World)
    → length w.requests ≤ n
    → Requests (suc n) (ask adapter request w)
ask-Requests n adapter request w h = got (adapter.complete request w)
  where
    got : (answer : Result ProviderResponse) → Requests (suc n) (received request w answer)
    got (raise e) = omega (arith, h)
    got (ok r) = omega (arith, h)

pub answer_with-Requests :
    (e : TurnEnv) (allowed : List String) (n : ℕ) (r : ProviderResponse)
    (others submits : List ModelCall) (t : Turn) (w : World)
    → length w.requests ≤ n
    → Requests n (answer_with e allowed r others submits t w)
answer_with-Requests e allowed n r (tc ∷ tcs) submits t w h =
    and_then-Requests n n (call_tools e allowed (tc ∷ tcs) _ w) _ (omega arith)
      (call_tools-Requests e allowed n (tc ∷ tcs) _ w h) (λ u v le. le)
answer_with-Requests e allowed n r [] (sc ∷ scs) t w h = h
answer_with-Requests e allowed n r [] [] t w h = h

pub screened-Requests :
    (n : ℕ) (entry : Entry) (r : ProviderResponse) (w : World) (next : World → Result Round × World)
    → length w.requests ≤ n
    → ((v : World) → length v.requests ≤ n → Requests n (next v))
    → Requests n (screened entry r w next)
screened-Requests n entry r w next h more =
    and_then-Requests n n (ensure_response_secret_free entry.api_key r, w) (λ done_ v. next v)
      (omega arith) h (λ done_ v le. more v le)

pub round-Requests :
    (e : TurnEnv) (entry : Entry) (tools : List Tool) (n : ℕ) (t : Turn) (w : World)
    → length w.requests ≤ n
    → Requests (suc n) (round e entry tools t w)
round-Requests e entry tools n t w h =
    and_then-Requests (suc n) (suc n) (ask entry.adapter _ w) _ (omega arith)
      (ask-Requests n entry.adapter _ w h)
      (λ r v le. screened-Requests (suc n) entry r v _ le (λ u le.
        answer_with-Requests e (tool_names tools) (suc n) r (keep is_other r.tool_calls)
          (keep is_submit r.tool_calls) (metered r t) u le))

pub next_round-Requests :
    (n m : ℕ) (loop : Turn → World → Result TurnResult × World)
    → n ≤ m
    → ((t : Turn) (w : World) → length w.requests ≤ n → Requests m (loop t w))
    → (r : Round) (w : World) → length w.requests ≤ n
    → Requests m (next_round loop r w)
next_round-Requests n m loop le more (again t) w h = more t w h
next_round-Requests n m loop le more (finished result) w h = omega (arith, le, h)

pub tool_loop-Requests :
    (e : TurnEnv) (entry : Entry) (tools : List Tool) (left n : ℕ) (t : Turn) (w : World)
    → length w.requests ≤ n
    → Requests (n + left) (tool_loop e entry tools left t w)
unfolding tool_loop
tool_loop-Requests e entry tools zero n t w h = omega (arith, h)
tool_loop-Requests e entry tools (suc left) n t w h =
    and_then-Requests (suc n) (n + suc left) (round e entry tools t w) _ (omega arith)
      (round-Requests e entry tools n t w h)
      (next_round-Requests (suc n) (n + suc left) (tool_loop e entry tools left) (omega arith)
        (λ u v le. omega (arith, tool_loop-Requests e entry tools left (suc n) u v le)))

pub guided_round-Requests :
    (e : TurnEnv) (entry : Entry) (n : ℕ) (t : Turn) (w : World)
    → length w.requests ≤ n
    → Requests (suc n) (guided_round e entry t w)
guided_round-Requests e entry n t w h =
    and_then-Requests (suc n) (suc n) (ask entry.adapter _ w) _ (omega arith)
      (ask-Requests n entry.adapter _ w h)
      (λ r v le. screened-Requests (suc n) entry r v _ le (λ u le. le))

pub guided_loop-Requests :
    (e : TurnEnv) (entry : Entry) (left n : ℕ) (t : Turn) (w : World)
    → length w.requests ≤ n
    → Requests (n + left + 1) (guided_loop e entry left t w)
unfolding guided_loop
guided_loop-Requests e entry zero n t w h =
    and_then-Requests (suc n) (n + 0 + 1) (guided_round e entry t w) _ (omega arith)
      (guided_round-Requests e entry n t w h)
      (next_round-Requests (suc n) (n + 0 + 1) _ (omega arith) (λ u v le. omega (arith, le)))
guided_loop-Requests e entry (suc left) n t w h =
    and_then-Requests (suc n) (n + suc left + 1) (guided_round e entry t w) _ (omega arith)
      (guided_round-Requests e entry n t w h)
      (next_round-Requests (suc n) (n + suc left + 1) (guided_loop e entry left) (omega arith)
        (λ u v le. omega (arith, guided_loop-Requests e entry left (suc n) u v le)))

pub run_tool_loop-Requests :
    (e : TurnEnv) (entry : Entry) (n : ℕ) (w : World)
    → length w.requests ≤ n
    → Requests (n + max_model_calls e) (run_tool_loop e entry w)
unfolding run_tool_loop
run_tool_loop-Requests e entry n w h =
    let m = n + max_model_calls e in
    and_then-Requests n m (prepared (e.prepare_tools e.toolkits), w) _ (omega arith) h
      (λ done_ v le.
        and_then-Requests n m (tools_for e.executor.handlers e.toolkits (some e.run_id), v) _
          (omega arith) le
          (λ tools v le.
            and_then-Requests n m
              (guard (not (any (λ t. str_eq t.name submit_result) tools)) value_error, v) _
              (omega arith) le
              (λ done_ v le.
                tool_loop-Requests e entry tools (max_model_calls e) n (first_turn complete_task) v
                  le)))

pub run_guided-Requests :
    (e : TurnEnv) (entry : Entry) (n : ℕ) (w : World)
    → length w.requests ≤ n
    → Requests (n + max_model_calls e) (run_guided e entry w)
unfolding run_guided
run_guided-Requests e entry n w h = omega (
  arith,
  guided_loop-Requests e entry e.guards.max_output_repairs n (first_turn respond_with_json) w h,
)

pub run_strategy-Requests :
    (e : TurnEnv) (entry : Entry) (strategy : Strategy) (n : ℕ) (w : World)
    → length w.requests ≤ n
    → Requests (n + max_model_calls e) (run_strategy e entry strategy w)
run_strategy-Requests e entry use_guided n w h =
    if_cases (λ (out : Result TurnResult × World). Requests (n + max_model_calls e) out)
      (is_nil e.toolkits) (λ _. run_guided-Requests e entry n w h)
      (λ _. run_tool_loop-Requests e entry n w h)
run_strategy-Requests e entry strategy n w h = run_tool_loop-Requests e entry n w h

pub run_one_llm-Requests :
    (e : TurnEnv) (llm : LlmConfig) (w : World)
    → Requests (length w.requests + max_model_calls e) (run_one_llm e llm w)
unfolding run_one_llm
run_one_llm-Requests e llm w =
    let n = length w.requests in
    let m = length w.requests + max_model_calls e in
    and_then-Requests n m (adapter_for e.adapters llm.provider, w) _ (omega arith) (omega arith)
      (λ adapter v le.
        and_then-Requests n m (resolve_api_key e.secret_resolver llm, v) _ (omega arith) le
          (λ key u le. run_strategy-Requests e _ (select_strategy adapter llm) n u le))

-- A turn asks its providers at most twice per entry of its chain, times the ceiling of the loop:
-- the budget of tool calls, the budget of repairs, and two. Nothing that a model, a tool or a
-- provider does makes it ask more.
pub run_turn-Requests :
    (rng : ℕ → ℕ) (e : TurnEnv) (agent : AgentLlm) (w : World)
    → length ((run_turn rng e agent w).1.requests)
      ≤ length w.requests
        + length (chain_of agent)
          * (2 * (e.guards.max_tool_calls_per_turn + e.guards.max_output_repairs + 2))
unfolding run_turn
run_turn-Requests rng e agent w =
    let twice : max_model_calls e + 0 + max_model_calls e ≡ 2 * max_model_calls e = omega arith in
    subst
      (λ k.
        length ((run_turn rng e agent w).1.requests)
        ≤ length w.requests + length (chain_of agent) * k)
      twice
      (run_with_fallback-Costs (run_one_llm e) sleep_for rng (λ w. length w.requests)
        (max_model_calls e) 0 (run_one_llm-Requests e) (λ d w. omega arith) (chain_of agent) w)
