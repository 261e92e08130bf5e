-- ===== src/Gateway/Judge/Asked.antt =====
-- How many requests a judgement makes: its entries share one budget of repairs.
use ravana.Prelude.{
  ℕ, zero, suc, ◌+◌, ◌-◌, ◌*◌, ◌≤◌, ◌≡◌, refl, ap, List, [], ◌∷◌, ◌++◌, length, Option, none, some,
  arith,
}
use ravana.Exception.{Result, ok, raise}
use ravana.Usage.{LlmUsage}
use ravana.Value.{Value}
use ravana.Gateway.{
  LlmConfig, Message, user_message, invalid_output, ProviderResponse, World, adapter_for,
  resolve_api_key, received, ensure_response_secret_free,
}
use ravana.Gateway.Steps.{and_then, Ends, and_then-Ends}
use ravana.Gateway.Fallback.Cost.{run_with_fallback-Costs}
use ravana.Gateway.Judge.{
  JudgeEnv, JudgeState, JudgeEntry, ask_judge, judge_request, in_world, billed_as, fold_usage,
  judge_round, repair, after_round, judge_loop, judge_entry, judge_completion, judge_chain,
  judge_prose, first_state, sleep_in_judgement,
}
use ravana.Gateway.Judge.Billed.{judged_world}

-- Requests made, and repairs that are left.
module _ (e : JudgeEnv) where
  abbrev pub spent : JudgeState → ℕ
  spent js = length js.world.requests + (e.guards.max_output_repairs - js.repairs_used)

  -- after a part that started with `n` requests and `used` repairs
  abbrev pub Within : ℕ → ℕ → JudgeState → Type 0
  Within n used js = (length js.world.requests ≤ n) × (js.repairs_used ≡ used)

  abbrev pub Still : {A : Type 0} → ℕ → ℕ → A → JudgeState → Type 0
  Still n used a js = Within n used js

  pub asked-Within :
      (j : JudgeEntry) (messages : List Message) (js : JudgeState)
      (answer : Result ProviderResponse)
      → Ends
          (Still (suc (length js.world.requests)) js.repairs_used)
          (Within (suc (length js.world.requests)) js.repairs_used)
          (in_world js (received (judge_request j messages) js.world answer))
  asked-Within j messages js (raise ex) = (omega arith, refl)
  asked-Within j messages js (ok r) = (omega arith, refl)

  module _ (n used : ℕ) where
    pub billed_as-Within :
        (sum : Result LlmUsage) (js : JudgeState)
        → Within n used js
        → Ends (Still n used) (Within n used) (billed_as js sum)
    billed_as-Within (ok sum) js h = h
    billed_as-Within (raise ex) js h = h

    pub given-Within :
        {A B : Type 0} (first : Result A) (next : A → JudgeState → Result B × JudgeState)
        (js : JudgeState)
        → Within n used js
        → ((a : A) → Ends (Still n used) (Within n used) (next a js))
        → Ends (Still n used) (Within n used) (and_then (first, js) next)
    given-Within (raise ex) next js h more = h
    given-Within (ok a) next js h more = more a

  pub judge_round-Within :
      (j : JudgeEntry) (messages : List Message) (js : JudgeState)
      → Ends
          (Still (suc (length js.world.requests)) js.repairs_used)
          (Within (suc (length js.world.requests)) js.repairs_used)
          (judge_round e j messages js)
  judge_round-Within j messages js =
      let n = suc (length js.world.requests) in
      let used = js.repairs_used in
      and_then-Ends (Still n used) (Still n used) (Within n used) (ask_judge j messages js) _
        (asked-Within j messages js (j.adapter.complete (judge_request j messages) js.world))
        (λ r ks h.
          and_then-Ends (Still n used) (Still n used) (Within n used) (fold_usage r ks) _
            (billed_as-Within n used _ ks h)
            (λ done_ ls h.
              given-Within n used (ensure_response_secret_free j.api_key r) _ ls h (λ done_. h)))

  -- One try costs one request more than the repairs that it uses.
  abbrev pub Spends : ℕ → {A : Type 0} → Result A × JudgeState → Type 0
  Spends n (a, js) = spent js ≤ n

  pub and_then-Spends :
      {A B : Type 0} (n used m : ℕ) (first : Result A × JudgeState)
      (next : A → JudgeState → Result B × JudgeState)
      → n + (e.guards.max_output_repairs - used) ≤ m
      → Ends (Still n used) (Within n used) first
      → ((a : A) (js : JudgeState) → Within n used js → Spends m (next a js))
      → Spends m (and_then first next)
  and_then-Spends n used m (raise ex, js) next le (asked, same) more =
      omega (arith, le, asked, same)
  and_then-Spends n used m (ok a, js) next le h more = more a js h

  pub after_round-Spends :
      (n used m : ℕ) (invalid : JudgeState → Result Value × JudgeState)
      → n + (e.guards.max_output_repairs - used) ≤ m
      → ((js : JudgeState) → Within n used js → Spends m (invalid js))
      → (payload : Option Value) (js : JudgeState) → Within n used js
      → Spends m (after_round invalid payload js)
  after_round-Spends n used m invalid le more (some payload) js (asked, same) =
      omega (arith, le, asked, same)
  after_round-Spends n used m invalid le more none js h = more js h

  pub judge_loop-Spends :
      (j : JudgeEntry) (left : ℕ) (messages : List Message) (js : JudgeState)
      → left ≤ e.guards.max_output_repairs - js.repairs_used
      → Spends (spent js + 1) (judge_loop e j left messages js)
  unfolding judge_loop
  judge_loop-Spends j zero messages js enough =
      let n = suc (length js.world.requests) in
      let used = js.repairs_used in
      and_then-Spends n used (spent js + 1) (judge_round e j messages js) _ (omega arith)
        (judge_round-Within j messages js)
        (after_round-Spends n used (spent js + 1) _ (omega arith)
          (λ ks (asked, same). omega (arith, asked, same)))
  judge_loop-Spends j (suc left) messages js enough =
      let n = suc (length js.world.requests) in
      let used = js.repairs_used in
      and_then-Spends n used (spent js + 1) (judge_round e j messages js) _ (omega arith)
        (judge_round-Within j messages js)
        (after_round-Spends n used (spent js + 1) _ (omega arith) (λ ks (asked, same).
          let rest =
            judge_loop-Spends j left (messages ++ (user_message invalid_output ∷ [])) (repair ks)
              (omega (arith, enough, same)) in
          omega (arith, enough, asked, same, rest)))

  pub given-Spends :
      {A B : Type 0} (m : ℕ) (first : Result A) (next : A → JudgeState → Result B × JudgeState)
      (js : JudgeState)
      → spent js ≤ m
      → ((a : A) → Spends m (next a js))
      → Spends m (and_then (first, js) next)
  given-Spends m (raise ex) next js h more = h
  given-Spends m (ok a) next js h more = more a

  pub judge_completion-Spends :
      (llm : LlmConfig) (js : JudgeState) → Spends (spent js + 1) (judge_completion e llm js)
  unfolding judge_completion
  judge_completion-Spends llm js =
      given-Spends (spent js + 1) (adapter_for e.adapters llm.provider) _ js (omega arith)
        (λ adapter.
          given-Spends (spent js + 1) (resolve_api_key e.secret_resolver llm) _ js (omega arith)
            (λ key. judge_loop-Spends (judge_entry llm adapter key) _ _ js (omega arith)))

-- A judgement makes at most max_output_repairs requests and two more for each entry of its chain:
-- the budget of repairs is one for the judgement, not one for each entry.
pub judge_prose-requests :
    (rng : ℕ → ℕ) (e : JudgeEnv) (chain : List LlmConfig) (n : ℕ) (w : World)
    → length ((judge_prose rng e chain n w).1.requests)
      ≤ length w.requests + e.guards.max_output_repairs + length chain * 2
unfolding judge_prose
judge_prose-requests rng e chain n w =
    let h =
      run_with_fallback-Costs (judge_completion e) sleep_in_judgement rng (spent e) 1 0
        (judge_completion-Spends e) (λ d js. omega arith) chain (first_state w) in
    let world = ap (λ v. length v.requests) (judged_world n (judge_chain rng e chain w)) in
    omega (arith, h, world)
