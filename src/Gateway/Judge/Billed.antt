-- ===== src/Gateway/Judge/Billed.antt =====
-- No token of a judgement is lost: what it reports is what its responses cost, however it ends.
use ravana.Prelude.{
  ℕ, zero, suc, ◌≡◌, refl, sym, subst, ap, ◌∙◌, List, [], ◌∷◌, ◌++◌, Option, none, some,
}
use ravana.Exception.{cancelled_error, retry_safe_cancellation, Result, ok, raise}
use ravana.Usage.{LlmUsage, an_int, add_usage}
use ravana.Value.{Value, obj}
use ravana.Gateway.{
  LlmConfig, Message, ProviderResponse, World, adapter_for, resolve_api_key,
  ensure_response_secret_free, received,
}
use ravana.Gateway.Steps.{and_then, Ends, and_then-Ends}
use ravana.Gateway.Fallback.Keeps.{run_with_fallback-Kept}
use ravana.Gateway.Judge.{
  JudgeEnv, JudgeState, JudgeEntry, ask_judge, judge_request, in_world, billed_as, fold_usage,
  payload_in, judge_round, repair, after_round, judge_loop, judge_entry, judge_completion, Judged,
  judgement, judgement_failed, judgement_raised, judged, judge_chain, judge_prose, first_state,
  sleep_in_judgement,
}

abbrev no_usage : LlmUsage
no_usage = record { input_tokens = 0; output_tokens = 0 }

abbrev pub or_before : LlmUsage → Result LlmUsage → LlmUsage
or_before before (ok usage) = usage
or_before before (raise e) = before

-- The usage of responses, newest first: a response whose counts are refused adds nothing.
pub billed : List ProviderResponse → LlmUsage
billed [] = no_usage
billed (r ∷ rs) =
    or_before (billed rs) (add_usage (billed rs) (an_int r.input_tokens) (an_int r.output_tokens))

pub added :
    (r : ProviderResponse) {u v : LlmUsage}
    → u ≡ v
    → add_usage u (an_int r.input_tokens) (an_int r.output_tokens)
      ≡ add_usage v (an_int r.input_tokens) (an_int r.output_tokens)
added r eq = ap (λ u. add_usage u (an_int r.input_tokens) (an_int r.output_tokens)) eq

module _ (base : List ProviderResponse) where
  -- Everything received since `base` is in the account.
  abbrev pub Accounted : JudgeState → Type 0
  Accounted js =
      (rs : List ProviderResponse) × (js.world.responses ≡ rs ++ base) × (js.usage ≡ billed rs)

  -- All but the last response, which has just come.
  abbrev pub Received : ProviderResponse → JudgeState → Type 0
  Received r js =
      (rs : List ProviderResponse) × (js.world.responses ≡ r ∷ (rs ++ base))
      × (js.usage ≡ billed rs)

  pub received-Received :
      (j : JudgeEntry) (messages : List Message) (js : JudgeState)
      → (answer : Result ProviderResponse) → Accounted js
      → Ends Received Accounted (in_world js (received (judge_request j messages) js.world answer))
  received-Received j messages js (raise e) h = h
  received-Received j messages js (ok r) (rs, eq, usage) = (rs, ap (λ xs. r ∷ xs) eq, usage)

  abbrev pub Still : {A : Type 0} → A → JudgeState → Type 0
  Still a js = Accounted js

  pub billed_as-Accounted :
      (r : ProviderResponse) (js : JudgeState)
      → Received r js
      → (sum : Result LlmUsage)
      → add_usage js.usage (an_int r.input_tokens) (an_int r.output_tokens) ≡ sum
      → Ends Still Accounted (billed_as js sum)
  unfolding billed
  billed_as-Accounted r js (rs, eq, usage) (ok sum) is =
      (r ∷ rs, eq, sym (ap (or_before (billed rs)) (added r (sym usage) ∙ is)))
  billed_as-Accounted r js (rs, eq, usage) (raise e) is =
      (r ∷ rs, eq, usage ∙ sym (ap (or_before (billed rs)) (added r (sym usage) ∙ is)))

  pub screened-Accounted :
      {A : Type 0} (screen : Result (Unit {0})) (result : A) (js : JudgeState)
      → Accounted js
      → Ends Still Accounted (and_then (screen, js) (λ done_ ks. (ok result, ks)))
  screened-Accounted (raise e) result js h = h
  screened-Accounted (ok done_) result js h = h

  pub judge_round-Accounted :
      (e : JudgeEnv) (j : JudgeEntry) (messages : List Message) (js : JudgeState)
      → Accounted js
      → Ends Still Accounted (judge_round e j messages js)
  judge_round-Accounted e j messages js h =
      and_then-Ends Received Still Accounted (ask_judge j messages js) _
        (received-Received j messages js (j.adapter.complete (judge_request j messages) js.world) h)
        (λ r ks got.
          and_then-Ends Still Still Accounted (fold_usage r ks) _
            (billed_as-Accounted r ks got _ refl)
            (λ done_ ls still.
              screened-Accounted (ensure_response_secret_free j.api_key r) (payload_in e j r) ls
                still))

  pub after_round-Accounted :
      (invalid : JudgeState → Result Value × JudgeState)
      → ((js : JudgeState) → Accounted js → Ends Still Accounted (invalid js))
      → (payload : Option Value) (js : JudgeState) → Accounted js
      → Ends Still Accounted (after_round invalid payload js)
  after_round-Accounted invalid more (some payload) js h = h
  after_round-Accounted invalid more none js h = more js h

  pub judge_loop-Accounted :
      (e : JudgeEnv) (j : JudgeEntry) (left : ℕ) (messages : List Message) (js : JudgeState)
      → Accounted js
      → Ends Still Accounted (judge_loop e j left messages js)
  unfolding judge_loop
  judge_loop-Accounted e j zero messages js h =
      and_then-Ends Still Still Accounted (judge_round e j messages js) _
        (judge_round-Accounted e j messages js h) (after_round-Accounted _ (λ ks still. still))
  judge_loop-Accounted e j (suc left) messages js h =
      and_then-Ends Still Still Accounted (judge_round e j messages js) _
        (judge_round-Accounted e j messages js h)
        (after_round-Accounted _ (λ ks still. judge_loop-Accounted e j left _ (repair ks) still))

  pub given-Accounted :
      {A B : Type 0} (first : Result A) (next : A → JudgeState → Result B × JudgeState)
      (js : JudgeState)
      → Accounted js
      → ((a : A) → Ends Still Accounted (next a js))
      → Ends Still Accounted (and_then (first, js) next)
  given-Accounted (raise e) next js h more = h
  given-Accounted (ok a) next js h more = more a

  pub Ends-Accounted :
      {A : Type 0} (out : Result A × JudgeState) → Ends Still Accounted out → Accounted out.1
  Ends-Accounted (raise e, js) h = h
  Ends-Accounted (ok a, js) h = h

  pub judge_completion-Accounted :
      (e : JudgeEnv) (llm : LlmConfig) (js : JudgeState)
      → Accounted js
      → Accounted ((judge_completion e llm js).1)
  unfolding judge_completion
  judge_completion-Accounted e llm js h = Ends-Accounted (judge_completion e llm js) (
      given-Accounted (adapter_for e.adapters llm.provider) _ js h (λ adapter.
        given-Accounted (resolve_api_key e.secret_resolver llm) _ js h
          (λ key. judge_loop-Accounted e (judge_entry llm adapter key) _ _ js h)))

-- What a judgement reports, if it reports a usage.
abbrev pub Reports : Judged → LlmUsage → Type 0
Reports (judgement verdicts usage) spent = usage ≡ spent
Reports (judgement_failed usage) spent = usage ≡ spent
Reports (judgement_raised e) spent = Unit

pub judged-Reports :
    (n : ℕ) (out : Result Value × JudgeState) → Reports (judged n out).0 out.1.usage
judged-Reports n (ok (obj payload), js) = refl
judged-Reports n (ok payload, js) = tt
judged-Reports n (raise cancelled_error, js) = tt
judged-Reports n (raise retry_safe_cancellation, js) = tt
judged-Reports n (raise e, js) = refl

pub judged_world : (n : ℕ) (out : Result Value × JudgeState) → (judged n out).1 ≡ out.1.world
judged_world n (ok payload, js) = refl
judged_world n (raise cancelled_error, js) = refl
judged_world n (raise retry_safe_cancellation, js) = refl
judged_world n (raise e, js) = refl

-- The usage that a judgement reports, with its verdicts or with its failure, is the sum over every
-- response that it received, of every entry and every try, also of those that were then rejected.
pub judge_prose-Reports :
    (rng : ℕ → ℕ) (e : JudgeEnv) (chain : List LlmConfig) (n : ℕ) (w : World)
    → (rs : List ProviderResponse) × ((judge_prose rng e chain n w).1.responses ≡ rs ++ w.responses)
      × Reports (judge_prose rng e chain n w).0 (billed rs)
unfolding judge_prose billed
judge_prose-Reports rng e chain n w =
    let out = judge_chain rng e chain w in
    let (rs, eq, usage) =
      run_with_fallback-Kept (judge_completion e) sleep_in_judgement rng (Accounted w.responses)
        (judge_completion-Accounted w.responses e) (λ d js h. h) chain (first_state w)
        ([], refl, refl) in
    (
      rs,
      ap (λ v. v.responses) (judged_world n out) ∙ eq,
      subst (Reports (judged n out).0) usage (judged-Reports n out),
    )
