-- ===== src/Gateway/Turn/Balanced.antt =====
-- The transcript: every tool call of a response is answered before the next request.
use ravana.Prelude.{
  ◌+◌, ◌≡◌, refl, sym, ap, ◌∙◌, String, not, contains, ltb, leb, none, List, [], ◌∷◌, ◌++◌, keep,
  if_cases,
}
use mathlib.Core.List.{append-nil, append_assoc}
use ravana.Exception.{Exception, toolkit_error, model_addressable, Result, ok, raise, ◌>>◌}
use ravana.Value.{str}
use ravana.Secrets.Known.{ensure_secret_free}
use ravana.Tools.Execute.{execute}
use ravana.Gateway.{
  ModelCall, Prompt, submit_ignored, Content, Message, user_message, invalid_output,
  call_submit_result, assistant_message, tool_result, ProviderResponse, World,
}
use ravana.Gateway.Steps.{and_then-Ends, Ends-mono, Ends}
use ravana.Gateway.Turn.{
  TurnEnv, Turn, refuse, counted, call_failed, call_answered, request_of, call_tool, call_tools,
  ignore_all, say,
}
use ravana.Gateway.Turn.Rounds.{
  is_other, is_submit, Round, again, finished, submitted, answer_with, answer_response, payload_of,
}

-- One result for each call, in order.
pub data Answers : List ModelCall → List Message → Type 0 where
  no_calls : Answers [] []
  answer :
      {tcs : List ModelCall} {ms : List Message} (tc : ModelCall) (content : Content)
      → Answers tcs ms
      → Answers (tc ∷ tcs) (tool_result tc.id tc.tool content ∷ ms)

pub Answers-append :
    {tcs scs : List ModelCall} {ms ns : List Message}
    → Answers tcs ms
    → Answers scs ns
    → Answers (tcs ++ scs) (ms ++ ns)
Answers-append no_calls second = second
Answers-append (answer tc content first) second = answer tc content (Answers-append first second)

-- `u` is `t` with answers to `tcs` at the end of its transcript.
abbrev pub Extends : List ModelCall → Turn → Turn → Type 0
Extends tcs t u = (ms : List Message) × (u.messages ≡ t.messages ++ ms) × Answers tcs ms

abbrev pub Anywhere : World → Type 0
Anywhere w = Unit

module _ (e : TurnEnv) (tc : ModelCall) (t : Turn) where
  abbrev pub Answered : Turn → World → Type 0
  Answered u v = Extends (tc ∷ []) t u

  abbrev one_answer :
      (content : Content) → Answers (tc ∷ []) (tool_result tc.id tc.tool content ∷ [])
  one_answer content = answer tc content no_calls

  pub call_failed-Answered :
      (ex : Exception) (w : World) → Ends Answered Anywhere (call_failed ex tc t, w)
  call_failed-Answered (toolkit_error model_addressable) w = (_, refl, one_answer _)
  call_failed-Answered ex w = tt

  pub call_screened-Answered :
      (u : Turn) (w : World)
      → Answered u w
      → (screen : Result (Unit {0})) → Ends Answered Anywhere (screen >> ok u, w)
  call_screened-Answered u w h (raise ex) = tt
  call_screened-Answered u w h (ok done_) = h

  pub call_answered-Answered :
      (reply : Result String) (v : World) → Ends Answered Anywhere (call_answered e tc t reply, v)
  call_answered-Answered (raise ex) v = call_failed-Answered ex v
  call_answered-Answered (ok result) v =
      call_screened-Answered _ v (_, refl, one_answer _) (ensure_secret_free none (str result))

pub call_tool-Extends :
    (e : TurnEnv) (tc : ModelCall) (t : Turn) (w : World) (allowed : List String)
    → Ends (Answered e tc t) Anywhere (call_tool e allowed tc t w)
call_tool-Extends e tc t w allowed =
    if_cases (Ends (Answered e tc t) Anywhere) (not (contains allowed tc.tool))
      (λ _. (_, refl, one_answer e tc t _))
      (λ _.
        if_cases (Ends (Answered e tc t) Anywhere)
          (ltb e.guards.max_tool_calls_per_turn (t.tool_call_count + 1))
          (λ _. (_, refl, one_answer e tc t _))
          (λ _.
            call_answered-Answered e tc (counted t)
              (execute e.executor (request_of e tc (counted t)) w.tools).0 _))

pub Extends-trans :
    {tcs scs : List ModelCall} (t u v : Turn)
    → Extends tcs t u
    → Extends scs u v
    → Extends (tcs ++ scs) t v
Extends-trans t u v (ms, eq, first) (ns, next, second) = (
  ms ++ ns,
  next ∙ ap (λ xs. xs ++ ns) eq ∙ append_assoc t.messages ms ns,
  Answers-append first second,
)

pub call_tools-Extends :
    (e : TurnEnv) (allowed : List String) (tcs : List ModelCall) (t : Turn) (w : World)
    → Ends (λ u v. Extends tcs t u) Anywhere (call_tools e allowed tcs t w)
unfolding call_tools
call_tools-Extends e allowed [] t w = ([], sym (append-nil t.messages), no_calls)
call_tools-Extends e allowed (tc ∷ tcs) t w =
    and_then-Ends (λ u v. Extends (tc ∷ []) t u) (λ u v. Extends (tc ∷ tcs) t u) Anywhere
      (call_tool e allowed tc t w) (call_tools e allowed tcs) (call_tool-Extends e tc t w allowed)
      (λ u v one.
        Ends-mono (λ x _. Extends tcs u x) (λ x _. Extends (tc ∷ tcs) t x) Anywhere
          (call_tools e allowed tcs u v) (λ x _ more. Extends-trans t u x one more)
          (call_tools-Extends e allowed tcs u v))

pub ignore_all-Extends : (scs : List ModelCall) (t : Turn) → Extends scs t (ignore_all scs t)
ignore_all-Extends [] t = ([], sym (append-nil t.messages), no_calls)
ignore_all-Extends (sc ∷ scs) t =
    Extends-trans t (refuse submit_ignored sc t) (ignore_all scs (refuse submit_ignored sc t))
      (_, refl, answer sc _ no_calls) (ignore_all-Extends scs (refuse submit_ignored sc t))

-- How a round that goes on leaves the transcript.
abbrev pub Balanced : List ModelCall → List ModelCall → ProviderResponse → Turn → Turn → Type 0
Balanced [] submits r t u =
    (prompt : Prompt) × (u.messages ≡ t.messages ++ (user_message prompt ∷ []))
Balanced (tc ∷ tcs) submits r t u =
    (ms : List Message) × (u.messages ≡ t.messages ++ (assistant_message r.tool_calls r.text ∷ ms))
    × Answers ((tc ∷ tcs) ++ submits) ms

abbrev pub GoesOn :
    List ModelCall → List ModelCall → ProviderResponse → Turn → Round → World → Type 0
GoesOn others submits r t (again u) w = Balanced others submits r t u
GoesOn others submits r t (finished result) w = Unit

pub submitted-GoesOn :
    (e : TurnEnv) (scs : List ModelCall) (r : ProviderResponse) (sc : ModelCall) (t : Turn)
    (w : World)
    → Ends (GoesOn [] scs r t) Anywhere (submitted e r sc t, w)
submitted-GoesOn e scs r sc t w =
    if_cases (λ (out : Result Round). Ends (GoesOn [] scs r t) Anywhere (out, w))
      (e.validate_json (payload_of sc) e.output_schema) (λ _. tt)
      (λ _.
        if_cases (λ (out : Result Round). Ends (GoesOn [] scs r t) Anywhere (out, w))
          (leb e.guards.max_output_repairs t.repair_count) (λ _. tt) (λ _. (invalid_output, refl)))

pub answer_with-GoesOn :
    (e : TurnEnv) (allowed : List String) (r : ProviderResponse) (others submits : List ModelCall)
    (t : Turn) (w : World)
    → Ends (GoesOn others submits r t) Anywhere (answer_with e allowed r others submits t w)
answer_with-GoesOn e allowed r (tc ∷ tcs) submits t w =
    let spoken = say (assistant_message r.tool_calls r.text) t in
    and_then-Ends (λ u _. Extends (tc ∷ tcs) spoken u) (GoesOn (tc ∷ tcs) submits r t) Anywhere
      (call_tools e allowed (tc ∷ tcs) spoken w) (λ u v. (ok (again (ignore_all submits u)), v))
      (call_tools-Extends e allowed (tc ∷ tcs) spoken w)
      (λ u v first.
        let (ms, eq, all) =
          Extends-trans spoken u (ignore_all submits u) first (ignore_all-Extends submits u) in
        (ms, eq ∙ append_assoc t.messages (assistant_message r.tool_calls r.text ∷ []) ms, all))
answer_with-GoesOn e allowed r [] (sc ∷ scs) t w = submitted-GoesOn e (sc ∷ scs) r sc t w
answer_with-GoesOn e allowed r [] [] t w = (call_submit_result, refl)

-- After a response with a call that is no submission, when the turn goes on, the transcript goes on
-- by the assistant's message with all its calls and then one result for every call that is no
-- submission, in their order, and one for every submission, whether the calls were made, refused or
-- failed. After a response without such a call, when the turn goes on, the transcript goes on by one
-- message of the user alone, and a submission has no result. Nothing is said of a response that ends
-- the turn, or whose calls raise.
pub answer_response-GoesOn :
    (e : TurnEnv) (allowed : List String) (r : ProviderResponse) (t : Turn) (w : World)
    → Ends
        (GoesOn (keep is_other r.tool_calls) (keep is_submit r.tool_calls) r t)
        Anywhere
        (answer_response e allowed r t w)
answer_response-GoesOn e allowed r t w =
    answer_with-GoesOn e allowed r (keep is_other r.tool_calls) (keep is_submit r.tool_calls) t w
