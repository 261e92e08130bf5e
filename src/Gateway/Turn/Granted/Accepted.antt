-- ===== src/Gateway/Turn/Granted/Accepted.antt =====
-- How the tool loop ends: with a payload that is valid, or with an exception; within the grants and
-- the budgets either way.
use ravana.Prelude.{
  ℕ, zero, suc, ◌≤◌, ◌≡◌, refl, String, true, not, any, keep, leb, str_eq, some, List, [], ◌∷◌,
  length, arith, if_cases,
}
use ravana.Exception.{Result, ok, raise, guard, value_error}
use ravana.Tools.{Tool, tools_for}
use ravana.Tools.Execute.{ToolRequest}
use ravana.Gateway.{
  submit_result, ModelCall, ProviderRequest, ProviderResponse, World, received, ask, complete_task,
  assistant_message, ensure_response_secret_free,
}
use ravana.Gateway.Steps.{and_then-Ends, and_then, Ends}
use ravana.Gateway.Turn.{
  TurnEnv, TurnResult, Turn, Entry, first_turn, metered, call_tools, ignore_all, say,
}
use ravana.Gateway.Turn.Rounds.{
  is_other, is_submit, payload_of, submitted, tool_names, screened, Round, again, finished,
  next_round, answer_with, round, tool_loop, loop_request, run_tool_loop, max_model_calls, prepared,
}
use ravana.Gateway.Turn.Granted.{
  Descending-length, Descending-Allowed, Granted, TurnWell, TurnWell-Granted, counted-TurnWell,
  call_tools-TurnWell,
}

module _ (e : TurnEnv) (allowed : List String) (base : List (ℕ × ToolRequest)) where
  -- A result whose payload is valid, and which counts no call that was not made.
  abbrev pub Accepted : TurnResult → World → Type 0
  Accepted result w =
      Granted e allowed base w
      × (result.tool_call_count ≤ e.guards.max_tool_calls_per_turn)
      × (result.repair_count ≤ e.guards.max_output_repairs)
      × (e.validate_json result.structured_payload e.output_schema ≡ true)

  abbrev pub RoundWell : Round → World → Type 0
  RoundWell (again t) w = TurnWell e allowed base t w
  RoundWell (finished result) w = Accepted result w

  abbrev pub Safe : World → Type 0
  Safe w = Granted e allowed base w

  pub ignore_all-TurnWell :
      (scs : List ModelCall) (t : Turn) (w : World)
      → TurnWell e allowed base t w
      → TurnWell e allowed base (ignore_all scs t) w
  ignore_all-TurnWell [] t w well = well
  ignore_all-TurnWell (sc ∷ scs) t w well = ignore_all-TurnWell scs _ w well

  pub submitted-RoundWell :
      (r : ProviderResponse) (submit : ModelCall) (t : Turn) (w : World)
      → TurnWell e allowed base t w
      → Ends RoundWell Safe (submitted e r submit t, w)
  submitted-RoundWell r submit t w well =
      let (ds, (eq, desc, all), recorded, repairs) = well in
      let max = e.guards.max_tool_calls_per_turn in
      let count : length ds ≤ max =
        Descending-length max ds
          (Descending-Allowed e allowed base t.tool_call_count ds desc all) in
      let safe = TurnWell-Granted e allowed base t w well in
      if_cases (λ (out : Result Round). Ends RoundWell Safe (out, w))
        (e.validate_json (payload_of submit) e.output_schema)
        (λ valid. (safe, omega (arith, recorded, count), repairs, valid))
        (λ _.
          if_cases (λ (out : Result Round). Ends RoundWell Safe (out, w))
            (leb e.guards.max_output_repairs t.repair_count) (λ _. safe)
            (λ left. (ds, (eq, desc, all), recorded, ground (arith, left))))

  pub answer_with-RoundWell :
      (r : ProviderResponse) (others submits : List ModelCall) (t : Turn) (w : World)
      → TurnWell e allowed base t w
      → Ends RoundWell Safe (answer_with e allowed r others submits t w)
  answer_with-RoundWell r (tc ∷ tcs) submits t w well =
      let spoken = say (assistant_message r.tool_calls r.text) t in
      and_then-Ends (TurnWell e allowed base) RoundWell Safe
        (call_tools e allowed (tc ∷ tcs) spoken w) (λ u v. (ok (again (ignore_all submits u)), v))
        (call_tools-TurnWell e allowed base (tc ∷ tcs) spoken w well) (ignore_all-TurnWell submits)
  answer_with-RoundWell r [] (sc ∷ scs) t w well = submitted-RoundWell r sc t w well
  answer_with-RoundWell r [] [] t w well = counted-TurnWell e allowed base t w well

  pub received-TurnWell :
      (t : Turn) (request : ProviderRequest) (w : World) (answer : Result ProviderResponse)
      → TurnWell e allowed base t w
      → Ends (λ r v. TurnWell e allowed base (metered r t) v) Safe (received request w answer)
  received-TurnWell t request w (raise ex) well = TurnWell-Granted e allowed base t w well
  received-TurnWell t request w (ok r) well = well

  pub next_round-Accepted :
      (loop : Turn → World → Result TurnResult × World)
      → ((t : Turn) (w : World) → TurnWell e allowed base t w → Ends Accepted Safe (loop t w))
      → (r : Round) (w : World) → RoundWell r w
      → Ends Accepted Safe (next_round loop r w)
  next_round-Accepted loop more (again t) w well = more t w well
  next_round-Accepted loop more (finished result) w well = well

module _ (e : TurnEnv) (entry : Entry) (agent_tools : List Tool)
    (base : List (ℕ × ToolRequest)) where
  abbrev offered : List String
  offered = tool_names agent_tools

  pub screened-RoundWell :
      (r : ProviderResponse) (t : Turn) (w : World) (next : World → Result Round × World)
      → TurnWell e offered base t w
      → Ends (RoundWell e offered base) (Safe e offered base) (next w)
      → Ends (RoundWell e offered base) (Safe e offered base) (screened entry r w next)
  screened-RoundWell r t w next well h = go (ensure_response_secret_free entry.api_key r)
    where
      go :
          (screen : Result (Unit {0}))
          → Ends
              (RoundWell e offered base)
              (Safe e offered base)
              (and_then (screen, w) (λ done_ v. next v))
      go (raise ex) = TurnWell-Granted e offered base t w well
      go (ok done_) = h

  pub round-RoundWell :
      (t : Turn) (w : World)
      → TurnWell e offered base t w
      → Ends (RoundWell e offered base) (Safe e offered base) (round e entry agent_tools t w)
  round-RoundWell t w well =
      let request = loop_request e entry agent_tools t in
      and_then-Ends (λ r v. TurnWell e offered base (metered r t) v) (RoundWell e offered base)
        (Safe e offered base) (ask entry.adapter request w) _
        (received-TurnWell e offered base t request w (entry.adapter.complete request w) well)
        (λ r v still. screened-RoundWell r (metered r t) v _ still (
          answer_with-RoundWell e offered base r (keep is_other r.tool_calls)
            (keep is_submit r.tool_calls) (metered r t) v still))

  pub tool_loop-Accepted :
      (left : ℕ) (t : Turn) (w : World)
      → TurnWell e offered base t w
      → Ends
          (Accepted e offered base)
          (Safe e offered base)
          (tool_loop e entry agent_tools left t w)
  unfolding tool_loop
  tool_loop-Accepted zero t w well = TurnWell-Granted e offered base t w well
  tool_loop-Accepted (suc left) t w well =
      and_then-Ends (RoundWell e offered base) (Accepted e offered base) (Safe e offered base)
        (round e entry agent_tools t w) (next_round (tool_loop e entry agent_tools left))
        (round-RoundWell t w well)
        (next_round-Accepted e offered base (tool_loop e entry agent_tools left)
          (tool_loop-Accepted left))

-- The names that a run's executor grants: none when it refuses the toolkits.
abbrev pub granted_names : Result (List Tool) → List String
granted_names (raise ex) = []
granted_names (ok tools) = tool_names tools

abbrev pub grants : TurnEnv → List String
grants e = granted_names (tools_for e.executor.handlers e.toolkits (some e.run_id))

abbrev pub Loops : TurnEnv → World → List String → Result TurnResult × World → Type 0
Loops e w names out = Ends (Accepted e names w.dispatched) (Granted e names w.dispatched) out

pub none-Granted : (e : TurnEnv) (names : List String) (w : World) → Granted e names w.dispatched w
none-Granted e names w = ([], (refl, tt, tt), omega arith)

-- Nothing is handed over before the loop begins.
pub checked-Loops :
    (e : TurnEnv) (entry : Entry) (w : World) (tools : List Tool) (check : Result (Unit {0}))
    → Loops e w (tool_names tools) (
        and_then
          (check, w)
          (λ done_ v. tool_loop e entry tools (max_model_calls e) (first_turn complete_task) v))
checked-Loops e entry w tools (raise ex) = none-Granted e (tool_names tools) w
checked-Loops e entry w tools (ok done_) =
    tool_loop-Accepted e entry tools w.dispatched (max_model_calls e) (first_turn complete_task) w
      ([], (refl, tt, tt), omega arith, omega arith)

pub offered-Loops :
    (e : TurnEnv) (entry : Entry) (w : World) (tools : Result (List Tool))
    → Loops e w (granted_names tools) (
        and_then
          (tools, w)
          (λ agent_tools v.
            and_then
              (guard (not (any (λ t. str_eq t.name submit_result) agent_tools)) value_error, v)
              (λ done_ v.
                tool_loop e entry agent_tools (max_model_calls e) (first_turn complete_task) v)))
offered-Loops e entry w (raise ex) = none-Granted e [] w
offered-Loops e entry w (ok tools) =
    checked-Loops e entry w tools
      (guard (not (any (λ t. str_eq t.name submit_result) tools)) value_error)

pub prepared-Loops :
    (e : TurnEnv) (entry : Entry) (w : World) (names : List String) (prepare : Result (Unit {0}))
    (next : World → Result TurnResult × World)
    → Loops e w names (next w)
    → Loops e w names (and_then (prepare, w) (λ done_ v. next v))
prepared-Loops e entry w names (raise ex) next h = none-Granted e names w
prepared-Loops e entry w names (ok done_) next h = h

-- The tool loop hands to the executor only tools that the executor grants the node, for the turn's
-- own run and node, at most max_tool_calls_per_turn of them and no two under one ordinal: however
-- it ends. When it returns, the payload is valid against the output schema, and the repairs and the
-- tool calls that it counts are within their guards.
pub run_tool_loop-Accepted :
    (e : TurnEnv) (entry : Entry) (w : World)
    → Ends
        (Accepted e (grants e) w.dispatched)
        (Granted e (grants e) w.dispatched)
        (run_tool_loop e entry w)
unfolding run_tool_loop
run_tool_loop-Accepted e entry w =
    prepared-Loops e entry w (grants e) (prepared (e.prepare_tools e.toolkits)) _
      (offered-Loops e entry w (tools_for e.executor.handlers e.toolkits (some e.run_id)))
