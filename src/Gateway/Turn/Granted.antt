-- ===== src/Gateway/Turn/Granted.antt =====
-- What a turn hands to the executor: granted tools only, within the budget, each call under an
-- ordinal of its own.
pub mod Accepted
use ravana.Prelude.{
  ℕ, zero, suc, ◌+◌, ◌-◌, ◌≤◌, ◌≡◌, refl, String, Bool, true, false, not, contains, ltb, Option,
  none, some, List, [], ◌∷◌, ◌++◌, length, length-append, All, arith, if◌then◌else◌, if_cases, ap,
  ◌∙◌,
}
use ravana.Exception.{
  Exception, toolkit_error, fatal, transient, model_addressable, outcome_unknown, Result, ok, raise,
  ◌>>◌,
}
use ravana.Value.{str}
use ravana.Secrets.Known.{ensure_secret_free}
use ravana.Tools.Execute.{ToolRequest, execute}
use ravana.Gateway.{ModelCall, Refusal, World, said, tool_result}
use ravana.Gateway.Steps.{and_then-Ends, and_then, Ends}
use ravana.Gateway.Turn.{
  TurnEnv, Turn, refuse, counted, call_failed, call_answered, request_of, recorded_call,
  dispatch_tool, call_tool, call_tools, ignore_all, say,
}

-- Ordinals from `bound` down, none twice, none below 1.
abbrev pub Descending : ℕ → List (ℕ × ToolRequest) → Type 0
Descending bound [] = Unit
Descending bound ((n, r) ∷ ds) = (1 ≤ n) × (n ≤ bound) × Descending (n - 1) ds

pub Descending-mono :
    (b c : ℕ) (ds : List (ℕ × ToolRequest)) → b ≤ c → Descending b ds → Descending c ds
Descending-mono b c [] le d = tt
Descending-mono b c ((n, r) ∷ ds) le (low, high, rest) = (low, omega (arith, le, high), rest)

pub Descending-length : (b : ℕ) (ds : List (ℕ × ToolRequest)) → Descending b ds → length ds ≤ b
Descending-length b [] d = omega arith
Descending-length b ((n, r) ∷ ds) (low, high, rest) =
    omega (arith, low, high, Descending-length (n - 1) ds rest)

module _ (e : TurnEnv) (allowed : List String) (base : List (ℕ × ToolRequest)) where
  -- A call within the budget, of a granted tool, for the turn's own run and node.
  abbrev pub Allowed : ℕ × ToolRequest → Type 0
  Allowed (n, r) =
      (n ≤ e.guards.max_tool_calls_per_turn)
      × (contains allowed r.tool ≡ true)
      × (r.run_id ≡ e.run_id)
      × (r.node_id ≡ e.node_id)

  -- What has been handed to the executor since `base`.
  abbrev pub Handed : ℕ → List (ℕ × ToolRequest) → World → Type 0
  Handed bound ds w = (w.dispatched ≡ ds ++ base) × Descending bound ds × All Allowed ds

  abbrev pub Granted : World → Type 0
  Granted w =
      (ds : List (ℕ × ToolRequest)) × Handed e.guards.max_tool_calls_per_turn ds w
      × (length ds ≤ e.guards.max_tool_calls_per_turn)

  -- The invariant of a turn in progress.
  abbrev pub TurnWell : Turn → World → Type 0
  TurnWell t w =
      (ds : List (ℕ × ToolRequest)) × Handed t.tool_call_count ds w
      × (length t.recorded ≤ length ds)
      × (t.repair_count ≤ e.guards.max_output_repairs)

  pub Descending-Allowed :
      (b : ℕ) (ds : List (ℕ × ToolRequest))
      → Descending b ds
      → All Allowed ds
      → Descending e.guards.max_tool_calls_per_turn ds
  Descending-Allowed b [] d all = tt
  Descending-Allowed b ((n, r) ∷ ds) (low, high, rest) ((within, _, _, _), all) =
      (low, within, rest)

  pub TurnWell-Granted : (t : Turn) (w : World) → TurnWell t w → Granted w
  TurnWell-Granted t w (ds, (eq, desc, all), recorded, repairs) =
      let within = Descending-Allowed t.tool_call_count ds desc all in
      (ds, (eq, within, all), Descending-length e.guards.max_tool_calls_per_turn ds within)

  -- Messages and a counted call change nothing of it.
  pub counted-TurnWell : (t : Turn) (w : World) → TurnWell t w → TurnWell (counted t) w
  counted-TurnWell t w (ds, (eq, desc, all), recorded, repairs) = (
    ds,
    (eq, Descending-mono t.tool_call_count (t.tool_call_count + 1) ds (omega arith) desc, all),
    recorded,
    repairs,
  )

  abbrev pub recorded_turn : ModelCall → String → Turn → Turn
  recorded_turn tc result t =
      say (tool_result tc.id tc.tool (said result))
        (record t { recorded = t.recorded ++ (recorded_call e tc t ∷ []) })

  module _ (tc : ModelCall) (t : Turn) (w : World) (ds : List (ℕ × ToolRequest))
      (handed : Handed t.tool_call_count ds w) (recorded : suc (length t.recorded) ≤ length ds)
      (repairs : t.repair_count ≤ e.guards.max_output_repairs) where
    pub failing-Granted : Granted w
    failing-Granted = TurnWell-Granted t w (ds, handed, omega (arith, recorded), repairs)

    pub call_failed-TurnWell : (ex : Exception) → Ends TurnWell Granted (call_failed ex tc t, w)
    call_failed-TurnWell (toolkit_error fatal) = failing-Granted
    call_failed-TurnWell (toolkit_error transient) = failing-Granted
    call_failed-TurnWell (toolkit_error model_addressable) =
        (ds, handed, omega (arith, recorded), repairs)
    call_failed-TurnWell outcome_unknown = failing-Granted
    call_failed-TurnWell ex = failing-Granted

    pub call_screened-TurnWell :
        (result : String) (screen : Result (Unit {0}))
        → Ends TurnWell Granted (screen >> ok (recorded_turn tc result t), w)
    call_screened-TurnWell result (raise ex) = failing-Granted
    call_screened-TurnWell result (ok done_) = (
      ds,
      handed,
      omega (arith, length-append t.recorded (recorded_call e tc t ∷ []), recorded),
      repairs,
    )

    pub call_answered-TurnWell :
        (answer : Result String) → Ends TurnWell Granted (call_answered e tc t answer, w)
    call_answered-TurnWell (raise ex) = call_failed-TurnWell ex
    call_answered-TurnWell (ok result) =
        call_screened-TurnWell result (ensure_secret_free none (str result))

  -- A call that is granted and within the budget, under an ordinal that is new.
  pub dispatch_tool-TurnWell :
      (tc : ModelCall) (t : Turn) (w : World)
      → contains allowed tc.tool ≡ true
      → t.tool_call_count + 1 ≤ e.guards.max_tool_calls_per_turn
      → TurnWell t w
      → Ends TurnWell Granted (dispatch_tool e tc (counted t) w)
  dispatch_tool-TurnWell tc t w granted within (ds, (eq, desc, all), recorded, repairs) =
      let n = t.tool_call_count + 1 in
      let one : ℕ × ToolRequest = (n, request_of e tc (counted t)) in
      call_answered-TurnWell tc (counted t) _ (one ∷ ds)
        (
          ap (λ rest. one ∷ rest) eq,
          (
            omega arith,
            omega arith,
            Descending-mono t.tool_call_count (n - 1) ds (omega arith) desc,
          ),
          ((within, granted, refl, refl), all),
        )
        (omega (arith, recorded)) repairs
        (execute e.executor (request_of e tc (counted t)) w.tools).0

  pub call_tool-TurnWell :
      (tc : ModelCall) (t : Turn) (w : World)
      → TurnWell t w
      → Ends TurnWell Granted (call_tool e allowed tc t w)
  call_tool-TurnWell tc t w well =
      let unchanged = counted-TurnWell t w well in
      if_cases (Ends TurnWell Granted) (not (contains allowed tc.tool)) (λ _. unchanged)
        (λ granted.
          if_cases (Ends TurnWell Granted)
            (ltb e.guards.max_tool_calls_per_turn (t.tool_call_count + 1)) (λ _. unchanged)
            (λ within.
              dispatch_tool-TurnWell tc t w (ground (arith, granted)) (ground (arith, within))
                well))

  pub call_tools-TurnWell :
      (tcs : List ModelCall) (t : Turn) (w : World)
      → TurnWell t w
      → Ends TurnWell Granted (call_tools e allowed tcs t w)
  unfolding call_tools
  call_tools-TurnWell [] t w well = well
  call_tools-TurnWell (tc ∷ tcs) t w well =
      and_then-Ends TurnWell TurnWell Granted (call_tool e allowed tc t w)
        (call_tools e allowed tcs) (call_tool-TurnWell tc t w well) (call_tools-TurnWell tcs)
