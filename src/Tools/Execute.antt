-- ===== src/Tools/Execute.antt =====
-- `RavanaToolExecutor.execute`, in two parts: what happens before a handler is called, and after.
use ravana.Prelude.{String, Bool, true, Option, none, some, List, ◌∷◌, find, if◌then◌else◌}
use ravana.Exception.{
  toolkit_error, model_addressable, outcome_unknown, cancelled_error, Result, ok, raise, guard,
  ◌>>=◌, ◌>>◌,
}
use ravana.Dict.{Dict}
use ravana.Value.{Value, State}
use ravana.Tools.{
  Tool, Handler, CallRequest, Call, Resolved, sub_tools_for, list_or_nil, is_named, resolve,
}
use ravana.Tools.Ledger.{
  Ledger, Scope, succeeded, failed, rollback, claim, record_outcome, record_indeterminate,
}

-- The executor: its handlers, and `validate_json` of runtime/schema_validate.py, which says whether
-- arguments are valid against a schema.
pub record Executor : Type 0 where
  pub handlers : Dict Handler
  pub validate_json : State → Value → Bool

-- The ledger, and every call to a handler so far, newest first.
pub record Tools : Type 0 where
  pub ledger : Ledger
  pub calls : List Call

pub record ToolRequest : Type 0 where
  pub run_id : String
  pub node_id : String
  pub tool : String
  pub arguments : State
  pub idempotency_key : String

abbrev pub scope : ToolRequest → Scope
scope r = record { run_id = r.run_id; node_id = r.node_id; tool = r.tool; key = r.idempotency_key }

abbrev schema_or : Value → Option Tool → Value
schema_or default none = default
schema_or default (some t) = t.input_schema

abbrev listed_schema : Handler → String → String → Result Value
listed_schema h run_id sub = do
  tools ← sub_tools_for h (some run_id) true
  ok (schema_or h.input_schema (find (is_named sub) (list_or_nil tools)))

abbrev sub_schema :
    Handler → String → String → Option (String → String → Result Value) → Result Value
sub_schema h run_id sub none = listed_schema h run_id sub
sub_schema h run_id sub (some f) = f run_id sub

-- the schema that the arguments are checked against
abbrev pub schema_of : Resolved → String → Result Value
schema_of r run_id = elim r.sub_tool [
  | none ↦ ok r.handler.input_schema
  | some sub ↦ sub_schema r.handler run_id sub r.handler.input_schema_for_tool
]

abbrev pub side_effecting_as :
    Handler → State → Option String → Option (String → State → Bool) → Bool
side_effecting_as h arguments (some sub) (some f) = f sub arguments
side_effecting_as h arguments _ _ = h.is_side_effecting arguments

abbrev pub is_side_effecting : Resolved → State → Bool
is_side_effecting r arguments =
    side_effecting_as r.handler arguments r.sub_tool r.handler.is_side_effecting_for_tool

-- A request that is resolved and valid.
pub record Ready : Type 0 where
  pub handler : Handler
  pub call : CallRequest
  pub side_effecting : Bool

unfoldable pub make_ready : Executor → ToolRequest → Result Ready
make_ready x r = do
  resolved ← resolve x.handlers r.tool r.run_id
  schema ← schema_of resolved r.run_id
  guard (x.validate_json r.arguments schema) (toolkit_error model_addressable)
  ok (record {
    handler = resolved.handler;
    call = record {
      run_id = r.run_id;
      sub_tool = resolved.sub_tool;
      arguments = r.arguments;
      idempotency_key = r.idempotency_key;
    };
    side_effecting = is_side_effecting resolved r.arguments;
  })

-- What stands before the call: an answer without one, or a call to make, with the ledger as it is.
pub data Begun : Type 0 where
  answered : Result String → Ledger → Begun
  calling : Ready → Ledger → Begun

abbrev pub after_claim : Ready → Result (Option String) × Ledger → Begun
after_claim ready (ok none, l) = calling ready l
after_claim ready (ok (some result), l) = answered (ok result) l
after_claim ready (raise e, l) = answered (raise e) l

abbrev pub begin_ready : ToolRequest → Ledger → Result Ready → Begun
begin_ready r l (raise e) = answered (raise e) l
begin_ready r l (ok ready) =
    if ready.side_effecting then after_claim ready (claim (scope r) l) else calling ready l

unfoldable pub begin : Executor → ToolRequest → Ledger → Begun
begin x r l = begin_ready r l (make_ready x r)

-- what is raised when the ledger was to be written and then `answer` raised or returned
abbrev pub unless_lost : Result String → Result (Unit {0}) × Ledger → Result String × Ledger
unless_lost answer (ok _, l) = (answer, l)
unless_lost answer (raise e, l) = (raise e, l)

-- The handlers of the `try` block. A cancellation is no `Exception`: it passes by, and the claim
-- stays STARTED.
unfoldable pub settle : Scope → Result String → Ledger → Result String × Ledger
settle s (ok result) l = unless_lost (ok result) (record_outcome s succeeded (some result) none l)
settle s (raise outcome_unknown) l =
    unless_lost (raise outcome_unknown) (record_indeterminate s outcome_unknown l)
settle s (raise cancelled_error) l = (raise cancelled_error, l)
settle s (raise e) l = unless_lost (raise e) (record_outcome s failed none (some e) l)

abbrev pub called : Ready → Option (Result String) → Call
called ready answer = record {
  request = ready.call;
  side_effecting = ready.side_effecting;
  answer = answer;
}

abbrev pub answer_of : Ready → List Call → Result String
answer_of ready calls = ready.handler.call ready.call calls

abbrev pub settled : ToolRequest → Ready → Result String → Ledger → Result String × Ledger
settled r ready answer l = if ready.side_effecting then settle (scope r) answer l else (answer, l)

abbrev pub finish : ToolRequest → List Call → Begun → Result String × Tools
finish r calls (answered a l) = (a, record { ledger = l; calls = calls })
finish r calls (calling ready l) =
    let answer = answer_of ready calls in
    let done = settled r ready answer l in
    (done.0, record { ledger = done.1; calls = called ready (some answer) ∷ calls })

unfoldable pub execute : Executor → ToolRequest → Tools → Result String × Tools
execute x r t = finish r t.calls (begin x r t.ledger)

-- The process dies once the call is claimed, before the call or during it: what was committed
-- stays, and nobody learns the answer.
abbrev pub die_with : List Call → Bool → Begun → Tools
die_with calls during (answered a l) = record { ledger = rollback l; calls = calls }
die_with calls during (calling ready l) = record {
  ledger = rollback l;
  calls = if during then called ready none ∷ calls else calls;
}

abbrev pub die : Executor → ToolRequest → Bool → Tools → Tools
die x r during t = die_with t.calls during (begin x r t.ledger)
