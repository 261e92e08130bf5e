-- ===== src/Tools.antt =====
-- runtime/tool_executor.py: the tools that a run offers, and the handler that a called name means.
-- A handler is what the executor reads of it; the optional methods are optional fields.
pub mod Ledger
pub mod Execute
pub mod Once
pub mod Offered
pub mod Snapshot
use ravana.Prelude.{
  ℕ, zero, suc, String, Bool, true, false, not, ◌&&◌, ◌||◌, Option, none, some, List, [], ◌∷◌, ◌++◌,
  map, keep, any, contains, distinct, length, str_eq, ltb, ◌==◌, if◌then◌else◌,
}
use ravana.Exception.{
  Exception, toolkit_error, ToolFailureKind, transient, fatal, model_addressable, Result, ok, raise,
  guard, ◌>>=◌, ◌>>◌,
}
use ravana.Dict.{Dict, get, has_key, values}
use ravana.Value.{Value, State}

-- providers/base.py
pub record Tool : Type 0 where
  pub name : String
  pub description : String
  pub input_schema : Value

-- The arguments of `handler.call`.
pub record CallRequest : Type 0 where
  pub run_id : String
  pub sub_tool : Option String
  pub arguments : State
  pub idempotency_key : String

-- One dispatch to a handler, with what the handler answered, unless the process died first.
pub record Call : Type 0 where
  pub request : CallRequest
  pub side_effecting : Bool
  pub answer : Option (Result String)

-- What a call answers may depend on every call before it.
pub record Handler : Type 0 where
  pub description : String
  pub input_schema : Value
  pub executable : Bool
  pub sub_tools : Option (String → Result (List Tool))
  pub is_prepared_for : Option (String → Bool)
  pub input_schema_for_tool : Option (String → String → Result Value)
  pub is_side_effecting : State → Bool
  pub is_side_effecting_for_tool : Option (String → State → Bool)
  pub call : CallRequest → List Call → Result String

abbrev unprepared : Option (String → Bool) → String → Bool
unprepared none run_id = false
unprepared (some is_prepared) run_id = not (is_prepared run_id)

abbrev read_sub_tools :
    Handler
    → Option String
    → Bool
    → Option (String → Result (List Tool))
    → Result (Option (List Tool))
read_sub_tools h run_id require_prepared none = ok none
read_sub_tools h none require_prepared (some f) = raise (toolkit_error model_addressable)
read_sub_tools h (some run_id) require_prepared (some f) =
    if not require_prepared && unprepared h.is_prepared_for run_id
    then ok (some [])
    else f run_id >>= λ tools. ok (some tools)

-- _sub_tools_for
unfoldable pub sub_tools_for : Handler → Option String → Bool → Result (Option (List Tool))
sub_tools_for h run_id require_prepared = read_sub_tools h run_id require_prepared h.sub_tools

-- `_sub_tools_for(…, require_prepared=False) or []`
abbrev pub list_or_nil {ℓ} : {A : Type ℓ} → Option (List A) → List A
list_or_nil none = []
list_or_nil (some xs) = xs

unfoldable pub pinned_tools : Handler → String → Result (List Tool)
pinned_tools h run_id = sub_tools_for h (some run_id) false >>= λ tools. ok (list_or_nil tools)

-- A tool that is offered, and whether it is a sub-tool of its handler.
pub record Offer : Type 0 where
  pub tool : Tool
  pub is_sub : Bool

abbrev pub offer_handler : String → Handler → Option (List Tool) → List Offer
offer_handler tid h none =
    record {
      tool = record { name = tid; description = h.description; input_schema = h.input_schema };
      is_sub = false;
    }
    ∷ []
offer_handler tid h (some tools) = map (λ t. record { tool = t; is_sub = true }) tools

abbrev pub offer_toolkit : Option String → String → Option Handler → Result (List Offer)
offer_toolkit run_id tid none = raise (toolkit_error model_addressable)
offer_toolkit run_id tid (some h) = do
  guard h.executable (toolkit_error model_addressable)
  tools ← sub_tools_for h run_id true
  ok (offer_handler tid h tools)

-- the loop over `toolkit_ids`
unfoldable pub offers : Dict Handler → Option String → List String → Result (List Offer)
offers handlers run_id [] = ok []
offers handlers run_id (tid ∷ toolkit_ids) = do
  these ← offer_toolkit run_id tid (get handlers tid)
  others ← offers handlers run_id toolkit_ids
  ok (these ++ others)

unfoldable pub all_pinned : List Handler → String → Result (List Tool)
all_pinned [] run_id = ok []
all_pinned (h ∷ handlers) run_id = do
  these ← pinned_tools h run_id
  others ← all_pinned handlers run_id
  ok (these ++ others)

-- what `global_sub_tool_counts` counts
abbrev pub pinned_in_run : Dict Handler → Option String → Result (List Tool)
pinned_in_run handlers none = ok []
pinned_in_run handlers (some run_id) = all_pinned (values handlers) run_id

abbrev pub is_named : String → Tool → Bool
is_named name t = str_eq t.name name

abbrev pub count_named : List Tool → String → ℕ
count_named tools name = length (keep (is_named name) tools)

abbrev pub offer_name : Offer → String
offer_name o = o.tool.name

abbrev pub sub_tool_names : List Offer → List String
sub_tool_names os = map offer_name (keep (λ o. o.is_sub) os)

-- the condition of `collisions`
abbrev pub collides : Dict Handler → List String → List Tool → String → Bool
collides handlers sub_names pinned name =
    (contains sub_names name && not (count_named pinned name == 1))
    || (has_key handlers name && contains sub_names name)
    || (not (contains sub_names name) && ltb 0 (count_named pinned name))

abbrev pub checked_offers : Dict Handler → List Offer → List Tool → Result (List Tool)
checked_offers handlers os pinned = do
  let names = map offer_name os
  guard (not (any (collides handlers (sub_tool_names os) pinned) names))
      (toolkit_error model_addressable)
  guard (length names == length (distinct names)) (toolkit_error model_addressable)
  ok (map (λ o. o.tool) os)

unfoldable pub tools_for : Dict Handler → List String → Option String → Result (List Tool)
tools_for handlers toolkit_ids run_id = do
  os ← offers handlers run_id toolkit_ids
  pinned ← pinned_in_run handlers run_id
  checked_offers handlers os pinned

-- the comprehension `matches` of `_resolve`
unfoldable pub matches : List Handler → String → String → Result (List Handler)
matches [] tool run_id = ok []
matches (h ∷ handlers) tool run_id = do
  these ← pinned_tools h run_id
  others ← matches handlers tool run_id
  ok (if any (is_named tool) these then h ∷ others else others)

pub record Resolved : Type 0 where
  pub handler : Handler
  pub sub_tool : Option String

abbrev pub choose : String → Option Handler → List Handler → Result Resolved
choose tool (some h) [] = ok (record { handler = h; sub_tool = none })
choose tool (some h) (m ∷ ms) = raise (toolkit_error model_addressable)
choose tool none (m ∷ []) = ok (record { handler = m; sub_tool = some tool })
choose tool none (m ∷ n ∷ ms) = raise (toolkit_error model_addressable)
choose tool none [] = raise (toolkit_error model_addressable)

-- _resolve
unfoldable pub resolve : Dict Handler → String → String → Result Resolved
resolve handlers tool run_id = do
  found ← matches (values handlers) tool run_id
  choose tool (get handlers tool) found
