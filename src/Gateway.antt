-- ===== src/Gateway.antt =====
-- runtime/gateway.py and the message types of runtime/providers/base.py: what the gateway asks a
-- provider, and what stands before a turn. Texts that the gateway writes are kept by their kind.
pub mod Steps
pub mod Fallback
pub mod Turn
pub mod Verdicts
pub mod Judge
use ravana.Prelude.{
  ℕ, String, Bool, true, false, ◌||◌, Option, none, some, List, [], ◌∷◌, ◌++◌, map, any,
  if◌then◌else◌,
}
use ravana.Prelude.Int.{ℤ}
use ravana.Exception.{Exception, provider_error, Result, ok, raise, ◌>>=◌}
use ravana.Dict.{Dict, get}
use ravana.Value.{Value, null, str, arr, obj, Elements, nil, cons, Entries, end, field, State}
use ravana.Secrets.Known.{ensure_secret_free}
use ravana.Tools.{Tool}
use ravana.Tools.Execute.{Tools, ToolRequest}

abbrev pub submit_result : String
submit_result = "submit_result"

abbrev pub submit_verdict : String
submit_verdict = "submit_verdict"

pub data Capability : Type 0 where
  guided_decoding native_structured_output : Capability

pub record ProviderTarget : Type 0 where
  pub provider : String
  pub model : String
  pub endpoint : Option String

-- LLMConfig, less its sampling temperature and its fallback list, and LLMFallbackEntry
pub record LlmConfig : Type 0 where
  pub provider : String
  pub model : String
  pub endpoint : Option String
  pub api_key_ref : Option String
  pub max_tokens : Option ℕ

pub record LlmFallbackEntry : Type 0 where
  pub provider : String
  pub model : String
  pub endpoint : Option String
  pub api_key_ref : Option String

-- NormalizedToolCall
pub record ModelCall : Type 0 where
  pub id : String
  pub tool : String
  pub arguments : State

-- What the gateway says to the model.
pub data Prompt : Type 0 where
  respond_with_json complete_task rule_on_criteria : Prompt
  invalid_output call_submit_result : Prompt

-- Why a tool call has an error for its result.
pub data Refusal : Type 0 where
  not_available over_budget tool_failed submit_ignored : Refusal

pub data Content : Type 0 where
  said : String → Content
  refused : Refusal → Content

pub data Message : Type 0 where
  user_message : Prompt → Message
  assistant_message : List ModelCall → Option String → Message
  tool_result : (id tool : String) → Content → Message

pub record ProviderRequest : Type 0 where
  pub llm : LlmConfig
  pub api_key : Option String
  pub messages : List Message
  pub tools : List Tool
  pub force_tool : Option String
  pub output_schema : Option Value

pub record ProviderResponse : Type 0 where
  pub text : Option String
  pub tool_calls : List ModelCall
  pub input_tokens : ℤ
  pub output_tokens : ℤ
  pub stop_reason : Option String

-- What happens around the gateway, newest first: the requests to providers, their responses, the
-- tool calls that it hands to the executor with their ordinals, what `retry_sleep` was asked, and
-- the executor's own state.
pub record World : Type 0 where
  pub requests : List ProviderRequest
  pub responses : List ProviderResponse
  pub dispatched : List (ℕ × ToolRequest)
  pub sleeps : List ℕ
  pub tools : Tools

-- A provider's answer may depend on everything before it.
pub record Adapter : Type 0 where
  pub capabilities : ProviderTarget → List Capability
  pub complete : ProviderRequest → World → Result ProviderResponse

abbrev target : LlmConfig → ProviderTarget
target llm = record { provider = llm.provider; model = llm.model; endpoint = llm.endpoint }

-- _Strategy
pub data Strategy : Type 0 where
  use_guided use_native_forced_tool repair_loop : Strategy

abbrev is_guided : Capability → Bool
is_guided guided_decoding = true
is_guided native_structured_output = false

abbrev is_native : Capability → Bool
is_native guided_decoding = false
is_native native_structured_output = true

-- _select_strategy, and `_strategy_for`, which remembers what it says of a target
unfoldable pub select_strategy : Adapter → LlmConfig → Strategy
select_strategy adapter llm =
    let caps = adapter.capabilities (target llm) in
    if any is_guided caps
    then use_guided
    else (if any is_native caps then use_native_forced_tool else repair_loop)

abbrev registered : Option Adapter → Result Adapter
registered none = raise (provider_error false)
registered (some adapter) = ok adapter

-- _adapter_for
unfoldable pub adapter_for : Dict Adapter → String → Result Adapter
adapter_for adapters provider = registered (get adapters provider)

abbrev resolved_key : Result String → Result (Option String)
resolved_key (ok key) = ok (some key)
resolved_key (raise e) = raise (provider_error false)

abbrev key_by : Option (String → Result String) → String → Result (Option String)
key_by none ref = raise (provider_error false)
key_by (some resolve) ref = resolved_key (resolve ref)

abbrev key_for : Option (String → Result String) → Option String → Result (Option String)
key_for resolver none = ok none
key_for resolver (some ref) = key_by resolver ref

-- _resolve_api_key
unfoldable pub resolve_api_key :
    Option (String → Result String) → LlmConfig → Result (Option String)
resolve_api_key resolver llm = key_for resolver llm.api_key_ref

-- _fallback_to_llm
unfoldable pub fallback_to_llm : LlmFallbackEntry → LlmConfig
fallback_to_llm entry = record {
  provider = entry.provider;
  model = entry.model;
  endpoint = entry.endpoint;
  api_key_ref = entry.api_key_ref;
  max_tokens = none;
}

abbrev or_null : Option String → Value
or_null none = null
or_null (some s) = str s

abbrev pub entries_of : State → Entries
entries_of [] = end
entries_of ((k, v) ∷ s) = field k v (entries_of s)

abbrev call_value : ModelCall → Value
call_value c = obj (
    field "id" (str c.id)
      (field "tool" (str c.tool) (field "arguments" (obj (entries_of c.arguments)) end)))

abbrev elements : List Value → Elements
elements [] = nil
elements (v ∷ vs) = cons v (elements vs)

-- the dictionary that `_ensure_provider_response_secret_free` screens
abbrev pub response_value : ProviderResponse → Value
response_value r = obj (
    field "text" (or_null r.text) (
      field "tool_calls" (arr (elements (map call_value r.tool_calls)))
        (field "stop_reason" (or_null r.stop_reason) end)))

unfoldable pub ensure_response_secret_free : Option String → ProviderResponse → Result (Unit {0})
ensure_response_secret_free api_key r = ensure_secret_free api_key (response_value r)

abbrev received :
    ProviderRequest → World → Result ProviderResponse → Result ProviderResponse × World
received request w (raise e) = (raise e, record w { requests = request ∷ w.requests })
received request w (ok r) =
    (ok r, record w { requests = request ∷ w.requests; responses = r ∷ w.responses })

-- `await adapter.complete(request)`
abbrev pub ask : Adapter → ProviderRequest → World → Result ProviderResponse × World
ask adapter request w = received request w (adapter.complete request w)

-- `json.loads` of the standard library, for a text that is not empty
abbrev pub parse_json : (String → Option Value) → Option String → Option Value
parse_json loads none = none
parse_json loads (some String.[]) = none
parse_json loads (some text) = loads text
