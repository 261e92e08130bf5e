-- ===== src/Usage.antt =====
-- runtime/base.py: token counts, checked at every boundary, and the results of an agent turn.
use ravana.Prelude.{ℕ, ◌+◌, ◌≤◌, String, ◌≡◌, Option, List, arith}
use ravana.Prelude.Int.{ℤ, pos, negsuc}
use ravana.Exception.{Result, ok, raise, value_error, ◌>>=◌}
use ravana.Value.{State}

-- What a runtime may report as a count: an `int`, or anything else (`bool`, `float`, …).
pub data Reported : Type 0 where
  an_int : ℤ → Reported
  not_an_int : Reported

-- _as_token_count
unfoldable pub as_token_count : Reported → Result ℕ
as_token_count (an_int (pos n)) = ok n
as_token_count (an_int (negsuc n)) = raise value_error
as_token_count not_an_int = raise value_error

pub record LlmUsage : Type 0 where
  pub input_tokens : ℕ
  pub output_tokens : ℕ

abbrev pub total : LlmUsage → ℕ
total u = u.input_tokens + u.output_tokens

-- LLMUsage(input_tokens, output_tokens)
unfoldable pub llm_usage : Reported → Reported → Result LlmUsage
unfolding as_token_count
llm_usage i o = do
  n ← as_token_count i
  m ← as_token_count o
  ok (record { input_tokens = n; output_tokens = m })

-- LLMUsage.add
unfoldable pub add_usage : LlmUsage → Reported → Reported → Result LlmUsage
unfolding as_token_count
add_usage u i o = do
  n ← as_token_count i
  m ← as_token_count o
  ok (record { input_tokens = u.input_tokens + n; output_tokens = u.output_tokens + m })

-- One recorded tool call of a turn; the fields that a runtime may leave out are optional.
pub record ToolCall : Type 0 where
  pub tool : String
  pub arguments : State
  pub logical_visit_id : Option ℕ
  pub tool_call_ordinal : Option ℕ
  pub idempotency_key : Option String

-- What a runtime returns, before the engine checks it.
pub record RawTurn : Type 0 where
  pub structured_payload : State
  pub content : Option String
  pub tool_calls : List ToolCall
  pub input_tokens : Reported
  pub output_tokens : Reported
  pub repair_count : ℕ
  pub tool_call_count : ℕ

pub record AgentTurnResult : Type 0 where
  pub structured_payload : State
  pub content : Option String
  pub tool_calls : List ToolCall
  pub usage : LlmUsage
  pub repair_count : ℕ
  pub tool_call_count : ℕ

-- Accumulating a call, when it succeeds, lowers neither count.
pub add_usage_grows :
    (u : LlmUsage) (i o : Reported) {v : LlmUsage}
    → add_usage u i o ≡ ok v
    → (u.input_tokens ≤ v.input_tokens) × (u.output_tokens ≤ v.output_tokens)
unfolding add_usage
add_usage_grows u (an_int (pos n)) (an_int (pos m)) h = ground arith
add_usage_grows u i o h = ground arith
