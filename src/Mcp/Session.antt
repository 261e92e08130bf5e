-- ===== src/Mcp/Session.antt =====
-- What a handler of an MCP server meets: sessions of the SDK, `json`, digests and the clock.
use ravana.Prelude.{ℕ, String, Bool, Option, List}
use ravana.Exception.{runtime_error, cancelled_error, Result, ok, raise, ◌>>◌}
use ravana.Dict.{Dict}
use ravana.Value.{Value}
use ravana.Mcp.{McpServer}
use ravana.Mcp.Pin.{Page}

-- How an SDK call ends: with a value, with an `Exception`, or with a CancelledError.
pub data Awaited (A : Type 0) : Type 0 where
  returned : A → Awaited A
  failed cancelled : Awaited A

-- An SDK exception is no ToolkitError: one class stands for them all.
abbrev pub awaited : {A : Type 0} → Awaited A → Result A
awaited (returned a) = ok a
awaited failed = raise runtime_error
awaited cancelled = raise cancelled_error

-- CallToolResult
pub data Content : Type 0 where
  text : String → Content
  another : (type : String) → Content

pub record CallToolResult : Type 0 where
  pub content : List Content
  pub is_error : Bool

-- One session: its opening, its answers, and its closing.
pub record Session : Type 0 where
  pub opened : Awaited (Unit {0})
  pub list_tools : ℕ → Option String → Awaited Page
  pub call_tool : Awaited CallToolResult
  pub closed : Awaited (Unit {0})

-- The rest of the world, for one method: `json`, the digests, `repr`, the clock, the session that a
-- child process with an environment gives, the pages that its timeout lets through, and whether it
-- is the timeout that cancels.
pub record McpEnv : Type 0 where
  pub loads : String → Option Value
  pub dumps : Value → String
  pub snapshot_fingerprint : McpServer → String
  pub repr : String → String
  pub now : ℕ
  pub session : Dict String → Session
  pub pages : ℕ
  pub by_timeout : Bool

-- `async with self._open_session(env)`: an exception of the closing takes the place of the answer.
abbrev pub closing {ℓ} : {A : Type ℓ} → Result (Unit {0}) → Result A → Result A
closing (raise e) answer = raise e
closing (ok done_) answer = answer

abbrev pub in_session {ℓ} : {A : Type ℓ} → Session → Result A → Result A
in_session s body = closing (awaited s.closed) (awaited s.opened >> body)
