-- ===== src/Tools/Once.antt =====
-- What the ledger is for: over any sequence of calls, deaths of the process and retries, a
-- side-effecting call is made again under its idempotency key only when every earlier one came back
-- with a reported failure.
mod Claims
mod Answers
mod Begins
pub mod Steps
mod Lasting
pub mod Order
pub mod Replay
use ravana.Prelude.{
  ℕ, ◌≤◌, ◌≡◌, refl, String, Bool, true, false, ◌&&◌, Option, none, some, List, [], ◌∷◌, length,
  keep, str_eq,
}
use ravana.Exception.{Exception, outcome_unknown, cancelled_error, Result, ok, raise}
use ravana.Dict.{Dict, get}
use ravana.Tools.{Call}
use ravana.Tools.Ledger.{Ledger, Invocation, InvocationStatus, started, succeeded, failed, commit}
use ravana.Tools.Execute.{Executor, Tools, ToolRequest, execute, die}

-- Whether a call did not come back with a reported failure: it answered, nobody learnt its answer,
-- or it raised `ToolOutcomeUnknown` (runtime/toolkits/base.py) or a plain cancellation, which report
-- nothing. A reported failure may still have had its effect, as a tool that timed out.
abbrev pub unfailed : Option (Result String) → Bool
unfailed none = true
unfailed (some (ok result)) = true
unfailed (some (raise outcome_unknown)) = true
unfailed (some (raise cancelled_error)) = true
unfailed (some (raise e)) = false

abbrev pub unfailed_under : String → Call → Bool
unfailed_under key c = c.side_effecting && str_eq c.request.idempotency_key key && unfailed c.answer

abbrev pub times_unfailed : List Call → String → ℕ
times_unfailed calls key = length (keep (unfailed_under key) calls)

-- The executor on its own: requests that are executed, and processes that die in one.
pub data Step (x : Executor) : Tools → Tools → Type 0 where
  executed : (r : ToolRequest) (t : Tools) → Step x t ((execute x r t).1)
  died : (r : ToolRequest) (during : Bool) (t : Tools) → Step x t (die x r during t)

abbrev pub fresh_tools : Tools
fresh_tools = record { ledger = commit []; calls = [] }

pub data Reachable (x : Executor) : Tools → Type 0 where
  start : Reachable x fresh_tools
  next : {t u : Tools} → Reachable x t → Step x t u → Reachable x u

-- how many calls without a reported failure a row stands for
abbrev pub allowance : Option InvocationStatus → ℕ
allowance none = 0
allowance (some started) = 1
allowance (some succeeded) = 1
allowance (some failed) = 0

abbrev pub status_of : Dict Invocation → String → Option InvocationStatus
status_of rows key = elim (get rows key) [ none ↦ none | some r ↦ some r.status ]

-- The invariant: nothing is left uncommitted, and the rows bound the calls that have not come back
-- with a reported failure.
abbrev pub Bounded : Tools → Type 0
Bounded t =
    (t.ledger.durable ≡ t.ledger.current)
    × ((key : String) → times_unfailed t.calls key ≤ allowance (status_of t.ledger.current key))
