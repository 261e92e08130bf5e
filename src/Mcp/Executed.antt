-- ===== src/Mcp/Executed.antt =====
-- A handler of an MCP server in the executor, and the calls that have reached the server.
pub mod Own
pub mod Once
use ravana.Prelude.{
  ℕ, zero, suc, ◌≤◌, ◌≡◌, refl, sym, ap, ◌∙◌, subst, String, Bool, true, false, ◌&&◌, Option, none,
  some, List, [], ◌∷◌, All, any, arith, str_eq, or_else, length, keep, if_cases, if◌then◌else◌,
}
use ravana.Exception.{
  Result, ok, raise, key_error, guard, ◌>>=◌, ◌>>◌, Returns, >>=-Returns, >>=-Returns_from,
}
use ravana.Dict.{Dict, get, has_key, values}
use ravana.Value.{Value, State, bool, str, obj, end, field}
use ravana.Tools.{
  Tool, CallRequest, Call, Handler, Resolved, is_named, pinned_tools, matches, choose, resolve,
}
use ravana.Tools.Ledger.{Ledger, InvocationStatus, started, succeeded, failed, claim}
use ravana.Tools.Execute.{
  Executor, Tools, ToolRequest, Ready, Begun, answered, calling, called, schema_of, make_ready,
  side_effecting_as, is_side_effecting, after_claim, begin_ready, begin, finish, execute, die_with,
  scope,
}
use ravana.Tools.Once.{
  unfailed, unfailed_under, times_unfailed, Step, executed, died, Reachable, start, next, allowance,
  status_of,
}
use ravana.Tools.Once.Steps.{Reachable-Bounded}
use ravana.Mcp.{McpServer, Pins, is_side_effecting_for_tool}
use ravana.Mcp.Session.{McpEnv}
use ravana.Mcp.Handler.{sub_tools_for, resolve_sub_tool, pinned_for}
use ravana.Mcp.Call.{call}
use ravana.Mcp.Safe.{IsSettled, call-IsSettled}

abbrev pinned_schema : Option Tool → Result Value
pinned_schema none = raise key_error
pinned_schema (some t) = ok t.input_schema

-- The schema that is declared for the handler itself, which the executor does not use.
abbrev any_object : Value
any_object = obj (field "type" (str "object") (field "additionalProperties" (bool true) end))

-- A server that is installed: its handler and pins of the moment, `repr`, and what its sessions meet
-- after the calls before them.
pub record Installed : Type 0 where
  pub description : String
  pub meets : List Call → McpEnv
  pub repr : String → String
  pub server : McpServer
  pub pins : Pins

-- An McpServerHandler as the executor reads it. The executor asks for the schema of a name that it
-- has resolved.
unfoldable pub as_handler : Installed → Handler
unfolding sub_tools_for resolve_sub_tool call
as_handler s = record {
  description = s.description;
  input_schema = any_object;
  executable = s.pins.executable;
  sub_tools = some (λ run_id. sub_tools_for s.repr s.server run_id s.pins);
  is_prepared_for = some (λ run_id. has_key s.pins.pinned_by_run run_id);
  input_schema_for_tool = some (λ run_id tool.
      resolve_sub_tool s.server run_id (some tool) s.pins >>= λ sub_tool.
      pinned_schema (get (pinned_for run_id s.pins) sub_tool));
  is_side_effecting = λ arguments. true;
  is_side_effecting_for_tool = some (λ tool arguments. is_side_effecting_for_tool s.server tool);
  call = λ r calls. (call (s.meets calls) s.server r.run_id r.sub_tool s.pins).0;
}

abbrev pub effect_of : McpServer → Option String → Bool
effect_of h none = true
effect_of h (some tool) = is_side_effecting_for_tool h tool

module _ (s : Installed) where
  abbrev pub own : Handler
  own = as_handler s

  -- An executor whose toolkits are all this server.
  abbrev pub OnlyThis : Executor → Type 0
  OnlyThis x = All (λ k. k ≡ own) (values x.handlers)

  abbrev pub has_reached : Call → List Call → Option (Result String) → Bool
  has_reached c before none = true
  has_reached c before (some answer) =
      (call (s.meets before) s.server c.request.run_id c.request.sub_tool s.pins).1

  -- Whether a call has reached the server: it may have, when nobody learnt its answer.
  abbrev pub was_dispatched : Call → List Call → Bool
  was_dispatched c before = has_reached c before c.answer

  -- How often calls with an effect may have reached the server under a key.
  pub dispatches : String → List Call → ℕ
  dispatches key [] = 0
  dispatches key (c ∷ calls) =
      let rest = dispatches key calls in
      if effect_of s.server c.request.sub_tool
        && str_eq c.request.idempotency_key key
        && was_dispatched c calls
      then suc rest
      else rest

  abbrev pub Answered : Call → List Call → Option (Result String) → Type 0
  Answered c before none = Unit
  Answered c before (some answer) =
      answer ≡ (call (s.meets before) s.server c.request.run_id c.request.sub_tool s.pins).0

  -- A call that the executor has made of this handler.
  abbrev pub Genuine : Call → List Call → Type 0
  Genuine c before =
      (c.side_effecting ≡ effect_of s.server c.request.sub_tool) × Answered c before c.answer

  abbrev pub AllGenuine : List Call → Type 0
  AllGenuine [] = Unit
  AllGenuine (c ∷ calls) = Genuine c calls × AllGenuine calls

  abbrev pub Own : Ready → Type 0
  Own ready =
      (ready.handler ≡ own) × (ready.side_effecting ≡ effect_of s.server ready.call.sub_tool)

  abbrev pub OwnResolved : Resolved → Type 0
  OwnResolved r = r.handler ≡ own
