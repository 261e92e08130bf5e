-- ===== src/Mcp/Safe.antt =====
-- What a failed call says of its effect.
use ravana.Prelude.{◌≡◌, refl, sym, subst, String, Bool, true, false, not, Option, none, some}
use ravana.Exception.{
  runtime_error, toolkit_error, ToolFailureKind, fatal, model_addressable, cancelled_error,
  outcome_unknown, secret_leak_error, Result, ok, raise, guard, ◌>>=◌, ◌>>◌,
}
use ravana.Dict.{has_key}
use ravana.Value.{str}
use ravana.Secrets.Known.{contains_known, ensure_secret_free}
use ravana.Tools.Once.{unfailed}
use ravana.Mcp.{
  McpServer, Pins, Token, resolved, plain, unsupported, unqualified, is_side_effecting_sub_tool,
  is_side_effecting_for_tool, failure_for_phase, child_environment, ChildEnvironment, with_token,
  resolve_token, screen, or_leak, inherited, update,
}
use ravana.Mcp.Session.{
  Awaited, returned, failed, cancelled, awaited, CallToolResult, Session, McpEnv, closing,
}
use ravana.Mcp.Handler.{resolve_sub_tool, pinned_for}
use ravana.Mcp.Call.{
  render, classified, screened_result, when_opened, with_environment, call_once, phased,
  call_resolved, call,
}

-- The answer of a call says what the executor makes of it: it is a reported failure, exactly unless
-- the tool was dispatched.
abbrev pub IsSettled : Result String × Bool → Type 0
IsSettled (answer, dispatched) = dispatched ≡ unfailed (some answer)

-- How the steps after a dispatch end, and those before one.
data After : Result String → Type 0 where
  answered : (s : String) → After (ok s)
  broke : After (raise runtime_error)
  stopped : After (raise cancelled_error)
  leaked : After (raise outcome_unknown)

data Before : Result String → Type 0 where
  broke : Before (raise runtime_error)
  stopped : Before (raise cancelled_error)
  refused : (kind : ToolFailureKind) → Before (raise (toolkit_error kind))

closing-After :
    (closed : Awaited (Unit {0})) (out : Result String)
    → After out
    → After (closing (awaited closed) out)
closing-After (returned done_) out after = after
closing-After failed out after = After.broke
closing-After cancelled out after = After.stopped

closing-Before :
    (closed : Awaited (Unit {0})) (out : Result String)
    → Before out
    → Before (closing (awaited closed) out)
closing-Before (returned done_) out before = before
closing-Before failed out before = Before.broke
closing-Before cancelled out before = Before.stopped

module _ (h : McpServer) (sub_tool : String) where
  screened-After :
      (leaks : Bool) (s : String)
      → After (or_leak outcome_unknown (guard (not leaks) secret_leak_error) >>= λ _. ok s)
  screened-After true s = After.leaked
  screened-After false s = After.answered s

  screened_result-After :
      (secret : Option String) (out : Awaited CallToolResult)
      → After (screened_result h sub_tool secret (awaited out))
  unfolding screen ensure_secret_free
  screened_result-After secret (returned result) =
      screened-After (contains_known secret (str (render h sub_tool result)))
        (render h sub_tool result)
  screened_result-After secret failed = After.broke
  screened_result-After secret cancelled = After.stopped

  phased-Before :
      (by_timeout : Bool) (out : Result String)
      → Before out
      → IsSettled (phased h sub_tool by_timeout (classified h sub_tool false out, false))
  unfolding failure_for_phase
  phased-Before true out Before.broke = refl
  phased-Before false out Before.broke = refl
  phased-Before true out Before.stopped = refl
  phased-Before false out Before.stopped = refl
  phased-Before true out (Before.refused kind) = refl
  phased-Before false out (Before.refused kind) = refl

  module _ (effect : is_side_effecting_sub_tool h sub_tool ≡ true) where
    failure_for_phase-unknown :
        (retry_safe : Bool) → failure_for_phase h sub_tool true retry_safe ≡ outcome_unknown
    unfolding failure_for_phase
    failure_for_phase-unknown retry_safe = rw effect refl

    phased-After :
        (by_timeout : Bool) (out : Result String)
        → After out
        → IsSettled (phased h sub_tool by_timeout (classified h sub_tool true out, true))
    phased-After by_timeout out (After.answered s) = refl
    phased-After by_timeout out After.broke =
        subst (λ e. IsSettled (phased h sub_tool by_timeout (raise e, true)))
          (sym (failure_for_phase-unknown false)) refl
    phased-After by_timeout out After.stopped =
        subst (λ e. IsSettled (raise e, true)) (sym (failure_for_phase-unknown (not by_timeout)))
          refl
    phased-After by_timeout out After.leaked = refl

    when_opened-IsSettled :
        (by_timeout : Bool) (c : ChildEnvironment) (s : Session) (opened : Awaited (Unit {0}))
        → IsSettled (phased h sub_tool by_timeout (when_opened h sub_tool c s (awaited opened)))
    when_opened-IsSettled by_timeout c s (returned done_) =
        phased-After by_timeout _
          (closing-After s.closed _ (screened_result-After c.secret s.call_tool))
    when_opened-IsSettled by_timeout c s failed =
        phased-Before by_timeout _ (closing-Before s.closed _ Before.broke)
    when_opened-IsSettled by_timeout c s cancelled =
        phased-Before by_timeout _ (closing-Before s.closed _ Before.stopped)

    call_once-IsSettled :
        (w : McpEnv) → IsSettled (phased h sub_tool w.by_timeout (call_once w h sub_tool))
    unfolding call_once child_environment
    call_once-IsSettled w = on_token h.get_auth_token
      where
        met :
            (token : Option String)
            → let c = with_token h (update inherited h.server.env) token in
              IsSettled (
                phased h sub_tool w.by_timeout (
                  when_opened h sub_tool c
                    (w.session c.variables)
                    (awaited (w.session c.variables).opened)))
        met token =
            let c = with_token h (update inherited h.server.env) token in
            when_opened-IsSettled w.by_timeout c (w.session c.variables)
              (w.session c.variables).opened

        on_token :
            (token : Option (Result (Option Token)))
            → IsSettled (
                phased h sub_tool w.by_timeout (
                  with_environment w h sub_tool (
                    resolve_token token >>= λ t.
                    ok (with_token h (update inherited h.server.env) t))))
        on_token none = met none
        on_token (some (raise e)) = phased-Before w.by_timeout _ (Before.refused fatal)
        on_token (some (ok none)) = met none
        on_token (some (ok (some (resolved value)))) = met (some value)
        on_token (some (ok (some (plain value)))) = met (some value)
        on_token (some (ok (some unsupported))) =
            phased-Before w.by_timeout _ (Before.refused fatal)

-- Whatever the credential provider, the child process, the SDK, the server, the timeout and an
-- operator's cancellation do: what a call of a tool that the administrator has not declared
-- read-only returns or raises is, for the idempotency ledger of the executor, no reported
-- failure that a retry may repeat, exactly when the tool was dispatched to the server.
pub call-IsSettled :
    (w : McpEnv) (h : McpServer) (run_id tool : String) (m : Pins)
    → is_side_effecting_for_tool h tool ≡ true
    → IsSettled (call w h run_id (some tool) m)
unfolding call resolve_sub_tool
call-IsSettled w h run_id tool m effect =
    by_pin (has_key (pinned_for run_id m) (unqualified h tool))
  where
    by_pin :
        (is_pinned : Bool)
        → IsSettled (
            call_resolved w h
              (guard is_pinned (toolkit_error model_addressable) >> ok (unqualified h tool)))
    by_pin true = call_once-IsSettled h (unqualified h tool) effect w
    by_pin false = refl
