-- ===== src/Mcp/Call.antt =====
-- `McpServerHandler.call`: one call of a pinned tool, and what its failure says of the effect.
use Prim.Native.String.{◌++◌ as string_append}
use ravana.Prelude.{String, Bool, true, false, not, Option, List, [], ◌∷◌, if◌then◌else◌}
use ravana.Exception.{runtime_error, cancelled_error, outcome_unknown, Result, ok, raise, ◌>>◌}
use ravana.Text.{strip}
use ravana.Value.{str}
use ravana.Mcp.{McpServer, Pins, failure_for_phase, child_environment, ChildEnvironment, screen}
use ravana.Mcp.Session.{awaited, Content, text, another, CallToolResult, Session, McpEnv, closing}
use ravana.Mcp.Handler.{resolve_sub_tool}

abbrev part : Content → String
part (text s) = s
part (another type) = string_append "[" (string_append type " omitted]")

-- "\n".join(parts)
abbrev join_lines : List Content → String
join_lines [] = String.[]
join_lines (c ∷ []) = part c
join_lines (c ∷ cs) = string_append (part c) (string_append "\n" (join_lines cs))

abbrev or_no_content : String → String
or_no_content String.[] = "(no content)"
or_no_content (String.◌∷◌ c s) = String.◌∷◌ c s

-- _render
unfoldable pub render : McpServer → String → CallToolResult → String
unfolding strip
render h tool result =
    let body = or_no_content (strip (join_lines result.content)) in
    if result.is_error
    then string_append "ERROR from " (
        string_append h.toolkit_id
          (string_append "." (string_append tool (string_append ": " body))))
    else body

-- The handlers of _call_once: a ToolkitError and a CancelledError pass.
abbrev pub classified : McpServer → String → (dispatched : Bool) → Result String → Result String
classified h sub_tool dispatched (raise runtime_error) =
    raise (failure_for_phase h sub_tool dispatched false)
classified h sub_tool dispatched answer = answer

-- What is made of the result of `session.call_tool`.
abbrev pub screened_result :
    McpServer → String → Option String → Result CallToolResult → Result String
screened_result h sub_tool secret (raise e) = raise e
screened_result h sub_tool secret (ok result) = do
  screen outcome_unknown secret (str (render h sub_tool result))
  ok (render h sub_tool result)

abbrev pub when_opened :
    McpServer → String → ChildEnvironment → Session → Result (Unit {0}) → Result String × Bool
when_opened h sub_tool c s (raise e) =
    (classified h sub_tool false (closing (awaited s.closed) (raise e)), false)
when_opened h sub_tool c s (ok done_) = (
  classified h sub_tool true
      (closing (awaited s.closed) (screened_result h sub_tool c.secret (awaited s.call_tool))),
  true,
)

abbrev pub with_environment :
    McpEnv → McpServer → String → Result ChildEnvironment → Result String × Bool
with_environment w h sub_tool (raise e) = (classified h sub_tool false (raise e), false)
with_environment w h sub_tool (ok c) =
    when_opened h sub_tool c (w.session c.variables) (awaited (w.session c.variables).opened)

-- _call_once: its answer, and `phase.dispatched` at the end
unfoldable pub call_once : McpEnv → McpServer → String → Result String × Bool
unfolding child_environment screen failure_for_phase
call_once w h sub_tool = with_environment w h sub_tool (child_environment h true)

-- `asyncio.wait_for` and the handlers of `call`
abbrev pub phased :
    McpServer → String → (by_timeout : Bool) → Result String × Bool → Result String × Bool
phased h sub_tool by_timeout (raise cancelled_error, dispatched) =
    (raise (failure_for_phase h sub_tool dispatched (not by_timeout)), dispatched)
phased h sub_tool by_timeout answer = answer

abbrev pub call_resolved : McpEnv → McpServer → Result String → Result String × Bool
call_resolved w h (raise e) = (raise e, false)
call_resolved w h (ok sub_tool) = phased h sub_tool w.by_timeout (call_once w h sub_tool)

-- call, and whether the tool was dispatched
unfoldable pub call : McpEnv → McpServer → String → Option String → Pins → Result String × Bool
unfolding resolve_sub_tool call_once
call w h run_id tool m = call_resolved w h (resolve_sub_tool h run_id tool m)
