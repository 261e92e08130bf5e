-- ===== src/Mcp/Pin.antt =====
-- `_pin_tools`: the tools that a server lists, page by page, as they are pinned for a run. The
-- startup timeout lets a number of pages through; then the wait for the next one is cancelled.
use Prim.Native.String.{◌++◌ as string_append}
use ravana.Prelude.{
  ℕ, zero, suc, String, Bool, true, false, not, ◌&&◌, Option, none, some, List, [], ◌∷◌, all,
  contains, str_eq,
}
use ravana.Exception.{cancelled_error, toolkit_error, fatal, Result, ok, raise, guard, ◌>>=◌, ◌>>◌}
use ravana.Dict.{Dict, put, has_key}
use ravana.Value.{Value, str, obj, end}
use ravana.Tools.{Tool}
use ravana.Mcp.{McpServer, validate_provider_tool_name, screen}

-- A tool as a server lists it, and a page of them with `nextCursor`.
pub record ToolSpec : Type 0 where
  pub name : String
  pub description : Option String
  pub input_schema : Value

pub record Page : Type 0 where
  pub tools : List ToolSpec
  pub next_cursor : Option Value

-- What has been listed: the names that were offered, newest first, and what is pinned.
pub record Listed : Type 0 where
  pub offered_names : List String
  pub pinned : Dict Tool

abbrev pub nothing_listed : Listed
nothing_listed = record { offered_names = []; pinned = [] }

abbrev pub is_allowed : Option (List String) → String → Bool
is_allowed none name = true
is_allowed (some allowed) name = contains allowed name

-- `spec.description or f"{spec.name} (via {toolkit_id})"`
abbrev via : McpServer → String → String
via h name = string_append name (string_append " (via " (string_append h.toolkit_id ")"))

abbrev pub raw_description : McpServer → String → Option String → String
raw_description h name none = via h name
raw_description h name (some String.[]) = via h name
raw_description h name (some (String.◌∷◌ c s)) = String.◌∷◌ c s

abbrev pub schema_or_empty : Value → Value
schema_or_empty (obj d) = obj d
schema_or_empty _ = obj end

abbrev pub pinned_tool : McpServer → ToolSpec → Tool
pinned_tool h spec = record {
  name = spec.name;
  description = raw_description h spec.name spec.description;
  input_schema = schema_or_empty spec.input_schema;
}

module _ (h : McpServer) (secret : Option String) where
  -- the checks of a tool that is to be exposed
  abbrev pub check_tool : Tool → Result (Unit {0})
  check_tool t = do
    validate_provider_tool_name h t.name
    screen (toolkit_error fatal) secret (str t.description)
    screen (toolkit_error fatal) secret t.input_schema

  abbrev pub pin_allowed : Bool → Tool → Dict Tool → Result (Dict Tool)
  pin_allowed false t pinned = ok pinned
  pin_allowed true t pinned = check_tool t >> ok (put pinned t.name t)

  -- the body of the loop over `listed.tools`
  unfoldable pub pin_tool : ToolSpec → Listed → Result Listed
  unfolding screen
  pin_tool spec l = do
    screen (toolkit_error fatal) secret (str spec.name)
    pinned ← pin_allowed (is_allowed h.allowed_tools spec.name) (pinned_tool h spec) l.pinned
    ok (record { offered_names = spec.name ∷ l.offered_names; pinned = pinned })

  unfoldable pub pin_page : List ToolSpec → Listed → Result Listed
  unfolding pin_tool
  pin_page [] l = ok l
  pin_page (spec ∷ specs) l = pin_tool spec l >>= λ m. pin_page specs m

  -- `if cursor in seen_cursors: raise`, and `seen_cursors.add(cursor)`
  abbrev pub see_cursor : Option String → List String → Result (List String)
  see_cursor none seen = ok seen
  see_cursor (some cursor) seen =
      guard (not (contains seen cursor)) (toolkit_error fatal) >> ok (cursor ∷ seen)

  abbrev pub same_cursor : Option String → String → Bool
  same_cursor none next = false
  same_cursor (some cursor) next = str_eq cursor next

  -- the tests of a cursor that is not `None`
  abbrev pub check_cursor : Option String → List String → Value → Result String
  check_cursor cursor seen (str String.[]) = raise (toolkit_error fatal)
  check_cursor cursor seen (str (String.◌∷◌ c s)) =
      guard (not (same_cursor cursor (String.◌∷◌ c s)) && not (contains seen (String.◌∷◌ c s)))
        (toolkit_error fatal)
      >> ok (String.◌∷◌ c s)
  check_cursor cursor seen _ = raise (toolkit_error fatal)

  -- `if next_cursor is None: break`
  abbrev pub unless_last : Option Value → Listed → (Value → Result Listed) → Result Listed
  unless_last none l more = ok l
  unless_last (some v) l more = more v

  -- The loop of _pin_tools, over what the server answers to its requests by their number.
  unfoldable pub pin_pages :
      (list_tools : ℕ → Option String → Result Page) (pages_left request : ℕ)
      → (cursor : Option String) (seen : List String) → Listed
      → Result Listed
  unfolding pin_page
  pin_pages list_tools zero request cursor seen l = raise cancelled_error
  pin_pages list_tools (suc pages_left) request cursor seen l = do
    seen ← see_cursor cursor seen
    page ← list_tools request cursor
    m ← pin_page page.tools l
    unless_last page.next_cursor m λ v. check_cursor cursor seen v >>= λ next.
        pin_pages list_tools pages_left (suc request) (some next) seen m

abbrev pub all_pinned : Option (List String) → Dict Tool → Bool
all_pinned none pinned = true
all_pinned (some allowed) pinned = all (has_key pinned) allowed

abbrev pub is_nonempty : Dict Tool → Bool
is_nonempty [] = false
is_nonempty (entry ∷ pinned) = true

-- the checks after the loop
abbrev pub check_listed : McpServer → Listed → Result (Dict Tool)
check_listed h l = do
  guard (all_pinned h.allowed_tools l.pinned) (toolkit_error fatal)
  guard (all (contains l.offered_names) h.server.read_only_tools) (toolkit_error fatal)
  guard (is_nonempty l.pinned) (toolkit_error fatal)
  ok l.pinned

-- _pin_tools
unfoldable pub pin_tools :
    McpServer
    → (secret : Option String) (list_tools : ℕ → Option String → Result Page) → (pages : ℕ)
    → Result (Dict Tool)
unfolding pin_pages
pin_tools h secret list_tools pages =
    pin_pages h secret list_tools pages 0 none [] nothing_listed >>= λ l. check_listed h l
