-- ===== src/Mcp/Usable.antt =====
-- What the tools that `_pin_tools` pins are.
use ravana.Prelude.{
  ℕ, zero, suc, ◌≡◌, refl, sym, subst, String, Bool, true, false, not, Option, none, some, List, [],
  ◌∷◌, All, all, contains, str_eq, str_eq→eq, if_cases,
}
use ravana.Exception.{
  Exception, secret_leak_error, toolkit_error, fatal, Result, ok, raise, guard, Returns,
  >>=-Returns, >>=-Returns_from,
}
use ravana.Dict.{Dict, put}
use ravana.Value.{Value, str}
use ravana.Secrets.Known.{contains_known, ensure_secret_free}
use ravana.Tools.{Tool}
use ravana.Mcp.{
  McpServer, qualified_tool_name, is_provider_name, validate_provider_tool_name, or_leak, screen,
}
use ravana.Mcp.Pin.{
  ToolSpec, Page, Listed, nothing_listed, is_allowed, pinned_tool, check_tool, pin_allowed,
  pin_tool, pin_page, see_cursor, check_cursor, unless_last, pin_pages, all_pinned, is_nonempty,
  check_listed, pin_tools,
}

guard-Returns : (test : Bool) (e : Exception) → Returns (λ done_. test ≡ true) (guard test e)
guard-Returns true e = refl
guard-Returns false e = tt

-- An invariant of the entries of a dictionary.
All-put {ℓ κ} :
    {V : Type ℓ} (P : String × V → Type κ) (d : Dict V) (k : String) (v : V)
    → All P d
    → P (k, v)
    → All P (put d k v)
unfolding put
All-put P [] k v all p = (p, tt)
All-put P ((j, w) ∷ d) k v (first, rest) p =
    if_cases (All P) (str_eq j k)
      (λ same. (subst (λ i. P (i, v)) (sym (str_eq→eq j k same)) p, rest))
      (λ other. (first, All-put P d k v rest p))

or_leak-Returns :
    (b : Bool) (leak e : Exception) → Returns (λ done_. b ≡ false) (or_leak leak (guard (not b) e))
or_leak-Returns true leak e = tt
or_leak-Returns false leak e = refl

Returns-mono {ℓ κ} :
    {A : Type ℓ} (P Q : A → Type κ) (out : Result A)
    → ((a : A) → P a → Q a)
    → Returns P out
    → Returns Q out
Returns-mono P Q (raise e) weaken h = tt
Returns-mono P Q (ok a) weaken h = weaken a h

module _ (h : McpServer) (secret : Option String) where
  abbrev Clean : Value → Type 0
  Clean v = contains_known secret v ≡ false

  screen-Clean : (v : Value) → Returns (λ done_. Clean v) (screen (toolkit_error fatal) secret v)
  unfolding screen ensure_secret_free
  screen-Clean v = or_leak-Returns (contains_known secret v) (toolkit_error fatal) secret_leak_error

  -- A tool that may be offered: the workflow allows it, a provider accepts its name, and neither its
  -- description nor its schema holds the credential of its server.
  abbrev pub Offerable : String × Tool → Type 0
  Offerable (name, t) =
      (t.name ≡ name)
      × ((is_allowed h.allowed_tools name ≡ true)
          × ((is_provider_name (qualified_tool_name h.toolkit_id name) ≡ true)
              × (Clean (str t.description) × Clean t.input_schema)))

  check_tool-Offerable :
      (t : Tool)
      → is_allowed h.allowed_tools t.name ≡ true
      → Returns (λ done_. Offerable (t.name, t)) (check_tool h secret t)
  check_tool-Offerable t allowed =
      >>=-Returns_from (λ _. is_provider_name (qualified_tool_name h.toolkit_id t.name) ≡ true)
        (λ _. Offerable (t.name, t)) (validate_provider_tool_name h t.name) _
        (guard-Returns (is_provider_name (qualified_tool_name h.toolkit_id t.name))
          (toolkit_error fatal))
        (λ done_ named.
          >>=-Returns_from (λ _. Clean (str t.description)) (λ _. Offerable (t.name, t))
            (screen (toolkit_error fatal) secret (str t.description)) _
            (screen-Clean (str t.description))
            (λ also_ described.
              Returns-mono (λ _. Clean t.input_schema) (λ _. Offerable (t.name, t))
                (screen (toolkit_error fatal) secret t.input_schema)
                (λ last_ clean. (refl, (allowed, (named, (described, clean)))))
                (screen-Clean t.input_schema)))

  pin_allowed-Offerable :
      (t : Tool) (pinned : Dict Tool) (allowed : Bool)
      → is_allowed h.allowed_tools t.name ≡ allowed
      → All Offerable pinned
      → Returns (All Offerable) (pin_allowed h secret allowed t pinned)
  pin_allowed-Offerable t pinned false eq offerable = offerable
  pin_allowed-Offerable t pinned true eq offerable =
      >>=-Returns_from (λ _. Offerable (t.name, t)) (All Offerable) (check_tool h secret t) _
        (check_tool-Offerable t eq) (λ done_ this. All-put Offerable pinned t.name t offerable this)

  -- What the loops keep.
  abbrev Kept : Listed → Type 0
  Kept l = All Offerable l.pinned

  pin_tool-Kept : (spec : ToolSpec) (l : Listed) → Kept l → Returns Kept (pin_tool h secret spec l)
  unfolding pin_tool
  pin_tool-Kept spec l kept =
      >>=-Returns Kept (screen (toolkit_error fatal) secret (str spec.name)) _ (λ done_ screened.
        >>=-Returns_from (All Offerable) Kept
          (pin_allowed h secret (is_allowed h.allowed_tools spec.name) (pinned_tool h spec)
            l.pinned)
          _ (pin_allowed-Offerable (pinned_tool h spec) l.pinned _ refl kept)
          (λ pinned offerable. offerable))

  pin_page-Kept :
      (specs : List ToolSpec) (l : Listed) → Kept l → Returns Kept (pin_page h secret specs l)
  unfolding pin_page
  pin_page-Kept [] l kept = kept
  pin_page-Kept (spec ∷ specs) l kept =
      >>=-Returns_from Kept Kept (pin_tool h secret spec l) _ (pin_tool-Kept spec l kept)
        (λ m still. pin_page-Kept specs m still)

  unless_last-Kept :
      (next : Option Value) (l : Listed) (more : Value → Result Listed)
      → Kept l
      → ((v : Value) → Returns Kept (more v))
      → Returns Kept (unless_last h secret next l more)
  unless_last-Kept none l more kept goes_on = kept
  unless_last-Kept (some v) l more kept goes_on = goes_on v

  pin_pages-Kept :
      (list_tools : ℕ → Option String → Result Page) (pages_left request : ℕ)
      (cursor : Option String) (seen : List String) (l : Listed)
      → Kept l
      → Returns Kept (pin_pages h secret list_tools pages_left request cursor seen l)
  unfolding pin_pages
  pin_pages-Kept list_tools zero request cursor seen l kept = tt
  pin_pages-Kept list_tools (suc pages_left) request cursor seen l kept =
      >>=-Returns Kept (see_cursor h secret cursor seen) _ (λ seen' _.
        >>=-Returns Kept (list_tools request cursor) _ (λ page _.
          >>=-Returns_from Kept Kept (pin_page h secret page.tools l) _
            (pin_page-Kept page.tools l kept)
            (λ m still. unless_last-Kept page.next_cursor m _ still (λ v.
              >>=-Returns Kept (check_cursor h secret cursor seen' v) _ (λ next _.
                pin_pages-Kept list_tools pages_left (suc request) (some next) seen' m still)))))

  -- What is pinned: offerable tools, among them every tool that the workflow names, and at least one.
  abbrev pub Usable : Dict Tool → Type 0
  Usable pinned =
      All Offerable pinned
      × ((all_pinned h.allowed_tools pinned ≡ true) × (is_nonempty pinned ≡ true))

check_listed-Usable :
    (h : McpServer) (secret : Option String) (l : Listed)
    → All (Offerable h secret) l.pinned
    → Returns (Usable h secret) (check_listed h l)
check_listed-Usable h secret l kept =
    >>=-Returns_from (λ _. all_pinned h.allowed_tools l.pinned ≡ true) (Usable h secret)
      (guard (all_pinned h.allowed_tools l.pinned) (toolkit_error fatal)) _ (guard-Returns _ _)
      (λ done_ complete.
        >>=-Returns (Usable h secret)
          (guard (all (contains l.offered_names) h.server.read_only_tools) (toolkit_error fatal)) _
          (λ also_ _.
            >>=-Returns_from (λ _. is_nonempty l.pinned ≡ true) (Usable h secret)
              (guard (is_nonempty l.pinned) (toolkit_error fatal)) _ (guard-Returns _ _)
              (λ last_ some_tool. (kept, (complete, some_tool)))))

-- Whatever pages a server answers with, and however many: the tools that are pinned are offerable,
-- and there is one at least and each that the workflow names. When none are pinned, the listing
-- raised. An offerable tool stands under its own name, the workflow allows it, its qualified name is
-- one that a provider accepts, and neither its description nor its schema holds the credential.
pub pin_tools-Usable :
    (h : McpServer) (secret : Option String) (list_tools : ℕ → Option String → Result Page)
    (pages : ℕ)
    → Returns (Usable h secret) (pin_tools h secret list_tools pages)
unfolding pin_tools
pin_tools-Usable h secret list_tools pages =
    >>=-Returns_from (λ l. All (Offerable h secret) l.pinned) (Usable h secret)
      (pin_pages h secret list_tools pages 0 none [] nothing_listed) _
      (pin_pages-Kept h secret list_tools pages 0 none [] nothing_listed tt)
      (λ l kept. check_listed-Usable h secret l kept)
