-- ===== src/Mcp/Executed/Own.antt =====
-- Every call of an executor whose toolkits are one MCP server is that server's.
use ravana.Prelude.{
  ◌≡◌, refl, sym, ap, ◌∙◌, subst, String, Bool, Option, none, some, List, [], ◌∷◌, All, any, str_eq,
  or_else, if_cases,
}
use ravana.Exception.{Result, ok, raise, guard, Returns, >>=-Returns, >>=-Returns_from}
use ravana.Dict.{Dict, get, values}
use ravana.Value.{State}
use ravana.Tools.{Call, Handler, Resolved, is_named, pinned_tools, matches, choose, resolve}
use ravana.Tools.Ledger.{Ledger, claim}
use ravana.Tools.Execute.{
  Executor, Tools, ToolRequest, Ready, Begun, answered, calling, schema_of, make_ready,
  side_effecting_as, is_side_effecting, after_claim, begin_ready, begin, finish, execute, die_with,
  scope,
}
use ravana.Tools.Once.{executed, died, Reachable, start, next}
use ravana.Mcp.Call.{call}
use ravana.Mcp.Executed.{
  Installed, as_handler, effect_of, own, OnlyThis, AllGenuine, Own, OwnResolved,
}

module _ (s : Installed) where
  matches-Own :
      (handlers : List Handler) (tool run_id : String)
      → All (λ k. k ≡ (own s)) handlers
      → Returns (All (λ k. k ≡ (own s))) (matches handlers tool run_id)
  unfolding matches
  matches-Own [] tool run_id owned = tt
  matches-Own (k ∷ handlers) tool run_id (first, owned) =
      >>=-Returns (All (λ k. k ≡ (own s))) (pinned_tools k run_id) _ (λ these _.
        >>=-Returns_from (All (λ k. k ≡ (own s))) (All (λ k. k ≡ (own s)))
          (matches handlers tool run_id) _ (matches-Own handlers tool run_id owned)
          (λ others rest.
            if_cases (All (λ k. k ≡ (own s))) (any (is_named tool) these) (λ _. (first, rest))
              (λ _. rest)))

  All-get :
      (d : Dict Handler) (k : String)
      → All (λ v. v ≡ (own s)) (values d)
      → (v : Handler) → get d k ≡ some v
      → v ≡ (own s)
  unfolding get
  All-get [] k owned v = λ found. cc
  All-get ((j, u) ∷ d) k (first, owned) v =
      if_cases (λ (found : Option Handler). found ≡ some v → v ≡ (own s)) (str_eq j k)
        (λ _ found. sym (ap (λ o. or_else o u) found) ∙ first) (λ _. All-get d k owned v)

  choose-Own :
      (tool : String) (direct : Option Handler) (found : List Handler)
      → ((v : Handler) → direct ≡ some v → v ≡ (own s))
      → All (λ k. k ≡ (own s)) found
      → Returns (OwnResolved s) (choose tool direct found)
  choose-Own tool (some k) [] is owned = is k refl
  choose-Own tool (some k) (n ∷ ns) is owned = tt
  choose-Own tool none (n ∷ []) is owned = owned.0
  choose-Own tool none (n ∷ o ∷ os) is owned = tt
  choose-Own tool none [] is owned = tt

  own-effect_of :
      (tool : Option String) (arguments : State)
      → side_effecting_as (own s) arguments tool (own s).is_side_effecting_for_tool
        ≡ effect_of s.server tool
  unfolding as_handler
  own-effect_of none arguments = refl
  own-effect_of (some tool) arguments = refl

  side_effecting-Own :
      (r : Resolved) (arguments : State)
      → OwnResolved s r
      → is_side_effecting r arguments ≡ effect_of s.server r.sub_tool
  side_effecting-Own r arguments is =
      subst
        (λ k.
          side_effecting_as k arguments r.sub_tool k.is_side_effecting_for_tool
          ≡ effect_of s.server r.sub_tool)
        (sym is) (own-effect_of r.sub_tool arguments)

  make_ready-Own :
      (x : Executor) (r : ToolRequest) → OnlyThis s x → Returns (Own s) (make_ready x r)
  unfolding make_ready resolve
  make_ready-Own x r only =
      >>=-Returns_from (OwnResolved s) (Own s) (resolve x.handlers r.tool r.run_id) _
        (>>=-Returns_from (All (λ k. k ≡ (own s))) (OwnResolved s)
          (matches (values x.handlers) r.tool r.run_id) _
          (matches-Own (values x.handlers) r.tool r.run_id only)
          (λ found owned.
            choose-Own r.tool (get x.handlers r.tool) found
              (λ v is. All-get x.handlers r.tool only v is) owned))
        (λ resolved is. >>=-Returns (Own s) (schema_of resolved r.run_id) _ (λ schema _.
          >>=-Returns (Own s) (guard (x.validate_json r.arguments schema) _) _
            (λ _ _. (is, side_effecting-Own resolved r.arguments is))))

  -- What `begin` calls is the handler's (own s).
  abbrev BegunOwn : Begun → Type 0
  BegunOwn (answered a l) = Unit
  BegunOwn (calling ready l) = (Own s) ready

  after_claim-BegunOwn :
      (ready : Ready) (answer : Result (Option String) × Ledger)
      → Own s ready
      → BegunOwn (after_claim ready answer)
  after_claim-BegunOwn ready (ok none, l) is = is
  after_claim-BegunOwn ready (ok (some result), l) is = tt
  after_claim-BegunOwn ready (raise e, l) is = tt

  begin_ready-BegunOwn :
      (r : ToolRequest) (l : Ledger) (result : Result Ready)
      → Returns (Own s) result
      → BegunOwn (begin_ready r l result)
  begin_ready-BegunOwn r l (raise e) is = tt
  begin_ready-BegunOwn r l (ok ready) is =
      if_cases BegunOwn ready.side_effecting
        (λ _. after_claim-BegunOwn ready (claim (scope r) l) is) (λ _. is)

  Own-answer :
      (ready : Ready) (calls : List Call)
      → Own s ready
      → ready.handler.call ready.call calls
        ≡ (call (s.meets calls) s.server ready.call.run_id ready.call.sub_tool s.pins).0
  unfolding as_handler
  Own-answer ready calls is = ap (λ k. k.call ready.call calls) is.0

  finish-AllGenuine :
      (r : ToolRequest) (calls : List Call) (begun : Begun)
      → AllGenuine s calls
      → BegunOwn begun
      → AllGenuine s (finish r calls begun).1.calls
  finish-AllGenuine r calls (answered a l) genuine is = genuine
  finish-AllGenuine r calls (calling ready l) genuine is =
      ((is.1, Own-answer ready calls is), genuine)

  die_with-AllGenuine :
      (calls : List Call) (during : Bool) (begun : Begun)
      → AllGenuine s calls
      → BegunOwn begun
      → AllGenuine s (die_with calls during begun).calls
  die_with-AllGenuine calls during (answered a l) genuine is = genuine
  die_with-AllGenuine calls during (calling ready l) genuine is =
      if_cases (AllGenuine s) during (λ _. ((is.1, tt), genuine)) (λ _. genuine)

  module _ (x : Executor) (only : (OnlyThis s) x) where
    begin-BegunOwn : (r : ToolRequest) (l : Ledger) → BegunOwn (begin x r l)
    unfolding begin
    begin-BegunOwn r l = begin_ready-BegunOwn r l (make_ready x r) (make_ready-Own x r only)

    pub Reachable-AllGenuine : {t : Tools} → Reachable x t → AllGenuine s t.calls
    unfolding execute
    Reachable-AllGenuine start = tt
    Reachable-AllGenuine (next reached (executed r t)) =
        finish-AllGenuine r t.calls (begin x r t.ledger) (Reachable-AllGenuine reached)
          (begin-BegunOwn r t.ledger)
    Reachable-AllGenuine (next reached (died r during t)) =
        die_with-AllGenuine t.calls during (begin x r t.ledger) (Reachable-AllGenuine reached)
          (begin-BegunOwn r t.ledger)
