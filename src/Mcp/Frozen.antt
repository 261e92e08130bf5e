-- ===== src/Mcp/Frozen.antt =====
-- The tools of a run stay as they were pinned.
use ravana.Prelude.{
  ◌≡◌, refl, sym, ap, ◌∙◌, String, Bool, true, false, not, Option, none, some, List, [], ◌∷◌, all,
  is_some, or_else, ◌&&◌, str_eq, str_eq→eq, eq_iff, arith, if_cases,
}
use ravana.Exception.{toolkit_error, model_addressable, Result, ok, raise, guard, ◌>>◌}
use ravana.Dict.{Dict, get, has_key, get-put}
use ravana.Store.{RunStatus}
use ravana.Tools.{Tool}
use ravana.Tools.Snapshot.{SnapshotRow}
use ravana.Mcp.{McpServer, Pins, unqualified}
use ravana.Mcp.Session.{McpEnv}
use ravana.Mcp.Handler.{
  discover_tools, restored, persisted, are_named, timed, pin_run, pin_discovered, pin_restored,
  prepare_run, without, release_run, aclose, sub_tools_for, offered_for, resolve_sub_tool,
}

-- What changes the pins: a call does not.
pub data Event : Type 0 where
  prepares : (w : McpEnv) (run_id : String) → Event
  releases : (runs : Dict RunStatus) (run_id : String) → Event
  closes : Event

abbrev pub on_event : McpServer → Event → Pins → Pins
on_event h (prepares w run_id) m = (prepare_run w h run_id m).1
on_event h (releases runs run_id) m = release_run runs h run_id m
on_event h closes m = aclose m

pub after : McpServer → List Event → Pins → Pins
after h [] m = m
after h (e ∷ events) m = after h events (on_event h e m)

abbrev pub spares : String → Event → Bool
spares run_id (prepares w other) = true
spares run_id (releases runs other) = not (str_eq other run_id)
spares run_id closes = false

get-without {ℓ} :
    {V : Type ℓ} (k j : String) (d : Dict V) → str_eq k j ≡ false → get (without k d) j ≡ get d j
unfolding get
get-without k j [] other = refl
get-without k j ((i, v) ∷ d) other =
    ground (arith, eq_iff i k, eq_iff i j, eq_iff k j, get-without k j d other)

true_not_false : ¬ (true ≡ false)
true_not_false eq = cc

and_true_both : (a : Bool) {b : Bool} → (a && b) ≡ true → (a ≡ true) × (b ≡ true)
and_true_both true h = (refl, h)
and_true_both false h = cc

resolve_sub_tool-same :
    (h : McpServer) (run_id : String) (tool : Option String) (m n : Pins)
    → get n.pinned_by_run run_id ≡ get m.pinned_by_run run_id
    → resolve_sub_tool h run_id tool n ≡ resolve_sub_tool h run_id tool m
unfolding resolve_sub_tool
resolve_sub_tool-same h run_id none m n same = refl
resolve_sub_tool-same h run_id (some tool) m n same =
    ap
      (λ found.
        guard (has_key (or_else found []) (unqualified h tool)) (toolkit_error model_addressable)
        >> ok (unqualified h tool))
      same

module _ (h : McpServer) (run_id : String) (pinned : Dict Tool) where
  abbrev Holds : Pins → Type 0
  Holds m = get m.pinned_by_run run_id ≡ some pinned

  pin_run-Holds :
      (other : String) (tools : Dict Tool) (rows : List SnapshotRow) (m : Pins)
      → has_key m.pinned_by_run other ≡ false
      → Holds m
      → Holds (pin_run other tools rows m)
  pin_run-Holds other tools rows m fresh holds =
      get-put m.pinned_by_run other run_id tools
      ∙ if_cases (λ found. found ≡ some pinned) (str_eq other run_id)
          (λ same. absurd (
            true_not_false (
              sym (ap is_some holds)
              ∙ ap (λ k. has_key m.pinned_by_run k) (sym (str_eq→eq other run_id same))
              ∙ fresh)))
          (λ differs. holds)

  pin_discovered-Holds :
      (w : McpEnv) (other : String) (m : Pins) (found : Result (Dict Tool))
      → has_key m.pinned_by_run other ≡ false
      → Holds m
      → Holds (pin_discovered w h other m found).1
  pin_discovered-Holds w other m (raise e) fresh holds = holds
  pin_discovered-Holds w other m (ok tools) fresh holds =
      pin_run-Holds other tools (persisted w h other tools m.rows) m fresh holds

  pin_restored-Holds :
      (w : McpEnv) (other : String) (m : Pins) (rows : Result (Option (Dict Tool)))
      → has_key m.pinned_by_run other ≡ false
      → Holds m
      → Holds (pin_restored w h other m rows).1
  pin_restored-Holds w other m (raise e) fresh holds = holds
  pin_restored-Holds w other m (ok none) fresh holds =
      pin_discovered-Holds w other m (timed w.by_timeout (discover_tools w h)) fresh holds
  pin_restored-Holds w other m (ok (some tools)) fresh holds =
      if_cases (λ (out : Result (Unit {0}) × Pins). Holds out.1) (are_named h tools)
        (λ named. pin_run-Holds other tools m.rows m fresh holds) (λ misnamed. holds)

  on_event-Holds :
      (e : Event) (m : Pins) → spares run_id e ≡ true → Holds m → Holds (on_event h e m)
  unfolding prepare_run release_run
  on_event-Holds (prepares w other) m spared holds =
      if_cases (λ (out : Result (Unit {0}) × Pins). Holds out.1) (has_key m.pinned_by_run other)
        (λ there. holds)
        (λ fresh. pin_restored-Holds w other m (restored w h other m.rows) fresh holds)
  on_event-Holds (releases runs other) m spared holds =
      get-without other run_id m.pinned_by_run (ground arith) ∙ holds
  on_event-Holds closes m spared holds = cc

  after-Holds :
      (events : List Event) (m : Pins)
      → all (spares run_id) events ≡ true
      → Holds m
      → Holds (after h events m)
  unfolding after
  after-Holds [] m spared holds = holds
  after-Holds (e ∷ events) m spared holds =
      let (first, rest) = and_true_both (spares run_id e) spared in
      after-Holds events (on_event h e m) rest (on_event-Holds e m first holds)

-- Once a run is prepared, its tools are frozen: whatever other runs are prepared and released, and
-- whatever the server lists meanwhile, until the run is released or the handler closed, the same
-- tools are offered to the run and the same names are accepted from it.
pub sub_tools_for-after :
    (h : McpServer) (run_id : String) (pinned : Dict Tool) (m : Pins) (events : List Event)
    → get m.pinned_by_run run_id ≡ some pinned
    → all (spares run_id) events ≡ true
    → (repr : String → String) (tool : Option String)
    → (sub_tools_for repr h run_id (after h events m) ≡ sub_tools_for repr h run_id m)
      × (resolve_sub_tool h run_id tool (after h events m) ≡ resolve_sub_tool h run_id tool m)
unfolding sub_tools_for
sub_tools_for-after h run_id pinned m events holds spared repr tool =
    let same : get (after h events m).pinned_by_run run_id ≡ get m.pinned_by_run run_id =
      after-Holds h run_id pinned events m spared holds ∙ sym holds in
    (
      ap (offered_for repr h.toolkit_id) same,
      resolve_sub_tool-same h run_id tool m (after h events m) same,
    )
