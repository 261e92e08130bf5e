-- ===== src/Loop/Start/Exclusive.antt =====
-- A concurrency group that queues or cancels holds one run at a time.
use ravana.Prelude.{
  ℕ, ◌+◌, ◌≤◌, ◌≡◌, ◌≢◌, refl, sym, subst, ◌∙◌, str_eq→eq, String, Bool, true, false, ◌&&◌, Option,
  some, List, [], ◌∷◌, keep, contains, str_eq, arith, if_cases,
}
use ravana.Exception.{Result, ok, raise}
use ravana.Dict.{Dict}
use ravana.Schema.{ConcurrencyConfig, ConcurrencyStrategy, queue, cancel_previous, allow}
use ravana.Loop.Start.{
  Runs, StartEnv, new_run, group_of, group_by, insert_run, inserted, admit, against, by_strategy,
  is_empty, start_prepared, start_run, workflow_agent_db_ids, resolve_group, RunEntry, has_group,
  ids, is_rival, cancel_runs,
}
use ravana.Store.{RunStatus}
use ravana.Loop.Start.Occupants.{
  is_started, occupies, occupants, IsExclusive, one_if, occupants-cons, keep-Covered,
  cancel_runs-occupants, cancel_runs-none, no_rivals-occupants,
}

-- What admission gives: the rows stay exclusive, and a run that is admitted RUNNING finds its group
-- empty.
abbrev pub Admits : String → Option String → RunStatus × List RunEntry → Type 0
Admits workflow_id group (status, rows) =
    IsExclusive workflow_id rows
    × ((g : String)
        → g ≢ ""
        → has_group g group ≡ true
        → is_started status ≡ true
        → occupants workflow_id g rows ≡ 0)

module _ (workflow_id : String) (rows : List RunEntry)
    (exclusive : IsExclusive workflow_id rows) where
  pub same_group :
      (P : String → Type 0) (group g : String) → has_group g (some group) ≡ true → P group → P g
  same_group P group g same h = subst P (str_eq→eq group g same) h

  pub by_strategy-Admits :
      (group : String) (strategy : ConcurrencyStrategy)
      → strategy ≢ allow
      → Admits workflow_id
          (some group)
          (by_strategy strategy (keep (is_rival workflow_id group) rows) rows)
  by_strategy-Admits group queue strict = (exclusive, λ g named same started. cc)
  by_strategy-Admits group cancel_previous strict =
      let rivals = ids (keep (is_rival workflow_id group) rows) in
      (
        (λ g named.
            omega (arith, cancel_runs-occupants workflow_id g rivals rows, exclusive g named)),
        (λ g named same started.
            same_group (λ k. occupants workflow_id k (cancel_runs rivals rows) ≡ 0) group g same
              (cancel_runs-none workflow_id group rivals rows
                (keep-Covered workflow_id (is_rival workflow_id group) rows))),
      )
  by_strategy-Admits group allow strict = absurd (strict refl)

  pub against-Admits :
      (group : String) (strategy : ConcurrencyStrategy)
      → strategy ≢ allow
      → (rivals : List RunEntry) → keep (is_rival workflow_id group) rows ≡ rivals
      → Admits workflow_id (some group) (against strategy rivals rows)
  against-Admits group strategy strict [] none_found = (
    exclusive,
    (λ g named same started.
        same_group (λ k. occupants workflow_id k rows ≡ 0) group g same
          (no_rivals-occupants workflow_id group rows none_found)),
  )
  against-Admits group strategy strict (r ∷ rivals) found =
      subst (λ rs. Admits workflow_id (some group) (by_strategy strategy rs rows)) found
        (by_strategy-Admits group strategy strict)

  pub admit-Admits :
      (c : ConcurrencyConfig) (group : String)
      → c.strategy ≢ allow
      → Admits workflow_id (some group) (admit (some c) (some group) workflow_id rows)
  admit-Admits c group strict =
      if_cases (Admits workflow_id (some group)) (is_empty group)
        (λ empty. (
          exclusive,
          (λ g named same started.
              absurd (named (sym (str_eq→eq group g same) ∙ empty_text group empty))),
        ))
        (λ _. against-Admits group c.strategy strict (keep (is_rival workflow_id group) rows) refl)
    where
      empty_text : (s : String) → is_empty s ≡ true → s ≡ ""
      empty_text String.[] h = refl
      empty_text (String.◌∷◌ x s) h = cc

pub insert_run-IsExclusive :
    (r : RunEntry) (runs : Runs)
    → Admits r.workflow_id r.concurrency_group (r.status, runs.current)
    → IsExclusive r.workflow_id (insert_run r runs).1.current
insert_run-IsExclusive r runs (exclusive, free) =
    if_cases (λ (out : Result RunStatus × Runs). IsExclusive r.workflow_id out.1.current)
      (contains (ids runs.current) r.id) (λ _. exclusive)
      (λ _ group named.
        let h = occupants-cons r.workflow_id group r runs.current in
        let one = newcomer (occupies r.workflow_id group r) (exclusive group named) (λ occupied.
          let (same, started) =
            parts (str_eq r.workflow_id r.workflow_id) (has_group group r.concurrency_group)
              (is_started r.status) occupied in
          free group named same started) in
        omega (arith, h, one))
  where
    newcomer : (b : Bool) {n : ℕ} → n ≤ 1 → (b ≡ true → n ≡ 0) → one_if b + n ≤ 1
    newcomer true le none_before = omega (arith, none_before refl)
    newcomer false le none_before = omega (arith, le)

    parts : (a b c : Bool) → ((a && b) && c) ≡ true → (b ≡ true) × (c ≡ true)
    parts true true c h = (refl, h)
    parts true false c h = cc
    parts false b c h = cc

pub inserted-IsExclusive :
    (e : StartEnv) (status : RunStatus) (mapping : Result (Dict String)) (runs : Runs)
    → Admits e.workflow_id (group_of e) (status, runs.current)
    → IsExclusive e.workflow_id (inserted e status mapping runs).1.current
inserted-IsExclusive e status (raise ex) runs (exclusive, free) = exclusive
inserted-IsExclusive e status (ok mapping) runs admits =
    insert_run-IsExclusive (new_run e status mapping) runs admits

pub start_prepared-IsExclusive :
    (e : StartEnv) (prepare : Result (Unit {0})) (runs : Runs)
    → IsExclusive e.workflow_id runs.current
    → Admits e.workflow_id
        (group_of e)
        (admit e.spec.concurrency (group_of e) e.workflow_id runs.current)
    → IsExclusive e.workflow_id (start_prepared e prepare runs).1.current
start_prepared-IsExclusive e (raise ex) runs exclusive admits = exclusive
start_prepared-IsExclusive e (ok done_) runs exclusive admits =
    let entry = admit e.spec.concurrency (group_of e) e.workflow_id runs.current in
    inserted-IsExclusive e entry.0 (workflow_agent_db_ids e.node_rows e.spec.graph.nodes)
      (record runs { current = entry.1 }) admits

-- Under a concurrency group that queues or cancels the previous run, a workflow never has two runs
-- of one group, unless its name is the empty text, that have started and have not ended: if the
-- rows have no two, they have none after another start, whether it succeeds or raises.
pub start_run-IsExclusive :
    (e : StartEnv) (c : ConcurrencyConfig) (runs : Runs)
    → e.spec.concurrency ≡ some c
    → c.strategy ≢ allow
    → IsExclusive e.workflow_id runs.current
    → IsExclusive e.workflow_id (start_run e runs).1.current
unfolding start_run
start_run-IsExclusive e c runs configured strict exclusive =
    start_prepared-IsExclusive e e.prepared runs exclusive (
      subst
        (λ o.
          Admits e.workflow_id (group_by e o) (admit o (group_by e o) e.workflow_id runs.current))
        (sym configured)
        (admit-Admits e.workflow_id runs.current exclusive c
          (resolve_group e.str_of c.group e.input_payload) strict))
