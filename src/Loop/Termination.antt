-- ===== src/Loop/Termination.antt =====
-- How many rounds the loop of `_drain_queue` runs, by the step budget and the releases of held joins.
use ravana.Prelude.{
  ℕ, zero, suc, ◌+◌, ◌-◌, ◌*◌, ◌≤◌, String, ◌≡◌, refl, ap, sym, subst, Bool, true, false, ◌⊎◌,
  Option, some, List, [], ◌∷◌, ◌++◌, inl, inr, Bool-cases, length, arith,
}
use ravana.Graph.{CompiledGraph}
use ravana.Store.{NodeExecution, Db, has_pending_hitl}
use ravana.Loop.{Ctx, Step, done, raised, Env, update_rows}
use ravana.Loop.Dispatch.{dispatch}
use ravana.Loop.Finalize.{finalize_status}
use ravana.Loop.Invariant.Routes.{if_rule}
use ravana.Loop.Drain.{
  Progress, working, idle, aborted, after_dispatch, release, work, loop_once, pending_joins, next,
  drain,
}
use ravana.Loop.Invariant.{Stable, Good}
use ravana.Loop.Invariant.Turns.{Inserts, Dispatched, Good-dispatch}

pub length-update_rows :
    (p : NodeExecution → Bool) (f : NodeExecution → NodeExecution) (rows : List NodeExecution)
    → length (update_rows p f rows) ≡ length rows
unfolding update_rows
length-update_rows p f [] = refl
length-update_rows p f (r ∷ rows) = ap suc (length-update_rows p f rows)

-- The tables hold so many attempts, within a budget.
pub record HasAttempts (budget n : ℕ) (d : Db) : Type 0 where
  pub count : length d.executions ≡ n
  pub within : n ≤ budget

HasAttempts-Stable : (budget n : ℕ) → Stable (HasAttempts budget n)
HasAttempts-Stable budget n = record {
  on_event = λ e d h. record { count = h.count; within = h.within };
  on_run = λ r d h. record { count = h.count; within = h.within };
  on_rows = λ p f d same h. record {
    count = omega (arith, length-update_rows p f d.executions, h.count);
    within = h.within;
  };
  on_message = λ ms d h. record { count = h.count; within = h.within };
  on_hitl = λ hs d h. record { count = h.count; within = h.within };
}

module _ (g : CompiledGraph) (env : Env) where
  abbrev budget : ℕ
  budget = g.spec.graph.guards.max_total_steps

  HasAttempts-Inserts : (n : ℕ) → Inserts (HasAttempts budget n) (HasAttempts budget (suc n)) g
  HasAttempts-Inserts n c node_id same room h = record {
    count = ap suc h.count;
    within = omega (
      arith,
      room,
      h.count,
      ap (λ (x : CompiledGraph). x.spec.graph.guards.max_total_steps) same,
    );
  }

  abbrev Counted : ℕ → Ctx → Type 0
  Counted n c = Good g (HasAttempts budget n) c

  -- how many rounds an empty and a nonempty queue need beyond the attempts that are left
  abbrev slack : List String → ℕ
  slack [] = 3
  slack (x ∷ xs) = 2

  slack_le : (q : List String) → (2 ≤ slack q) × (slack q ≤ 3)
  slack_le [] = omega arith
  slack_le (x ∷ xs) = omega arith

  slack-append : (xs ys : List String) (y : String) → slack (xs ++ y ∷ ys) ≡ 2
  slack-append [] ys y = refl
  slack-append (x ∷ xs) ys y = refl

  abbrev Ended : Option Step → Type 0
  Ended r = (s : Step) × (r ≡ some s)

  loop_once_failed : (c : Ctx) → c.failed ≡ true → loop_once env c ≡ idle c
  unfolding loop_once
  loop_once_failed c failed = rw failed

  loop_once_live : (c : Ctx) → c.failed ≡ false → loop_once env c ≡ work env c.queue c
  unfolding loop_once
  loop_once_live c live = rw live

  drain_failed : (fuel : ℕ) (c : Ctx) → c.failed ≡ true → 1 ≤ fuel → Ended (drain env fuel c)
  unfolding drain
  drain_failed zero c failed enough = absurd (omega arith)
  drain_failed (suc fuel) c failed enough =
      rw (loop_once_failed c failed) (finalize_status env c, refl)

  -- What one round leaves, with the fuel for the rounds after it.
  abbrev RoundLeft : ℕ → Progress → Type 0
  RoundLeft fuel (working c) =
      ((c.failed ≡ true) × (1 ≤ fuel))
      ⊎ ((m : ℕ) × Counted m c × (2 * (budget - m) + slack c.queue ≤ fuel))
  RoundLeft fuel _ = Unit

  after_left :
      (fuel n : ℕ) (s : Step)
      → 2 * (budget - n) + 2 ≤ suc fuel
      → Dispatched g (HasAttempts budget n) (HasAttempts budget (suc n)) s
      → RoundLeft fuel (after_dispatch s)
  after_left fuel n (done c) enough (inl h) = inl (h.0, omega arith)
  after_left fuel n (done c) enough (inr h) =
      inr (suc n, h, omega (arith, slack_le c.queue, h.current.within))
  after_left fuel n (raised e c) enough h = tt

  release_left :
      (fuel n : ℕ) (nodes : List String) (c : Ctx)
      → 2 * (budget - n) + 3 ≤ suc fuel
      → Counted n c
      → RoundLeft fuel (release nodes c)
  release_left fuel n [] c enough h = tt
  release_left fuel n (x ∷ nodes) c enough h = inr (
    n,
    record { same_graph = h.same_graph; durable = h.durable; current = h.current },
    omega (arith, slack-append c.queue nodes x),
  )

  work_left :
      (fuel n : ℕ) (queue : List String) (c : Ctx)
      → 2 * (budget - n) + slack queue ≤ suc fuel
      → Counted n c
      → RoundLeft fuel (work env queue c)
  work_left fuel n [] c enough h =
      if_rule (RoundLeft fuel) (has_pending_hitl c.con.db) tt
        (release_left fuel n (pending_joins c) c enough h)
  work_left fuel n (x ∷ queue) c enough h =
      let c' = record c { queue = queue } in
      after_left fuel n (dispatch env x c') enough (
        Good-dispatch g (HasAttempts budget n) (HasAttempts budget (suc n))
          (HasAttempts-Stable budget n) (HasAttempts-Stable budget (suc n)) (HasAttempts-Inserts n)
          env x c' (record { same_graph = h.same_graph; durable = h.durable; current = h.current }))

  next_ends :
      (fuel : ℕ) (p : Progress)
      → ((m : ℕ) (c : Ctx)
          → Counted m c
          → 2 * (budget - m) + slack c.queue ≤ fuel
          → Ended (drain env fuel c))
      → RoundLeft fuel p
      → Ended (next env (drain env fuel) p)
  next_ends fuel (working c) more (inl h) = drain_failed fuel c h.0 h.1
  next_ends fuel (working c) more (inr (m, h, enough)) = more m c h enough
  next_ends fuel (idle c) more h = (finalize_status env c, refl)
  next_ends fuel (aborted s) more h = (s, refl)

  drain-Counted :
      (fuel n : ℕ) (c : Ctx)
      → Counted n c
      → 2 * (budget - n) + slack c.queue ≤ fuel
      → Ended (drain env fuel c)
  unfolding drain
  drain-Counted zero n c h enough = absurd (omega (arith, slack_le c.queue))
  drain-Counted (suc fuel) n c h enough = elim (Bool-cases c.failed) [
    | inl failed ↦ rw (loop_once_failed c failed) (finalize_status env c, refl)
    | inr live ↦ rw (loop_once_live c live) (
        next_ends fuel (work env c.queue c) (drain-Counted fuel)
          (work_left fuel n c.queue c enough h))
  ]

  -- From a context whose transaction is closed and whose attempts are within the step budget,
  -- twice the attempts that are left and three more rounds are enough for the loop to end: with a
  -- final status, or with an exception that leaves it.
  pub drain_ends :
      (fuel : ℕ) (c : Ctx)
      → c.graph ≡ g
      → c.con.durable ≡ c.con.db
      → length c.con.db.executions ≤ budget
      → 2 * (budget - length c.con.db.executions) + 3 ≤ fuel
      → (s : Step) × (drain env fuel c ≡ some s)
  drain_ends fuel c same synced within enough =
      let n = length c.con.db.executions in
      let current : HasAttempts budget n c.con.db = record { count = refl; within = within } in
      drain-Counted fuel n c
        (record {
          same_graph = same;
          durable = subst (HasAttempts budget n) (sym synced) current;
          current = current;
        })
        (omega (arith, slack_le c.queue))
