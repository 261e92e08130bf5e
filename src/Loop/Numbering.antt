-- ===== src/Loop/Numbering.antt =====
-- The numbers of the log and of the attempts, and the step budget, across `_drain_queue`.
use ravana.Prelude.{
  ℕ, ◌+◌, ◌≤◌, String, ◌≡◌, refl, ap, sym, subst, Bool, List, [], ◌∷◌, length, arith,
}
use ravana.Graph.{CompiledGraph}
use ravana.Store.{NodeExecution, LogEvent, Db, rows_of, next_sequence, next_attempt}
use ravana.Store.Sequence.{IsNumbered, maximum-sequence, HasAttemptNumbers, maximum-attempt}
use ravana.Loop.{Ctx, Env, update_where, update_rows, push_event}
use ravana.Loop.Drain.{drain}
use ravana.Loop.Invariant.{SameIdentity, Stable, Good}
use ravana.Loop.Invariant.Turns.{Inserts}
use ravana.Loop.Invariant.Runs.{Ends, Good-drain}
use ravana.Loop.Termination.{length-update_rows}

-- What holds of the tables at all times, within a budget of steps.
pub record IsConsistent (budget : ℕ) (d : Db) : Type 0 where
  pub numbered : IsNumbered d.log
  pub attempts : HasAttemptNumbers d.executions
  pub within : length d.executions ≤ budget

next_sequence-IsNumbered :
    (e : LogEvent) (d : Db) → IsNumbered d.log → IsNumbered (push_event e d).log
unfolding next_sequence
next_sequence-IsNumbered e d h = (ap (λ n. n + 1) (maximum-sequence d.log h), h)

rows_of-update_rows :
    (p : NodeExecution → Bool) (f : NodeExecution → NodeExecution) (same : SameIdentity f)
    (node_id : String) (rows : List NodeExecution)
    → length (rows_of node_id (update_rows p f rows)) ≡ length (rows_of node_id rows)
unfolding update_rows
rows_of-update_rows p f same node_id [] = refl
rows_of-update_rows p f same node_id (r ∷ rows) =
    ground (arith, same r, rows_of-update_rows p f same node_id rows)

update_where-same :
    (p : NodeExecution → Bool) (f : NodeExecution → NodeExecution)
    → SameIdentity f
    → (r : NodeExecution)
    → ((update_where p f r).attempt ≡ r.attempt) × ((update_where p f r).node_id ≡ r.node_id)
update_where-same p f same r = ground (arith, same r)

update_rows-HasAttemptNumbers :
    (p : NodeExecution → Bool) (f : NodeExecution → NodeExecution)
    → SameIdentity f
    → (rows : List NodeExecution) → HasAttemptNumbers rows
    → HasAttemptNumbers (update_rows p f rows)
unfolding update_rows
update_rows-HasAttemptNumbers p f same [] h = tt
update_rows-HasAttemptNumbers p f same (r ∷ rows) h = (
  omega (
    arith,
    h.0,
    (update_where-same p f same r).0,
    rows_of-update_rows p f same (update_where p f r).node_id rows,
    ap (λ n. length (rows_of n rows)) (update_where-same p f same r).1,
  ),
  update_rows-HasAttemptNumbers p f same rows h.1,
)

pub IsConsistent-Stable : (budget : ℕ) → Stable (IsConsistent budget)
IsConsistent-Stable budget = record {
  on_event = λ e d h. record {
    numbered = next_sequence-IsNumbered e d h.numbered;
    attempts = h.attempts;
    within = h.within;
  };
  on_run = λ r d h. record { numbered = h.numbered; attempts = h.attempts; within = h.within };
  on_rows = λ p f d same h. record {
    numbered = h.numbered;
    attempts = update_rows-HasAttemptNumbers p f same d.executions h.attempts;
    within = omega (arith, h.within, length-update_rows p f d.executions);
  };
  on_message = λ ms d h. record { numbered = h.numbered; attempts = h.attempts; within = h.within };
  on_hitl = λ hs d h. record { numbered = h.numbered; attempts = h.attempts; within = h.within };
}

module _ (g : CompiledGraph) where
  abbrev pub step_budget : ℕ
  step_budget = g.spec.graph.guards.max_total_steps

  pub IsConsistent-Inserts : Inserts (IsConsistent step_budget) (IsConsistent step_budget) g
  unfolding next_attempt
  IsConsistent-Inserts c node_id same room h = record {
    numbered = h.numbered;
    attempts =
        (ap (λ n. n + 1) (maximum-attempt node_id c.con.db.executions h.attempts), h.attempts);
    within =
        omega (arith, room, ap (λ (x : CompiledGraph). x.spec.graph.guards.max_total_steps) same);
  }

  -- Whatever the agents, the judge, the database and other connections do, and however long it
  -- runs: if the loop starts from consistent tables under its graph with its transaction closed,
  -- then whenever it ends, by a final status or by an exception, both what is committed and what
  -- the transaction sees have their events numbered 1, 2, 3, …, the attempts of each node numbered
  -- 1, 2, 3, …, and no more attempts than `max_total_steps`.
  pub drain-IsConsistent :
      (env : Env) (fuel : ℕ) (c : Ctx)
      → c.graph ≡ g
      → c.con.durable ≡ c.con.db
      → IsConsistent step_budget c.con.db
      → Ends (Good g (IsConsistent step_budget)) (drain env fuel c)
  drain-IsConsistent env fuel c same synced h =
      Good-drain g (IsConsistent step_budget) (IsConsistent-Stable step_budget) IsConsistent-Inserts
        env fuel c
        (record {
          same_graph = same;
          durable = subst (IsConsistent step_budget) (sym synced) h;
          current = h;
        })
