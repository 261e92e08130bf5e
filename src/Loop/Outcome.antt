-- ===== src/Loop/Outcome.antt =====
-- What `_finalize_status` makes of a run: its completion, its end, and a cancel meanwhile.
mod Justified
pub mod Ends
use ravana.Prelude.{
  ℕ, zero, suc, ◌+◌, ◌≤◌, String, ◌≡◌, refl, sym, ap, ◌∙◌, subst, Bool, true, false, ◌&&◌, ◌||◌,
  ◌⊎◌, Option, none, some, List, [], ◌∷◌, inl, inr, Bool-cases, if_cases, if◌then◌else◌,
}
use ravana.Exception.{Exception, terminal_persistence_error}
use ravana.Value.{State}
use ravana.Store.{RunRow, RunStatus, Db, LogEvent, is_terminal, has_pending_hitl}
use ravana.Loop.{
  Ctx, Step, done, raised, Env, Meanwhile, log_event, rollback, commit, pass, set_run, push_event,
  set_db, both_sides, other_cancel, other_write,
}
use ravana.Loop.Finalize.{
  Decision, DodEvent, dod_event, stage, refuses, update_run_status_if_active, write_final,
  decide_dod, finalize_status, is_completed,
}
use Ends.{
  left, final_status, is_settled, IsSettled, Written, refused, kept, fell_back, stored, Finalized,
  untouched, asked, decided, parked, write_final-Written, Written-completed, Written-is_terminal,
  Written-IsSettled, pass-closed, pass-completed, finalize_status-Finalized,
}
use Justified.{JustifiedBy, decide_dod-IsSound, IsSound}

-- What stands behind a run that the finalization completed.
pub record Completion (env : Env) (c : Ctx) (s : Step) : Type 0 where
  pub not_failed : c.failed ≡ false
  pub no_pending : has_pending_hitl c.con.db ≡ false
  pub reached : c.terminal_reached ≡ true
  pub event : Option DodEvent
  pub justified : JustifiedBy event c.graph.spec.definition_of_done
  pub logged : (left s).con.durable.log ≡ (stage event (pass env.judge_meanwhile c)).con.db.log

module _ (env : Env) (c : Ctx) (closed : c.con.durable ≡ c.con.db)
    (active : is_terminal c.con.db.run.status ≡ false) where
  not_completed : {A : Type 0} → c.con.durable.run.status ≡ RunStatus.completed → A
  not_completed h =
      absurd_bool
        (ap is_terminal (sym h) ∙ ap (λ (d : Db). is_terminal d.run.status) closed ∙ active)
    where
      absurd_bool : {A : Type 0} → true ≡ false → A
      absurd_bool h = cc

  not_parked_completed : {A : Type 0} → c.con.db.run.status ≡ RunStatus.completed → A
  not_parked_completed h = not_completed (ap (λ (d : Db). d.run.status) closed ∙ h)

  completed_decision :
      c.failed ≡ false
      → has_pending_hitl c.con.db ≡ false
      → c.terminal_reached ≡ true
      → (d : Decision) → IsSound c.graph.spec.definition_of_done d
      → (s : Step)
      → (d.status ≡ RunStatus.completed)
        × ((left s).con.durable.log ≡ (stage d.event (pass env.judge_meanwhile c)).con.db.log)
      → Completion env c s
  completed_decision fine free reached d (inl bad) s h = cc
  completed_decision fine free reached d (inr good) s h = record {
    not_failed = fine;
    no_pending = free;
    reached = reached;
    event = d.event;
    justified = good.1;
    logged = h.1;
  }

  Finalized-Completion :
      (s : Step) → Finalized env c s → final_status s ≡ RunStatus.completed → Completion env c s
  Finalized-Completion _ (untouched u) h = not_completed h
  Finalized-Completion _ (asked waits) h =
      elim (Written-completed _ _ c _ (write_final-Written env _ none c closed) h) [
        | inl was ↦ not_completed was
        | inr k ↦ cc
      ]
  Finalized-Completion _ (decided fine free reached) h =
      let d = decide_dod env c in
      let c' = pass env.judge_meanwhile c in
      let w =
        write_final-Written env d.status d.event c' (pass-closed env.judge_meanwhile c closed) in
      elim (Written-completed _ _ c' _ w h) [
        | inl was ↦ not_completed (pass-completed env.judge_meanwhile c was)
        | inr k ↦ completed_decision fine free reached d (decide_dod-IsSound env c) _ k
      ]
  Finalized-Completion _ (parked short) h =
      elim (Written-completed _ _ c _ (write_final-Written env _ none c closed) h) [
        | inl was ↦ not_completed was
        | inr k ↦ not_parked_completed k.0
      ]

  -- If the finalization, started with the transaction closed, leaves an active run COMPLETED, then
  -- the run had not failed, no human request was pending, a terminal was reached, and either there
  -- is no definition of done or the log ends with the event that reports it as met.
  pub finalize_status-Completion :
      final_status (finalize_status env c) ≡ RunStatus.completed
      → Completion env c (finalize_status env c)
  finalize_status-Completion h =
      Finalized-Completion (finalize_status env c) (finalize_status-Finalized env c) h

  decision-settled :
      (d : Decision) → IsSound c.graph.spec.definition_of_done d → is_settled d.status ≡ true
  decision-settled d (inl bad) = ap is_settled bad
  decision-settled d (inr good) = ap is_settled good.0

  Finalized-IsSettled :
      (s : Step) → c.failed ≡ false → c.terminal_reached ≡ true → Finalized env c s → IsSettled s
  Finalized-IsSettled _ fine reached (untouched (inl bad)) = cc
  Finalized-IsSettled _ fine reached (untouched (inr over)) = cc
  Finalized-IsSettled _ fine reached (asked waits) =
      Written-IsSettled _ _ c _ refl (write_final-Written env RunStatus.waiting_human none c closed)
  Finalized-IsSettled _ fine reached (decided _ free _) =
      let d = decide_dod env c in
      let c' = pass env.judge_meanwhile c in
      Written-IsSettled d.status d.event c' _ (decision-settled d (decide_dod-IsSound env c))
        (write_final-Written env d.status d.event c' (pass-closed env.judge_meanwhile c closed))
  Finalized-IsSettled _ fine reached (parked short) = cc

  -- An active run that reached a terminal without failing does not stay RUNNING: the finalization,
  -- started with the transaction closed, leaves it durably COMPLETED, FAILED, CANCELLED or
  -- WAITING_HUMAN, or raises `TerminalPersistenceError`.
  pub finalize_status-IsSettled :
      c.failed ≡ false → c.terminal_reached ≡ true → IsSettled (finalize_status env c)
  finalize_status-IsSettled fine reached =
      Finalized-IsSettled (finalize_status env c) fine reached (finalize_status-Finalized env c)

  cancelled_during :
      (m : Meanwhile) (status : RunStatus) (event : Option DodEvent) (s : Step)
      → m ≡ Meanwhile.cancelled
      → Written status event (pass m c) s
      → (left s).con.durable ≡ other_cancel c.con.durable
  cancelled_during Meanwhile.quiet status event s h w = cc
  cancelled_during Meanwhile.cancelled status event s h w =
      Written-is_terminal status event (pass Meanwhile.cancelled c) s refl w
  cancelled_during (Meanwhile.written _) status event s h w = cc

  Finalized-cancel :
      (s : Step)
      → env.judge_meanwhile ≡ Meanwhile.cancelled
      → c.failed ≡ false
      → has_pending_hitl c.con.db ≡ false
      → c.terminal_reached ≡ true
      → Finalized env c s
      → (left s).con.durable ≡ other_cancel c.con.durable
  Finalized-cancel _ h fine free reached (untouched (inl bad)) = cc
  Finalized-cancel _ h fine free reached (untouched (inr over)) = cc
  Finalized-cancel _ h fine free reached (asked waits) = cc
  Finalized-cancel _ h fine free reached (decided _ _ _) =
      let d = decide_dod env c in
      let c' = pass env.judge_meanwhile c in
      cancelled_during env.judge_meanwhile d.status d.event _ h
        (write_final-Written env d.status d.event c' (pass-closed env.judge_meanwhile c closed))
  Finalized-cancel _ h fine free reached (parked short) = cc

  -- An operator who cancels an active run while its definition of done is judged, at a terminal,
  -- with no human request pending and with the transaction closed, wins, whatever the verdict and
  -- whichever write the database refuses: what is durable is the cancelled run, with no event of
  -- the verdict.
  pub finalize_status-cancel :
      env.judge_meanwhile ≡ Meanwhile.cancelled
      → c.failed ≡ false
      → has_pending_hitl c.con.db ≡ false
      → c.terminal_reached ≡ true
      → (left (finalize_status env c)).con.durable ≡ other_cancel c.con.durable
  finalize_status-cancel h fine free reached =
      Finalized-cancel (finalize_status env c) h fine free reached (finalize_status-Finalized env c)
