-- ===== src/Loop/Invariant/Runs.antt =====
-- The rule for the whole loop: what the tables satisfy when it starts, they satisfy when it ends.
use ravana.Prelude.{ℕ, zero, suc, String, Option, none, some, List, [], ◌∷◌, inl, inr, Bool-cases}
use ravana.Graph.{CompiledGraph}
use ravana.Store.{RunStatus, Db, is_terminal, has_pending_hitl}
use ravana.Loop.{Ctx, Step, done, raised, Env, pass, rollback}
use ravana.Loop.Finalize.{
  DodEvent, dod_event, stage, refuses, update_run_status_if_active, write_final, decide_dod,
  finalize_status,
}
use ravana.Loop.Dispatch.{dispatch}
use ravana.Loop.Drain.{
  Progress, working, idle, aborted, after_dispatch, release, work, loop_once, pending_joins, next,
  drain,
}
use ravana.Loop.Invariant.{Stable, Good, AfterStep, Good-rollback, Good-log_event, Good-pass}
use ravana.Loop.Invariant.Routes.{if_rule}
use ravana.Loop.Invariant.Turns.{Inserts, Dispatched, Good-dispatch}

-- An option that holds, if anything, a step with the property.
abbrev pub Ends : (Ctx → Type 0) → Option Step → Type 0
Ends Q none = Unit
Ends Q (some s) = AfterStep Q s

module _ (g : CompiledGraph) (P : Db → Type 0) (st : Stable P) where
  Good-stage : (e : Option DodEvent) (c : Ctx) → Good g P c → Good g P (stage e c)
  Good-stage none c h = h
  Good-stage (some e) c h = Good-log_event g P st (dod_event e) h

  Good-update_run_status :
      (status : RunStatus) (c : Ctx) → Good g P c → Good g P (update_run_status_if_active status c)
  unfolding update_run_status_if_active
  Good-update_run_status status c h =
      let r = record c.con.db.run { status = status } in
      let q = st.on_run r c.con.db h.current in
      if_rule (Good g P) (is_terminal c.con.db.run.status) (Good-rollback g P st h)
        (record { same_graph = h.same_graph; durable = q; current = q })

  Good-write_final :
      (env : Env) (status : RunStatus) (event : Option DodEvent) (c : Ctx)
      → Good g P c
      → AfterStep (Good g P) (write_final env status event c)
  unfolding write_final
  Good-write_final env status event c h =
      let back = Good-rollback g P st h in
      let fallback = Good-update_run_status RunStatus.failed (rollback c) back in
      let normal = Good-update_run_status status (stage event c) (Good-stage event c h) in
      elim (Bool-cases (refuses env event)) [
        | inl bad ↦ rw bad (elim (Bool-cases env.faults.fallback_write) [
          | inl worse ↦ rw worse back
          | inr fair ↦ rw fair fallback
        ])
        | inr good ↦ rw good normal
      ]

  pub Good-finalize_status :
      (env : Env) (c : Ctx) → Good g P c → AfterStep (Good g P) (finalize_status env c)
  unfolding finalize_status
  Good-finalize_status env c h =
      let d = decide_dod env c in
      if_rule (AfterStep (Good g P)) c.failed h (
        if_rule (AfterStep (Good g P)) (is_terminal c.con.db.run.status) h (
          if_rule (AfterStep (Good g P)) (has_pending_hitl c.con.db)
            (Good-write_final env RunStatus.waiting_human none c h)
            (if_rule (AfterStep (Good g P)) c.terminal_reached
              (Good-write_final env d.status d.event (pass env.judge_meanwhile c)
                (Good-pass g P st env.judge_meanwhile c h))
              (Good-write_final env c.con.db.run.status none c h))))

  abbrev AfterProgress : Progress → Type 0
  AfterProgress (working c) = Good g P c
  AfterProgress (idle c) = Good g P c
  AfterProgress (aborted s) = AfterStep (Good g P) s

  Good-release : (nodes : List String) (c : Ctx) → Good g P c → AfterProgress (release nodes c)
  Good-release [] c h = h
  Good-release (n ∷ nodes) c h = record {
    same_graph = h.same_graph;
    durable = h.durable;
    current = h.current;
  }

  module _ (ins : Inserts P P g) (env : Env) where
    after : (s : Step) → Dispatched g P P s → AfterProgress (after_dispatch s)
    after (done c) (inl h) = h.1
    after (done c) (inr h) = h
    after (raised e c) h = h

    Good-work : (queue : List String) (c : Ctx) → Good g P c → AfterProgress (work env queue c)
    Good-work [] c h =
        if_rule AfterProgress (has_pending_hitl c.con.db) h (Good-release (pending_joins c) c h)
    Good-work (n ∷ queue) c h = after (dispatch env n (record c { queue = queue })) (
        Good-dispatch g P P st st ins env n (record c { queue = queue })
          (record { same_graph = h.same_graph; durable = h.durable; current = h.current }))

    Good-loop_once : (c : Ctx) → Good g P c → AfterProgress (loop_once env c)
    unfolding loop_once
    Good-loop_once c h = if_rule AfterProgress c.failed h (Good-work c.queue c h)

    Good-next :
        (rest : Ctx → Option Step) (p : Progress)
        → ((c : Ctx) → Good g P c → Ends (Good g P) (rest c))
        → AfterProgress p
        → Ends (Good g P) (next env rest p)
    Good-next rest (working c) more h = more c h
    Good-next rest (idle c) more h = Good-finalize_status env c h
    Good-next rest (aborted s) more h = h

    pub Good-drain : (fuel : ℕ) (c : Ctx) → Good g P c → Ends (Good g P) (drain env fuel c)
    unfolding drain
    Good-drain zero c h = tt
    Good-drain (suc fuel) c h =
        Good-next (drain env fuel) (loop_once env c) (Good-drain fuel) (Good-loop_once c h)
