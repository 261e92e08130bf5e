-- ===== src/Loop/Resume/Answered.antt =====
-- What a resumption does to the tables.
use ravana.Prelude.{ℕ, String, ◌≡◌, sym, subst, Option, none, some, if_cases}
use ravana.Exception.{Exception}
use ravana.Value.{State}
use ravana.Graph.{CompiledGraph}
use ravana.Store.{HitlRequest, EventType, is_pending}
use ravana.Loop.{Ctx, Env, event, pass}
use ravana.Loop.Invariant.{Good, Good-commit, Good-log_event, Good-pass}
use ravana.Loop.Invariant.Runs.{Ends, Good-drain}
use ravana.Loop.Numbering.{IsConsistent, IsConsistent-Stable, IsConsistent-Inserts, step_budget}
use ravana.Loop.Resume.{
  Resumption, find_request, update_request, answer, answer_other, prepare, requeue, prepared,
  requested, resume_hitl,
}

module _ (g : CompiledGraph) where
  Good-answer :
      (r : Resumption) (node_id : String) (c : Ctx)
      → Good g (IsConsistent (step_budget g)) c
      → Good g (IsConsistent (step_budget g)) (answer r node_id c)
  unfolding answer
  Good-answer r node_id c h =
      let st = IsConsistent-Stable (step_budget g) in
      let asked =
        st.on_hitl (update_request r.hitl_request_id r.response c.con.db.hitl) c.con.db h.current in
      Good-commit g (IsConsistent (step_budget g)) st (
        Good-log_event g (IsConsistent (step_budget g)) st
          (event EventType.hitl_resolved (some node_id) none)
          (record {
            same_graph = h.same_graph;
            durable = h.durable;
            current = st.on_message _ _ asked;
          }))

  Good-prepare :
      (r : Resumption) (node_id : String) (other : Option State) (c : Ctx)
      → Good g (IsConsistent (step_budget g)) c
      → Good g (IsConsistent (step_budget g)) (answer_other r node_id other c)
  Good-prepare r node_id none c h = h
  Good-prepare r node_id (some response) c h =
      Good-answer (record r { response = response }) node_id c h

  prepared-Ends :
      (env : Env) (fuel : ℕ) (r : Resumption) (c : Ctx) (e : Option Exception) (h : HitlRequest)
      → Good g (IsConsistent (step_budget g)) c
      → Ends (Good g (IsConsistent (step_budget g))) (prepared env fuel r c e h)
  prepared-Ends env fuel r c (some e) h k =
      Good-prepare r h.node_id r.other_response (pass r.meanwhile c) (
        Good-pass g (IsConsistent (step_budget g)) (IsConsistent-Stable (step_budget g)) r.meanwhile
          c k)
  prepared-Ends env fuel r c none h k =
      let p = Good-prepare r h.node_id r.other_response (pass r.meanwhile c) (
        Good-pass g (IsConsistent (step_budget g)) (IsConsistent-Stable (step_budget g)) r.meanwhile
          c k) in
      let a = Good-answer r h.node_id (prepare r h.node_id c) p in
      Good-drain g (IsConsistent (step_budget g)) (IsConsistent-Stable (step_budget g))
        (IsConsistent-Inserts g) env fuel
        (requeue h.node_id (answer r h.node_id (prepare r h.node_id c)))
        (record { same_graph = a.same_graph; durable = a.durable; current = a.current })

  requested-Ends :
      (env : Env) (fuel : ℕ) (r : Resumption) (c : Ctx) (h : Option HitlRequest)
      → Good g (IsConsistent (step_budget g)) c
      → Ends (Good g (IsConsistent (step_budget g))) (requested env fuel r c h)
  requested-Ends env fuel r c none k = k
  requested-Ends env fuel r c (some h) k =
      if_cases (Ends (Good g (IsConsistent (step_budget g)))) (is_pending h.status)
        (λ open_. prepared-Ends env fuel r c r.preparation_error h k) (λ closed. k)

  -- A resumption, refused or not, keeps the tables consistent, also when another resumption answers
  -- the same request while the runtime is prepared: if the events, the attempts and the
  -- step budget are as they should be when the human answers, under the run's graph and with the
  -- transaction closed, then they are so when the resumed run ends or an exception leaves it.
  pub resume_hitl-IsConsistent :
      (env : Env) (fuel : ℕ) (r : Resumption) (c : Ctx)
      → c.graph ≡ g
      → c.con.durable ≡ c.con.db
      → IsConsistent (step_budget g) c.con.db
      → Ends (Good g (IsConsistent (step_budget g))) (resume_hitl env fuel r c)
  unfolding resume_hitl
  resume_hitl-IsConsistent env fuel r c same synced h =
      let k : Good g (IsConsistent (step_budget g)) c = record {
        same_graph = same;
        durable = subst (IsConsistent (step_budget g)) (sym synced) h;
        current = h;
      } in
      if_cases (Ends (Good g (IsConsistent (step_budget g)))) r.is_pinned
        (λ pinned. requested-Ends env fuel r c (find_request r.hitl_request_id c.con.db) k)
        (λ loose. k)
