-- ===== src/Loop/Invariant/Routes.antt =====
-- The rule for `_route` and what it calls.
use ravana.Prelude.{
  ℕ, String, refl, Bool, true, false, Option, none, some, List, [], ◌∷◌, str_eq, contains, not,
  ◌&&◌, subset, or_else, if◌then◌else◌,
}
use ravana.Exception.{Result, ok, raise}
use ravana.Value.{State}
use ravana.Dict.{get}
use ravana.Schema.{Join, GraphNode, GraphEdge, HitlConfig, terminal}
use ravana.Graph.{
  CompiledGraph, NodeExecutionContract, node, contract_for_node, outgoing, has_outgoing_edges,
}
use ravana.Expr.{eval_condition}
use ravana.Store.{Db, Failure, EventType, join_arrivals}
use ravana.Loop.{Ctx, Step, done, Env, log_event, commit, event, guards}
use ravana.Loop.Commit.{has_id}
use ravana.Loop.Route.{
  deliver, deliver_to, enqueue, route_event, fire_target, fire_targets, fire_edge, raise_hitl,
  await_human, eligible, dead_end, use_default, ask_human, consult, fall_through, try_edge,
  edge_is_loop_capped, route_edges, route,
}
use ravana.Loop.Invariant.{
  Stable, Good, AfterStep, AfterStep-bind, Good-commit, Good-log_event, Good-fail_run,
}
use ravana.Loop.Invariant.Steps.{Good-update_rows}

pub if_rule {ℓ} :
    {A : Type ℓ} (Q : A → Type 0) (b : Bool) {x y : A} → Q x → Q y → Q (if b then x else y)
if_rule Q true hx hy = hx
if_rule Q false hx hy = hy

module _ (g : CompiledGraph) (P : Db → Type 0) (st : Stable P) where
  Good-enqueue : (target : String) {c : Ctx} → Good g P c → Good g P (enqueue target c)
  Good-enqueue target h = record {
    same_graph = h.same_graph;
    durable = h.durable;
    current = h.current;
  }

  Good-deliver : (target : String) (j : Join) (c : Ctx) → Good g P c → Good g P (deliver target j c)
  Good-deliver target Join.any c h = Good-enqueue target h
  Good-deliver target Join.all c h =
      let k = Good-commit g P st h in
      if_rule (Good g P)
        (subset (or_else (get c.graph.inbound_sources target) []) (join_arrivals c.con.db target)
          && not (contains c.queue target))
        (Good-enqueue target k) k

  Good-deliver_to :
      (target : String) (r : Result GraphNode) (c : Ctx)
      → Good g P c
      → AfterStep (Good g P) (deliver_to target r c)
  Good-deliver_to target (ok n) c h = Good-deliver target n.join c h
  Good-deliver_to target (raise e) c h = h

  Good-fire_target :
      (source target : String) (condition : Option String) (execution : ℕ) (c : Ctx)
      → Good g P c
      → AfterStep (Good g P) (fire_target source target condition execution c)
  unfolding fire_target
  Good-fire_target source target condition execution c h =
      let k = Good-log_event g P st (route_event source target condition execution) h in
      if_rule (AfterStep (Good g P)) (str_eq target terminal)
        (record { same_graph = k.same_graph; durable = k.durable; current = k.current })
        (Good-deliver_to target (node c.graph target)
          (log_event (route_event source target condition execution) c) k)

  Good-fire_targets :
      (source : String) (targets : List String) (condition : Option String) (execution : ℕ)
      (c : Ctx)
      → Good g P c
      → AfterStep (Good g P) (fire_targets source targets condition execution c)
  unfolding fire_targets
  Good-fire_targets source [] condition execution c h = h
  Good-fire_targets source (target ∷ targets) condition execution c h =
      AfterStep-bind (Good g P) (fire_target source target condition execution c)
        (λ c'. fire_targets source targets condition execution c')
        (Good-fire_target source target condition execution c h)
        (λ c' k. Good-fire_targets source targets condition execution c' k)

  Good-fire_edge :
      (source : String) (edge : GraphEdge) (execution : ℕ) (c : Ctx)
      → Good g P c
      → AfterStep (Good g P) (fire_edge source edge execution c)
  unfolding fire_edge
  Good-fire_edge source edge execution c h =
      AfterStep-bind (Good g P) (fire_targets source edge.to edge.condition execution c)
        (λ c'. done (commit c')) (Good-fire_targets source edge.to edge.condition execution c h)
        (λ c' k. Good-commit g P st k)

  Good-raise_hitl :
      (node_id : String) (execution : ℕ) (hitl : HitlConfig) (c : Ctx)
      → Good g P c
      → Good g P (raise_hitl node_id execution hitl c)
  unfolding raise_hitl
  Good-raise_hitl node_id execution hitl c h =
      let u =
        Good-update_rows g P st (has_id execution) await_human c (λ r. (refl, refl, refl)) h in
      Good-commit g P st (
        Good-log_event g P st (event EventType.hitl_raised (some node_id) (some execution))
          (record {
            same_graph = u.same_graph;
            durable = u.durable;
            current = st.on_hitl _ _ u.current;
          }))

  module _ (env : Env) (node_id : String) (execution : ℕ) (shared_state : State) where
    Good-dead_end :
        (c : Ctx)
        → Good g P c
        → AfterStep (Good g P) (dead_end env node_id execution shared_state c)
    Good-dead_end c h =
        let t =
          Good-commit g P st
            (Good-log_event g P st (event EventType.terminate (some node_id) (some execution)) h) in
        if_rule (AfterStep (Good g P)) (has_outgoing_edges c.graph node_id)
          (Good-fail_run g P st env node_id Failure.no_matching_route none c h)
          (record { same_graph = t.same_graph; durable = t.durable; current = t.current })

    Good-use_default :
        (default : Option GraphEdge) (c : Ctx)
        → Good g P c
        → AfterStep (Good g P) (use_default env node_id execution shared_state default c)
    Good-use_default (some edge) c h = Good-fire_edge node_id edge execution c h
    Good-use_default none c h = Good-dead_end c h

    Good-ask_human :
        (hitl : HitlConfig) (default : Option GraphEdge) (r : Result Bool) (c : Ctx)
        → Good g P c
        → AfterStep (Good g P) (ask_human env node_id execution shared_state hitl default r c)
    Good-ask_human hitl default (ok true) c h = Good-raise_hitl node_id execution hitl c h
    Good-ask_human hitl default (ok false) c h = Good-use_default default c h
    Good-ask_human hitl default (raise e) c h = h

    Good-consult :
        (hitl : Option HitlConfig) (default : Option GraphEdge) (c : Ctx)
        → Good g P c
        → AfterStep (Good g P) (consult env node_id execution shared_state hitl default c)
    Good-consult none default c h = Good-use_default default c h
    Good-consult (some hitl) default c h =
        if_rule (AfterStep (Good g P)) hitl.enabled
          (Good-ask_human hitl default
            (eval_condition env.evaluator hitl.trigger_condition shared_state) c h)
          (Good-use_default default c h)

    Good-fall_through :
        (r : Result NodeExecutionContract) (default : Option GraphEdge) (c : Ctx)
        → Good g P c
        → AfterStep (Good g P) (fall_through env node_id execution shared_state r default c)
    Good-fall_through (ok contract) default c h = Good-consult contract.hitl default c h
    Good-fall_through (raise e) default c h = h

    Good-try_edge :
        (edge : GraphEdge) (r : Result Bool) (rest : Step) (c : Ctx)
        → AfterStep (Good g P) rest
        → Good g P c
        → AfterStep (Good g P) (try_edge env node_id execution shared_state edge r rest c)
    Good-try_edge edge (ok true) rest c more h = Good-fire_edge edge.source edge execution c h
    Good-try_edge edge (ok false) rest c more h = more
    Good-try_edge edge (raise e) rest c more h = h

    Good-route_edges :
        (edges : List GraphEdge) (default : Option GraphEdge) (c : Ctx)
        → Good g P c
        → AfterStep (Good g P) (route_edges env node_id execution shared_state edges default c)
    unfolding route_edges
    Good-route_edges [] default c h =
        Good-fall_through (contract_for_node c.graph node_id) default c h
    Good-route_edges (edge ∷ edges) default c h =
        let more = Good-route_edges edges default c h in
        if_rule (AfterStep (Good g P)) (edge_is_loop_capped c.con.db edge (guards c)) more (
          Good-try_edge edge (eligible env node_id execution shared_state edge.condition)
            (route_edges env node_id execution shared_state edges default c) c more h)

    pub Good-route :
        (c : Ctx) → Good g P c → AfterStep (Good g P) (route env node_id execution shared_state c)
    unfolding route
    Good-route c h = Good-route_edges (outgoing c.graph node_id).0 (outgoing c.graph node_id).1 c h
