-- ===== src/Loop/Route/Choice.antt =====
-- What `_route` chooses, as a relation on the document's edges: the first conditional edge that is
-- under its loop cap and eligible, then a human, then the default edge, then a failure or the end.
use ravana.Prelude.{
  ℕ, String, ◌≡◌, refl, sym, subst, Bool, true, false, ◌⊎◌, inl, inr, Option, none, some, List, [],
  ◌∷◌, keep, find, if_cases,
}
use ravana.Exception.{Exception, Result, ok, raise}
use ravana.Value.{State}
use ravana.Schema.{GraphEdge, HitlConfig, WorkflowSpec}
use ravana.Graph.{NodeExecutionContract, contract_for_node, outgoing, has_outgoing_edges}
use ravana.Graph.Compile.{compile_workflow}
use ravana.Graph.Edges.{sort_by_priority}
use ravana.Graph.Outgoing.{leaves, is_catch_all}
use ravana.Graph.Sound.{outgoing-compile}
use ravana.Expr.{eval_condition}
use ravana.Store.{Failure}
use ravana.Loop.{Ctx, Step, done, raised, Env, guards}
use ravana.Loop.Fail.{fail_run}
use ravana.Loop.Route.{
  edge_is_loop_capped, fire_edge, raise_hitl, eligible, terminate, use_default, ask_human, consult,
  fall_through, try_edge, route_edges, route,
}

module _ (env : Env) (node_id : String) (execution : ℕ) (shared_state : State) (c : Ctx) where
  abbrev pub condition_of : GraphEdge → Result Bool
  condition_of edge = eligible env node_id execution shared_state edge.condition

  abbrev pub capped : GraphEdge → Bool
  capped edge = edge_is_loop_capped c.con.db edge (guards c)

  abbrev pub triggers : HitlConfig → Result Bool
  triggers hitl = eval_condition env.evaluator hitl.trigger_condition shared_state

  -- No human is asked: none is configured, or the trigger is disabled or false.
  abbrev pub AsksNobody : Option HitlConfig → Type 0
  AsksNobody none = Unit
  AsksNobody (some hitl) = (hitl.enabled ≡ false) ⊎ (triggers hitl ≡ ok false)

  -- What follows when no conditional edge was taken, by the default edge of the node.
  pub data FallenThrough : Option GraphEdge → Step → Type 0 where
    no_contract :
        {default : Option GraphEdge} {e : Exception}
        → contract_for_node c.graph node_id ≡ raise e
        → FallenThrough default (raised e c)
    trigger_raised :
        {default : Option GraphEdge} {contract : NodeExecutionContract} {hitl : HitlConfig}
        {e : Exception}
        → contract_for_node c.graph node_id ≡ ok contract
        → contract.hitl ≡ some hitl
        → hitl.enabled ≡ true
        → triggers hitl ≡ raise e
        → FallenThrough default (raised e c)
    asked :
        {default : Option GraphEdge} {contract : NodeExecutionContract} {hitl : HitlConfig}
        → contract_for_node c.graph node_id ≡ ok contract
        → contract.hitl ≡ some hitl
        → hitl.enabled ≡ true
        → triggers hitl ≡ ok true
        → FallenThrough default (done (raise_hitl node_id execution hitl c))
    took_default :
        {contract : NodeExecutionContract} {edge : GraphEdge}
        → contract_for_node c.graph node_id ≡ ok contract
        → AsksNobody contract.hitl
        → FallenThrough (some edge) (fire_edge node_id edge execution c)
    failed :
        {contract : NodeExecutionContract}
        → contract_for_node c.graph node_id ≡ ok contract
        → AsksNobody contract.hitl
        → has_outgoing_edges c.graph node_id ≡ true
        → FallenThrough none (done (fail_run env node_id Failure.no_matching_route none c))
    ended :
        {contract : NodeExecutionContract}
        → contract_for_node c.graph node_id ≡ ok contract
        → AsksNobody contract.hitl
        → has_outgoing_edges c.graph node_id ≡ false
        → FallenThrough none (done (terminate env node_id execution shared_state c))

  -- What follows a turn, by the conditional edges in order and the default edge.
  pub data Routed : List GraphEdge → Option GraphEdge → Step → Type 0 where
    fired :
        {edge : GraphEdge} {edges : List GraphEdge} {default : Option GraphEdge}
        → capped edge ≡ false
        → condition_of edge ≡ ok true
        → Routed (edge ∷ edges) default (fire_edge edge.source edge execution c)
    condition_raised :
        {edge : GraphEdge} {edges : List GraphEdge} {default : Option GraphEdge} {e : Exception}
        → capped edge ≡ false
        → condition_of edge ≡ raise e
        → Routed (edge ∷ edges) default (raised e c)
    passed_over :
        {edge : GraphEdge} {edges : List GraphEdge} {default : Option GraphEdge} {s : Step}
        → (capped edge ≡ true) ⊎ (condition_of edge ≡ ok false)
        → Routed edges default s
        → Routed (edge ∷ edges) default s
    fell_through :
        {default : Option GraphEdge} {s : Step} → FallenThrough default s → Routed [] default s

  module _ (contract : NodeExecutionContract)
      (found : contract_for_node c.graph node_id ≡ ok contract) where
    use_default-FallenThrough :
        (default : Option GraphEdge)
        → AsksNobody contract.hitl
        → FallenThrough default (use_default env node_id execution shared_state default c)
    use_default-FallenThrough (some edge) nobody = took_default found nobody
    use_default-FallenThrough none nobody =
        if_cases (FallenThrough none) (has_outgoing_edges c.graph node_id) (failed found nobody)
          (ended found nobody)

    ask_human-FallenThrough :
        (hitl : HitlConfig) (default : Option GraphEdge) (r : Result Bool)
        → contract.hitl ≡ some hitl
        → hitl.enabled ≡ true
        → triggers hitl ≡ r
        → FallenThrough default (ask_human env node_id execution shared_state hitl default r c)
    ask_human-FallenThrough hitl default (ok true) has on h = asked found has on h
    ask_human-FallenThrough hitl default (ok false) has on h =
        use_default-FallenThrough default (subst AsksNobody (sym has) (inr h))
    ask_human-FallenThrough hitl default (raise e) has on h = trigger_raised found has on h

    consult-FallenThrough :
        (hitl : Option HitlConfig) (default : Option GraphEdge)
        → contract.hitl ≡ hitl
        → FallenThrough default (consult env node_id execution shared_state hitl default c)
    consult-FallenThrough none default has =
        use_default-FallenThrough default (subst AsksNobody (sym has) tt)
    consult-FallenThrough (some hitl) default has =
        if_cases (FallenThrough default) hitl.enabled
          (λ on. ask_human-FallenThrough hitl default (triggers hitl) has on refl)
          (λ off. use_default-FallenThrough default (subst AsksNobody (sym has) (inl off)))

  fall_through-FallenThrough :
      (r : Result NodeExecutionContract) (default : Option GraphEdge)
      → contract_for_node c.graph node_id ≡ r
      → FallenThrough default (fall_through env node_id execution shared_state r default c)
  fall_through-FallenThrough (ok contract) default found =
      consult-FallenThrough contract found contract.hitl default refl
  fall_through-FallenThrough (raise e) default found = no_contract found

  try_edge-Routed :
      (edge : GraphEdge) (edges : List GraphEdge) (default : Option GraphEdge) (r : Result Bool)
      (rest : Step)
      → capped edge ≡ false
      → condition_of edge ≡ r
      → Routed edges default rest
      → Routed (edge ∷ edges) default (try_edge env node_id execution shared_state edge r rest c)
  try_edge-Routed edge edges default (ok true) rest open_ h k = fired open_ h
  try_edge-Routed edge edges default (ok false) rest open_ h k = passed_over (inr h) k
  try_edge-Routed edge edges default (raise e) rest open_ h k = condition_raised open_ h

  route_edges-Routed :
      (edges : List GraphEdge) (default : Option GraphEdge)
      → Routed edges default (route_edges env node_id execution shared_state edges default c)
  unfolding route_edges
  route_edges-Routed [] default =
      fell_through (fall_through-FallenThrough (contract_for_node c.graph node_id) default refl)
  route_edges-Routed (edge ∷ edges) default =
      let k = route_edges-Routed edges default in
      let rest = route_edges env node_id execution shared_state edges default c in
      if_cases (Routed (edge ∷ edges) default) (capped edge) (λ over. passed_over (inl over) k)
        (λ under. try_edge-Routed edge edges default (condition_of edge) rest under refl k)

  -- In a compiled graph, the step that `_route` makes is the one that the relation allows for the
  -- document's non-default edges out of the node, sorted by priority, and for the first default
  -- edge out of it: the first edge that is under its loop cap and whose condition holds fires (a
  -- condition that raises before that leaves the loop); when all are passed over, a human is asked
  -- if the trigger holds, else the default edge fires, else the run fails if the node has edges,
  -- and the branch ends if it has none.
  pub route-Routed :
      (spec : WorkflowSpec)
      → compile_workflow spec ≡ ok c.graph
      → Routed
          (sort_by_priority (keep (leaves node_id) spec.graph.edges))
          (find (is_catch_all node_id) spec.graph.edges)
          (route env node_id execution shared_state c)
  unfolding route
  route-Routed spec compiled =
      let out = outgoing c.graph node_id in
      subst
        (λ (o : List GraphEdge × Option GraphEdge).
          Routed o.0 o.1 (route_edges env node_id execution shared_state out.0 out.1 c))
        (outgoing-compile spec c.graph compiled node_id) (route_edges-Routed out.0 out.1)
