-- ===== src/Graph/Sound.antt =====
-- What a compilation that succeeds guarantees, in terms of the document alone.
use ravana.Prelude.{
  ◌≤◌, String, ◌≡◌, ◌≢◌, refl, true, false, not, [], keep, find, any, all, All, length, contains,
  ◌⊎◌, inl, inr, arith,
}
use ravana.Exception.{Result, ok, raise, is_ok}
use ravana.Dict.{get, has_key, keys}
use ravana.Schema.{terminal, WorkflowSpec}
use ravana.Graph.{CompiledGraph, outgoing}
use ravana.Graph.Edges.{get_list, EdgeTables, no_edges, add_edges, sort_by_priority, sort_values}
use ravana.Graph.Compile.{
  by_id, check_node, check_judge, check_refs, described_mcp, compile_workflow,
}
use ravana.Graph.Order.{get_list-sort_values}
use ravana.Graph.Outgoing.{
  leaves, is_catch_all, joins, KnownEnds, add_edges_known, add_edges_conditional, add_edges_default,
  add_edges_one_default, add_edges_inbound,
}

Result-cases {ℓ} : {A : Type ℓ} (r : Result A) → ((a : A) × (r ≡ ok a)) ⊎ (is_ok r ≡ false)
Result-cases (ok a) = inl (a, refl)
Result-cases (raise e) = inr refl

-- The parts of a compiled graph, as the last statement of `compile_workflow` puts them together.
pub record Parts (spec : WorkflowSpec) (g : CompiledGraph) : Type 0 where
  pub tables : EdgeTables
  pub same_spec : g.spec ≡ spec
  pub nodes : g.nodes_by_id ≡ by_id (λ n. n.id) [] spec.graph.nodes
  pub filed : add_edges g.nodes_by_id no_edges spec.graph.edges ≡ ok tables
  pub conditional : g.conditional_edges_by_source ≡ sort_values tables.conditional
  pub default : g.default_edge_by_source ≡ tables.default
  pub inbound : g.inbound_sources ≡ tables.inbound
  pub entry : has_key g.nodes_by_id spec.graph.entry ≡ true
  pub nodes_checked : all (check_node g.agents_by_id g.toolkits_by_id) spec.graph.nodes ≡ true
  pub agents_checked :
      all (check_refs (keys g.toolkits_by_id) (keys g.skills_by_id)) spec.agents ≡ true
  pub judge_checked : check_judge g.agents_by_id spec.definition_of_done ≡ true
  pub mcp_checked : all (λ t. not (described_mcp t)) spec.toolkits ≡ true

pub compile_workflow-Parts :
    (spec : WorkflowSpec) (g : CompiledGraph) → compile_workflow spec ≡ ok g → Parts spec g
unfolding compile_workflow
compile_workflow-Parts spec g h =
    elim (Result-cases
      (add_edges (by_id (λ n. n.id) [] spec.graph.nodes) no_edges spec.graph.edges)) [
        | inl (tables, filed) ↦ record {
          tables = tables;
          same_spec = ground arith;
          nodes = ground arith;
          filed = ground arith;
          conditional = ground arith;
          default = ground arith;
          inbound = ground arith;
          entry = ground arith;
          nodes_checked = ground arith;
          agents_checked = ground arith;
          judge_checked = ground arith;
          mcp_checked = ground arith;
        }
        | inr failed ↦ ground arith
      ]

module _ (spec : WorkflowSpec) (g : CompiledGraph) (compiled : compile_workflow spec ≡ ok g) where
  -- In a graph that compiles, the conditional edges of a node are the document's non-default edges
  -- out of it, sorted by priority, and its default edge is the document's first default edge out
  -- of it.
  pub outgoing-compile :
      (s : String)
      → outgoing g s ≡ (
        sort_by_priority (keep (leaves s) spec.graph.edges),
        find (is_catch_all s) spec.graph.edges,
      )
  unfolding outgoing get
  outgoing-compile s =
      let p = compile_workflow-Parts spec g compiled in
      ground (
        arith,
        p,
        get_list-sort_values p.tables.conditional s,
        add_edges_conditional g.nodes_by_id s no_edges p.tables spec.graph.edges p.filed,
        add_edges_default g.nodes_by_id s no_edges p.tables spec.graph.edges p.filed,
      )

  -- In a graph that compiles, the inbound sources of a target that is not the terminal are the nodes
  -- with an edge to it.
  pub inbound-compile :
      (target s : String)
      → target ≢ terminal
      → contains (get_list g.inbound_sources target) s ≡ any (joins s target) spec.graph.edges
  unfolding get
  inbound-compile target s ordinary =
      let p = compile_workflow-Parts spec g compiled in
      ground (
        arith,
        p,
        add_edges_inbound g.nodes_by_id s target no_edges p.tables spec.graph.edges ordinary
            p.filed,
      )

  -- In a graph that compiles, the entry is a node, every edge leaves a node and leads to nodes or
  -- to the terminal, no node has two default edges, every node's agent exists and is granted no
  -- toolkit beyond its own, and the judge of the definition of done is an agent.
  pub compile_workflow_sound :
      (has_key g.nodes_by_id spec.graph.entry ≡ true)
      × All (KnownEnds g.nodes_by_id) spec.graph.edges
      × ((s : String) → length (keep (is_catch_all s) spec.graph.edges) ≤ 1)
      × (all (check_node g.agents_by_id g.toolkits_by_id) spec.graph.nodes ≡ true)
      × (all (check_refs (keys g.toolkits_by_id) (keys g.skills_by_id)) spec.agents ≡ true)
      × (check_judge g.agents_by_id spec.definition_of_done ≡ true)
  unfolding get
  compile_workflow_sound =
      let p = compile_workflow-Parts spec g compiled in
      (
        p.entry,
        add_edges_known g.nodes_by_id no_edges p.tables spec.graph.edges p.filed,
        λ s. ground (
          arith,
          add_edges_one_default g.nodes_by_id s no_edges p.tables spec.graph.edges p.filed,
        ),
        p.nodes_checked,
        p.agents_checked,
        p.judge_checked,
      )
