-- ===== src/Graph/Compile.antt =====
-- `compile_workflow`: the checks in the source's order, each of which raises `CompileError`.
use ravana.Prelude.{
  String, Bool, true, false, ◌&&◌, not, Option, none, some, List, [], ◌∷◌, length, all, subset,
  ◌==◌, is_some,
}
use ravana.Exception.{Result, ok, compile_error, guard, ◌>>=◌, ◌>>◌}
use ravana.Dict.{Dict, get, put, has_key, keys}
use ravana.Schema.{
  GraphNode, AgentConfig, ToolkitConfig, ToolkitType, mcp_server, DefinitionOfDone, WorkflowSpec,
}
use ravana.Graph.{CompiledGraph}
use ravana.Graph.Edges.{add_edges, no_edges, sort_values}

-- {x.id: x for x in xs}
unfoldable pub by_id {ℓ} : {A : Type ℓ} → (A → String) → Dict A → List A → Dict A
unfolding put
by_id id d [] = d
by_id id d (x ∷ xs) = by_id id (put d (id x) x) xs

-- `len(d) != len(xs)` after the comprehension
abbrev pub unique_ids {ℓ} : {A : Type ℓ} → (A → String) → List A → Result (Dict A)
unique_ids id xs = do let d = by_id id [] xs; guard (length d == length xs) compile_error; ok d

abbrev is_mcp : ToolkitType → Bool
is_mcp mcp_server = true
is_mcp _ = false

abbrev pub described_mcp : ToolkitConfig → Bool
described_mcp t = is_mcp t.type && is_some t.description

-- the checks of one node against its agent; the sorted name lists only go into the message
unfoldable pub check_grant : Dict ToolkitConfig → Option (List String) → AgentConfig → Bool
unfolding get
check_grant toolkits none agent = true
check_grant toolkits (some granted) agent =
    subset granted agent.toolkits && subset granted (keys toolkits)

abbrev check_agent : Dict AgentConfig → Dict ToolkitConfig → GraphNode → Option String → Bool
check_agent agents toolkits n none = true
check_agent agents toolkits n (some a) = elim (get agents a) [
  | none ↦ false
  | some agent ↦ check_grant toolkits n.toolkits agent
]

unfoldable pub check_node : Dict AgentConfig → Dict ToolkitConfig → GraphNode → Bool
unfolding check_grant
check_node agents toolkits n = check_agent agents toolkits n n.agent

abbrev pub check_refs : List String → List String → AgentConfig → Bool
check_refs toolkits skills agent = subset agent.toolkits toolkits && subset agent.skills skills

abbrev pub check_judge : Dict AgentConfig → Option DefinitionOfDone → Bool
check_judge agents none = true
check_judge agents (some dod) = has_key agents dod.evaluated_by

unfoldable pub compile_workflow : WorkflowSpec → Result CompiledGraph
compile_workflow spec = do
  nodes_by_id ← unique_ids (λ n. n.id) spec.graph.nodes
  agents_by_id ← unique_ids (λ a. a.id) spec.agents
  toolkits_by_id ← unique_ids (λ t. t.id) spec.toolkits
  skills_by_id ← unique_ids (λ s. s.id) spec.skills
  guard (all (λ t. not (described_mcp t)) spec.toolkits) compile_error
  guard (has_key nodes_by_id spec.graph.entry) compile_error
  tables ← add_edges nodes_by_id no_edges spec.graph.edges
  guard (all (check_node agents_by_id toolkits_by_id) spec.graph.nodes) compile_error
  guard (all (check_refs (keys toolkits_by_id) (keys skills_by_id)) spec.agents) compile_error
  guard (check_judge agents_by_id spec.definition_of_done) compile_error
  ok (record {
    spec = spec;
    nodes_by_id = nodes_by_id;
    agents_by_id = agents_by_id;
    toolkits_by_id = toolkits_by_id;
    skills_by_id = skills_by_id;
    conditional_edges_by_source = sort_values tables.conditional;
    default_edge_by_source = tables.default;
    inbound_sources = tables.inbound;
  })
