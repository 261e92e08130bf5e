-- ===== src/Graph.antt =====
-- compiler/graph.py: the compiled form of a workflow document, and the checks that build it.
pub mod Edges
pub mod Compile
pub mod Outgoing
pub mod Order
pub mod Sound
pub mod Contract
use ravana.Prelude.{
  String, Bool, true, false, ◌||◌, Option, none, some, List, [], ◌∷◌, keep, map, or_else,
}
use ravana.Exception.{Result, ok, raise, key_error, compile_error, ◌>>=◌}
use ravana.Dict.{Dict, get}
use ravana.Schema.{
  GraphNode, GraphEdge, AgentConfig, ToolkitConfig, SkillConfig, HitlConfig, Setting, omitted,
  explicit, Join, any, all, WorkflowSpec,
}

pub record NodeExecutionContract : Type 0 where
  pub toolkits : List String
  pub hitl : Option HitlConfig
  pub output_schema : Option (List String)

-- `spec` is `doc.spec`: the graph reads nothing else of the document.
pub record CompiledGraph : Type 0 where
  pub spec : WorkflowSpec
  pub nodes_by_id : Dict GraphNode
  pub agents_by_id : Dict AgentConfig
  pub toolkits_by_id : Dict ToolkitConfig
  pub skills_by_id : Dict SkillConfig
  pub conditional_edges_by_source : Dict (List GraphEdge)
  pub default_edge_by_source : Dict GraphEdge
  pub inbound_sources : Dict (List String)

abbrev pub entry : CompiledGraph → String
entry g = g.spec.graph.entry

abbrev is_join_all : GraphNode → Bool
is_join_all n = elim n.join [ any ↦ false | all ↦ true ]

abbrev found_or_raise {ℓ} : {V : Type ℓ} → Option V → Result V
found_or_raise none = raise key_error
found_or_raise (some v) = ok v

-- d[k]
abbrev pub index {ℓ} : {V : Type ℓ} → Dict V → String → Result V
index d k = found_or_raise (get d k)

unfoldable pub join_all_nodes : CompiledGraph → List String
join_all_nodes g = map (λ n. n.id) (keep is_join_all g.spec.graph.nodes)

unfoldable pub node : CompiledGraph → String → Result GraphNode
node g node_id = index g.nodes_by_id node_id

abbrev agent_named : CompiledGraph → Option String → Result AgentConfig
agent_named g none = raise compile_error
agent_named g (some a) = index g.agents_by_id a

unfoldable pub agent_for_node : CompiledGraph → String → Result AgentConfig
agent_for_node g node_id = do n ← node g node_id; agent_named g n.agent

abbrev pub override {ℓ} : {A : Type ℓ} → Setting A → Option A → Option A
override omitted inherited = inherited
override (explicit own) inherited = own

unfoldable pub contract_for_node : CompiledGraph → String → Result NodeExecutionContract
contract_for_node g node_id = do
  n ← node g node_id
  agent ← agent_for_node g node_id
  ok (record {
    toolkits = or_else n.toolkits agent.toolkits;
    hitl = override n.hitl agent.hitl;
    output_schema = override n.output_schema agent.output_schema;
  })

unfoldable pub outgoing : CompiledGraph → String → List GraphEdge × Option GraphEdge
outgoing g node_id =
    (or_else (get g.conditional_edges_by_source node_id) [], get g.default_edge_by_source node_id)

abbrev some_edge : List GraphEdge → Option GraphEdge → Bool
some_edge [] none = false
some_edge [] (some e) = true
some_edge (e ∷ es) default = true

unfoldable pub has_outgoing_edges : CompiledGraph → String → Bool
has_outgoing_edges g node_id = some_edge (outgoing g node_id).0 (outgoing g node_id).1
