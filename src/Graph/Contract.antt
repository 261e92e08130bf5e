-- ===== src/Graph/Contract.antt =====
-- The execution contract of a node in a graph that compiles.
use ravana.Prelude.{
  String, ◌≡◌, refl, Bool, true, Option, none, some, List, [], ◌∷◌, all, subset, str_eq_refl, arith,
  or_else, Option-cases, inl, inr,
}
use ravana.Exception.{ok}
use ravana.Dict.{Dict, get, put, get-put}
use ravana.Schema.{GraphNode, AgentConfig, WorkflowSpec}
use ravana.Graph.{
  CompiledGraph, NodeExecutionContract, node, agent_for_node, contract_for_node, override,
}
use ravana.Graph.Compile.{by_id, check_node, check_grant, compile_workflow}
use ravana.Graph.Sound.{compile_workflow-Parts}

-- Every entry of a dictionary satisfies a test.
abbrev Entries {ℓ} : {A : Type ℓ} → (A → Bool) → Dict A → Type ℓ
Entries p d = (k : String) (x : _) → get d k ≡ some x → p x ≡ true

by_id-Entries {ℓ} :
    {A : Type ℓ} (id : A → String) (p : A → Bool) (d : Dict A) (xs : List A)
    → all p xs ≡ true
    → Entries p d
    → Entries p (by_id id d xs)
unfolding by_id
by_id-Entries id p d [] h e k x found = e k x found
by_id-Entries id p d (y ∷ ys) h e k x found =
    by_id-Entries id p (put d (id y) y) ys (ground arith)
      (λ j z m. ground (arith, get-put d (id y) j y, e j z)) k x found

subset-cons : (x : String) (xs ys : List String) → subset xs ys ≡ true → subset xs (x ∷ ys) ≡ true
subset-cons x [] ys h = refl
subset-cons x (y ∷ xs) ys h = ground (arith, subset-cons x xs ys)

subset_refl : (xs : List String) → subset xs xs ≡ true
subset_refl [] = refl
subset_refl (x ∷ xs) = ground (arith, str_eq_refl x, subset-cons x xs xs (subset_refl xs))

module _ (spec : WorkflowSpec) (g : CompiledGraph) (compiled : compile_workflow spec ≡ ok g) where
  compiled_node :
      (id : String) (n : GraphNode)
      → get g.nodes_by_id id ≡ some n
      → check_node g.agents_by_id g.toolkits_by_id n ≡ true
  unfolding get
  compiled_node id n found =
      let p = compile_workflow-Parts spec g compiled in
      by_id-Entries (λ n. n.id) (check_node g.agents_by_id g.toolkits_by_id) [] spec.graph.nodes
        p.nodes_checked (λ k x e. cc) id n (ground (arith, p))

  -- What the check of a node says of its agent.
  agent_checked :
      (n : GraphNode) (a : String)
      → n.agent ≡ some a
      → check_node g.agents_by_id g.toolkits_by_id n ≡ true
      → (agent : AgentConfig) × (get g.agents_by_id a ≡ some agent)
        × (check_grant g.toolkits_by_id n.toolkits agent ≡ true)
  unfolding check_node
  agent_checked n a has h = elim (Option-cases (get g.agents_by_id a)) [
    | inl missing ↦ absurd (ground arith)
    | inr (agent, there) ↦ (agent, there, ground arith)
  ]

  granted-subset :
      (granted : Option (List String)) (agent : AgentConfig)
      → check_grant g.toolkits_by_id granted agent ≡ true
      → subset (or_else granted agent.toolkits) agent.toolkits ≡ true
  unfolding check_grant
  granted-subset none agent h = subset_refl agent.toolkits
  granted-subset (some own) agent h = ground arith

  -- In a graph that compiles, a node that has an agent has a contract, and the toolkits of the
  -- contract are among those of the agent.
  pub contract-subset :
      (id a : String) (n : GraphNode)
      → get g.nodes_by_id id ≡ some n
      → n.agent ≡ some a
      → (agent : AgentConfig) × (c : NodeExecutionContract) × (agent_for_node g id ≡ ok agent)
        × (contract_for_node g id ≡ ok c)
        × (subset c.toolkits agent.toolkits ≡ true)
  unfolding contract_for_node agent_for_node node
  contract-subset id a n found has =
      let (agent, there, grant) = agent_checked n a has (compiled_node id n found) in
      (
        agent,
        record {
          toolkits = or_else n.toolkits agent.toolkits;
          hitl = override n.hitl agent.hitl;
          output_schema = override n.output_schema agent.output_schema;
        },
        ground arith,
        ground arith,
        granted-subset n.toolkits agent grant,
      )
