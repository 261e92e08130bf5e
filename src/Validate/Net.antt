-- ===== src/Validate/Net.antt =====
-- What the absence of safety-net warnings says of a node.
use ravana.Prelude.{
  String, ◌≡◌, ◌≢◌, refl, ◌∙◌, ap, subst, subst₂, Bool, true, false, ◌⊎◌, inl, inr, Option, none,
  some, Option-cases, List, [], ◌∷◌, ◌++◌, any, str_eq, str_eq→eq, Bool-cases, if◌then◌else◌,
}
use ravana.Exception.{Result, ok, >>=-eq-ok}
use ravana.Dict.{Dict, get}
use ravana.Schema.{GraphNode, GraphEdge, HitlConfig}
use ravana.Graph.{CompiledGraph, NodeExecutionContract, outgoing, contract_for_node}
use ravana.Validate.{
  Issue, is_unconditional, is_enabled, human_catches, net_issue, safety_net_of, missing_safety_net,
}

append-nil {ℓ} : {A : Type ℓ} (xs ys : List A) → xs ++ ys ≡ [] → (xs ≡ []) × (ys ≡ [])
append-nil [] ys h = (refl, h)
append-nil (x ∷ xs) ys h = cc

module _ (g : CompiledGraph) where
  -- One of the edges has no condition.
  abbrev pub SomeAlways : List GraphEdge → Type 0
  SomeAlways [] = false ≡ true
  SomeAlways (edge ∷ edges) = (edge.condition ≡ none) ⊎ SomeAlways edges

  -- The node has an agent, and its contract has a human that is enabled.
  abbrev pub AsksHuman : String → Option String → Type 0
  AsksHuman node_id agent =
      (id : String) × (contract : NodeExecutionContract) × (hitl : HitlConfig) × (agent ≡ some id)
      × (id ≢ "")
      × (contract_for_node g node_id ≡ ok contract)
      × (contract.hitl ≡ some hitl)
      × (hitl.enabled ≡ true)

  SomeAlways-any : (edges : List GraphEdge) → any is_unconditional edges ≡ true → SomeAlways edges
  SomeAlways-any [] h = h
  SomeAlways-any (edge ∷ edges) h = elim (Option-cases edge.condition) [
    | inl absent ↦ inl absent
    | inr (text, present) ↦ inr (SomeAlways-any edges (rw present at h))
  ]

  AsksHuman-contract :
      (node_id id : String) (hitl : Option HitlConfig) (contract : NodeExecutionContract)
      → id ≢ ""
      → contract_for_node g node_id ≡ ok contract
      → contract.hitl ≡ hitl
      → is_enabled hitl ≡ true
      → AsksHuman node_id (some id)
  AsksHuman-contract node_id id none contract named found has h = cc
  AsksHuman-contract node_id id (some hitl) contract named found has h =
      (id, contract, hitl, refl, named, found, has, h)

  AsksHuman-human_catches :
      (node_id : String) (agent : Option String)
      → human_catches g node_id agent ≡ ok true
      → AsksHuman node_id agent
  AsksHuman-human_catches node_id none h = cc
  AsksHuman-human_catches node_id (some String.[]) h = cc
  AsksHuman-human_catches node_id (some (String.◌∷◌ ch s)) h =
      let (contract, found, enabled) = >>=-eq-ok (contract_for_node g node_id) _ h in
      AsksHuman-contract node_id (String.◌∷◌ ch s) contract.hitl contract (λ e. cc) found refl cc

  -- A node whose edges are all conditional has an edge without a condition or a human to ask.
  abbrev pub IsCovered : String → GraphNode → List GraphEdge × Option GraphEdge → Type 0
  IsCovered node_id n ([], default) = Unit
  IsCovered node_id n (edges, some default) = Unit
  IsCovered node_id n (edge ∷ edges, none) = SomeAlways (edge ∷ edges) ⊎ AsksHuman node_id n.agent

  silent :
      (caught : Bool) (issues : List Issue)
      → issues ≢ []
      → ◌≡◌ {A = Result (List Issue)} (ok (if caught then [] else issues)) (ok [])
      → caught ≡ true
  silent true issues some_issue h = refl
  silent false issues some_issue h = absurd (some_issue cc)

  net_issue-IsCovered :
      (node_id : String) (n : GraphNode) (out : List GraphEdge × Option GraphEdge)
      → net_issue g node_id n out ≡ ok []
      → IsCovered node_id n out
  net_issue-IsCovered node_id n ([], none) h = tt
  net_issue-IsCovered node_id n ([], some default) h = tt
  net_issue-IsCovered node_id n (edge ∷ edges, some default) h = tt
  net_issue-IsCovered node_id n (edge ∷ edges, none) h =
      elim (Bool-cases (any is_unconditional (edge ∷ edges))) [
        | inl yes_ ↦ inl (SomeAlways-any (edge ∷ edges) yes_)
        | inr no_ ↦
            let (caught, asked, result) =
              >>=-eq-ok (human_catches g node_id n.agent) _ (rw no_ at h) in
            inr (
              AsksHuman-human_catches node_id n.agent (
                subst (λ b. human_catches g node_id n.agent ≡ ok b)
                  (silent caught _ (λ none_left. cc) result) asked))
      ]

  safety_net_of-IsCovered :
      (nodes : Dict GraphNode) (node_id : String) (n : GraphNode)
      → safety_net_of g nodes ≡ ok []
      → get nodes node_id ≡ some n
      → IsCovered node_id n (outgoing g node_id)
  unfolding safety_net_of get
  safety_net_of-IsCovered [] node_id n h found = cc
  safety_net_of-IsCovered ((id, m) ∷ nodes) node_id n h found =
      let (issues, here, rest) = >>=-eq-ok (net_issue g id m (outgoing g id)) _ h in
      let (more, there, all_) = >>=-eq-ok (safety_net_of g nodes) _ rest in
      let both : (issues ≡ []) × (more ≡ []) = append-nil issues more cc in
      elim (Bool-cases (str_eq id node_id)) [
        | inl same ↦
            let e : m ≡ n = cc in
            let covered = net_issue-IsCovered id m (outgoing g id) (here ∙ ap ok both.0) in
            subst₂ (λ x y. IsCovered x y (outgoing g x)) (str_eq→eq id node_id same) e covered
        | inr other ↦
            safety_net_of-IsCovered nodes node_id n (there ∙ ap ok both.1) (rw other at found)
      ]

  -- If `_missing_safety_net` reports nothing, every node that has edges and no default edge has an
  -- edge whose condition is missing, or it has an agent with a name and a contract with a human
  -- check that is enabled.
  pub missing_safety_net-IsCovered :
      (node_id : String) (n : GraphNode)
      → missing_safety_net g ≡ ok []
      → get g.nodes_by_id node_id ≡ some n
      → IsCovered node_id n (outgoing g node_id)
  unfolding missing_safety_net
  missing_safety_net-IsCovered node_id n h found =
      safety_net_of-IsCovered g.nodes_by_id node_id n h found
