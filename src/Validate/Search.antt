-- ===== src/Validate/Search.antt =====
-- `_reachable`: the depth-first search from the entry.
pub mod Reach
pub mod Fuel
use ravana.Prelude.{
  ℕ, zero, suc, ◌+◌, String, Bool, not, ◌||◌, Option, none, some, List, [], ◌∷◌, ◌++◌, keep,
  contains, length, str_eq, if◌then◌else◌,
}
use ravana.Dict.{keys}
use ravana.Schema.{GraphEdge, terminal}
use ravana.Graph.{CompiledGraph, entry, outgoing}

-- the targets of an edge that are not the terminal
abbrev pub edge_targets : GraphEdge → List String
edge_targets edge = keep (λ t. not (str_eq t terminal)) edge.to

abbrev pub targets_of_edges : List GraphEdge → List String
targets_of_edges [] = []
targets_of_edges (edge ∷ edges) = edge_targets edge ++ targets_of_edges edges

abbrev pub default_targets : Option GraphEdge → List String
default_targets none = []
default_targets (some edge) = edge_targets edge

unfoldable pub targets : CompiledGraph → String → List String
targets g node_id =
    targets_of_edges (outgoing g node_id).0 ++ default_targets (outgoing g node_id).1

-- stack.extend(…); the top of the stack is the head of the list
unfoldable pub push_all : List String → List String → List String
push_all [] stack = stack
push_all (t ∷ ts) stack = push_all ts (t ∷ stack)

abbrev pub is_skipped : List String → String → Bool
is_skipped seen node_id = contains seen node_id || str_eq node_id terminal

-- The loop of `_reachable` on fuel; `none` means that the fuel ran out.
unfoldable pub visit : CompiledGraph → ℕ → List String → List String → Option (List String)
visit g fuel [] seen = some seen
visit g zero (node_id ∷ stack) seen = none
visit g (suc fuel) (node_id ∷ stack) seen =
    let skip = is_skipped seen node_id in
    visit g fuel (if skip then stack else push_all (targets g node_id) stack)
      (if skip then seen else node_id ∷ seen)

-- Every node that edges leave, as the two tables of the graph have them.
abbrev pub edge_sources : CompiledGraph → List String
edge_sources g = keys g.conditional_edges_by_source ++ keys g.default_edge_by_source

abbrev pub degrees : CompiledGraph → List String → ℕ
degrees g [] = 0
degrees g (node_id ∷ nodes) = length (targets g node_id) + degrees g nodes

unfoldable pub reachable : CompiledGraph → Option (List String)
reachable g = visit g (1 + degrees g (edge_sources g)) (entry g ∷ []) []
