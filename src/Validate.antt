-- ===== src/Validate.antt =====
-- compiler/validate.py: the advisory checks on a compiled graph. An issue's text is kept by its kind.
pub mod Search
pub mod Net
use Prim.Native.Char.{code}
use ravana.Prelude.{
  ℕ, zero, suc, ◌+◌, String, Bool, true, false, not, ◌&&◌, ◌||◌, Option, none, some, List, [], ◌∷◌,
  ◌++◌, map, keep, any, contains, length, str_eq, ltb, ◌==◌, or_else, if◌then◌else◌,
}
use ravana.Exception.{Result, ok, raise, ◌>>=◌}
use ravana.Dict.{Dict, get, put, keys, values}
use ravana.Schema.{
  GraphNode, GraphEdge, HitlConfig, MergePolicy, overwrite, merge_object, append, terminal,
}
use ravana.Graph.{
  CompiledGraph, NodeExecutionContract, entry, join_all_nodes, outgoing, contract_for_node,
}
use Search.{edge_targets, reachable}
use ravana.Graph.Edges.{get_list, push}

pub data Severity : Type 0 where
  error warning : Severity

pub data Message : Type 0 where
  join_on_entry unreachable no_safety_net : String → Message
  join_with_sources : String → ℕ → Message
  broadcast_conflict : (source key : String) (writers : List String) → Message

pub record Issue : Type 0 where
  pub severity : Severity
  pub message : Message

abbrev warn : Message → Issue
warn m = record { severity = warning; message = m }

-- _join_sanity, one node of `join_all_nodes` at a time
abbrev entry_issue : CompiledGraph → String → List Issue
entry_issue g node_id = if str_eq node_id (entry g) then warn (join_on_entry node_id) ∷ [] else []

abbrev sources_issue : CompiledGraph → String → List Issue
sources_issue g node_id =
    let n = length (get_list g.inbound_sources node_id) in
    if ltb n 2 then warn (join_with_sources node_id n) ∷ [] else []

unfoldable pub join_sanity_of : CompiledGraph → List String → List Issue
join_sanity_of g [] = []
join_sanity_of g (node_id ∷ nodes) =
    entry_issue g node_id ++ sources_issue g node_id ++ join_sanity_of g nodes

unfoldable pub join_sanity : CompiledGraph → List Issue
join_sanity g = join_sanity_of g (join_all_nodes g)

-- sorted(…) on texts
abbrev leb_char : ℕ → ℕ → Bool → Bool
leb_char a b rest = if ltb a b then true else if a == b then rest else false

unfoldable pub leb_text : String → String → Bool
leb_text String.[] t = true
leb_text (String.◌∷◌ c s) String.[] = false
leb_text (String.◌∷◌ c s) (String.◌∷◌ d t) = leb_char (code c) (code d) (leb_text s t)

unfoldable pub insert_text : String → List String → List String
insert_text s [] = s ∷ []
insert_text s (t ∷ ts) =
    let rest = insert_text s ts in if leb_text s t then s ∷ t ∷ ts else t ∷ rest

unfoldable pub sorted : List String → List String
sorted [] = []
sorted (s ∷ ts) = insert_text s (sorted ts)

-- _unreachable_nodes, from the result of `_reachable`
unfoldable pub unreachable_nodes : CompiledGraph → List String → List Issue
unreachable_nodes g seen =
    map (λ n. warn (unreachable n))
      (sorted (keep (λ n. not (contains seen n)) (keys g.nodes_by_id)))

-- _missing_safety_net
abbrev pub is_unconditional : GraphEdge → Bool
is_unconditional e = elim e.condition [ none ↦ true | some text ↦ false ]

abbrev pub is_enabled : Option HitlConfig → Bool
is_enabled none = false
is_enabled (some hitl) = hitl.enabled

-- `if node.agent`: the empty text counts as no agent
abbrev pub human_catches : CompiledGraph → String → Option String → Result Bool
human_catches g node_id (some (String.◌∷◌ ch s)) = do
  contract ← contract_for_node g node_id
  ok (is_enabled contract.hitl)
human_catches g node_id _ = ok false

abbrev pub net_issue :
    CompiledGraph → String → GraphNode → List GraphEdge × Option GraphEdge → Result (List Issue)
net_issue g node_id n ([], none) = ok []
net_issue g node_id n (edges, some default) = ok []
net_issue g node_id n (edge ∷ edges, none) =
    if any is_unconditional (edge ∷ edges) then ok [] else (do
      caught ← human_catches g node_id n.agent
      ok (if caught then [] else warn (no_safety_net node_id) ∷ []))

unfoldable pub safety_net_of : CompiledGraph → Dict GraphNode → Result (List Issue)
safety_net_of g [] = ok []
safety_net_of g ((node_id, n) ∷ nodes) = do
  issues ← net_issue g node_id n (outgoing g node_id)
  more ← safety_net_of g nodes
  ok (issues ++ more)

unfoldable pub missing_safety_net : CompiledGraph → Result (List Issue)
missing_safety_net g = safety_net_of g g.nodes_by_id

-- _broadcast_merge_conflicts: `overwrite_keys` of one edge, a target at a time
abbrev is_overwritten : Option MergePolicy → Bool
is_overwritten (some overwrite) = true
is_overwritten _ = false

unfoldable pub add_writer :
    Dict MergePolicy → String → List String → Dict (List String) → Dict (List String)
add_writer fields target [] d = d
add_writer fields target (key ∷ properties) d =
    add_writer fields target properties
      (if is_overwritten (get fields key) then push d key target else d)

abbrev write_schema :
    Dict MergePolicy → String → Option (List String) → Dict (List String) → Dict (List String)
write_schema fields target none d = d
write_schema fields target (some properties) d = add_writer fields target properties d

abbrev write_target :
    CompiledGraph → String → Option GraphNode → Dict (List String) → Result (Dict (List String))
write_target g target none d = ok d
write_target g target (some n) d = elim n.agent [
  | none ↦ ok d
  | some a ↦ contract_for_node g target >>= λ contract.
      ok (write_schema g.spec.state.fields target contract.output_schema d)
]

unfoldable pub write_targets :
    CompiledGraph → List String → Dict (List String) → Result (Dict (List String))
write_targets g [] d = ok d
write_targets g (target ∷ targets) d = do
  d' ← write_target g target (get g.nodes_by_id target) d
  write_targets g targets d'

unfoldable pub conflicts : String → Dict (List String) → List Issue
conflicts source [] = []
conflicts source ((key, writers) ∷ d) =
    let rest = conflicts source d in
    if ltb 1 (length writers)
    then record { severity = error; message = broadcast_conflict source key writers } ∷ rest
    else rest

unfoldable pub edge_conflicts : CompiledGraph → GraphEdge → Result (List Issue)
edge_conflicts g edge =
    if ltb (length (edge_targets edge)) 2
    then ok []
    else (do d ← write_targets g (edge_targets edge) []; ok (conflicts edge.source d))

unfoldable pub conflicts_of : CompiledGraph → List GraphEdge → Result (List Issue)
conflicts_of g [] = ok []
conflicts_of g (edge ∷ edges) = do
  issues ← edge_conflicts g edge
  more ← conflicts_of g edges
  ok (issues ++ more)

abbrev flatten {ℓ} : {A : Type ℓ} → List (List A) → List A
flatten [] = []
flatten (xs ∷ xss) = xs ++ flatten xss

unfoldable pub broadcast_merge_conflicts : CompiledGraph → Result (List Issue)
broadcast_merge_conflicts g =
    conflicts_of g
      (flatten (values g.conditional_edges_by_source) ++ values g.default_edge_by_source)

-- validate, from the result of `_reachable`
abbrev validate_seen : CompiledGraph → List String → Result (List Issue)
validate_seen g seen = do
  nets ← missing_safety_net g
  broadcasts ← broadcast_merge_conflicts g
  ok (unreachable_nodes g seen ++ nets ++ broadcasts ++ join_sanity g)

abbrev validate_found : CompiledGraph → Option (List String) → Option (Result (List Issue))
validate_found g none = none
validate_found g (some seen) = some (validate_seen g seen)

-- `none` means that the search of `_reachable` ran out of fuel.
unfoldable pub validate : CompiledGraph → Option (Result (List Issue))
validate g = validate_found g (reachable g)
