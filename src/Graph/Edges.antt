-- ===== src/Graph/Edges.antt =====
-- The loop of `compile_workflow` over `spec.graph.edges`, and the sort by priority.
use ravana.Prelude.{
  String, Bool, ◌||◌, not, List, [], ◌∷◌, ◌++◌, contains, str_eq, or_else, if◌then◌else◌,
}
use ravana.Prelude.Int.{leb_ℤ}
use ravana.Exception.{Result, ok, compile_error, guard, ◌>>=◌, ◌>>◌}
use ravana.Dict.{Dict, get, put, has_key}
use ravana.Schema.{GraphNode, GraphEdge, terminal}

abbrev pub get_list {ℓ} : {A : Type ℓ} → Dict (List A) → String → List A
get_list d k = or_else (get d k) []

-- d.setdefault(k, []).append(x)
abbrev pub push {ℓ} : {A : Type ℓ} → Dict (List A) → String → A → Dict (List A)
push d k x = put d k (get_list d k ++ x ∷ [])

-- s.add(x)
abbrev pub add_to_set : List String → String → List String
add_to_set xs x = if contains xs x then xs else xs ++ x ∷ []

-- d.setdefault(k, set()).add(x)
abbrev pub push_set : Dict (List String) → String → String → Dict (List String)
push_set d k x = put d k (add_to_set (get_list d k) x)

-- the three dictionaries that the loop fills
pub record EdgeTables : Type 0 where
  pub conditional : Dict (List GraphEdge)
  pub default : Dict GraphEdge
  pub inbound : Dict (List String)

abbrev pub no_edges : EdgeTables
no_edges = record { conditional = []; default = []; inbound = [] }

module _ (nodes_by_id : Dict GraphNode) where
  abbrev pub is_target : String → Bool
  is_target target = str_eq target terminal || has_key nodes_by_id target

  -- the inner loop over `edge.to`
  unfoldable pub add_targets :
      String → Dict (List String) → List String → Result (Dict (List String))
  unfolding get put
  add_targets source inbound [] = ok inbound
  add_targets source inbound (target ∷ targets) = do
    guard (is_target target) compile_error
    add_targets source (if str_eq target terminal then inbound else push_set inbound target source)
        targets

  abbrev pub file_edge : EdgeTables → GraphEdge → Dict (List String) → Result EdgeTables
  file_edge t edge inbound =
      if edge.is_default
      then (do
        guard (not (has_key t.default edge.source)) compile_error
        ok (record t { default = put t.default edge.source edge; inbound = inbound }))
      else ok (record t { conditional = push t.conditional edge.source edge; inbound = inbound })

  unfoldable pub add_edge : EdgeTables → GraphEdge → Result EdgeTables
  unfolding get put add_targets
  add_edge t edge = do
    guard (has_key nodes_by_id edge.source) compile_error
    inbound ← add_targets edge.source t.inbound edge.to
    file_edge t edge inbound

  unfoldable pub add_edges : EdgeTables → List GraphEdge → Result EdgeTables
  unfolding add_edge
  add_edges t [] = ok t
  add_edges t (edge ∷ edges) = do t' ← add_edge t edge; add_edges t' edges

-- edges.sort(key=lambda e: e.priority, reverse=True), which keeps equal priorities in order
unfoldable pub insert_by_priority : GraphEdge → List GraphEdge → List GraphEdge
insert_by_priority e [] = e ∷ []
insert_by_priority e (x ∷ xs) =
    if leb_ℤ x.priority e.priority then e ∷ x ∷ xs else x ∷ insert_by_priority e xs

unfoldable pub sort_by_priority : List GraphEdge → List GraphEdge
unfolding insert_by_priority
sort_by_priority [] = []
sort_by_priority (e ∷ es) = insert_by_priority e (sort_by_priority es)

-- for edges in conditional_edges_by_source.values(): edges.sort(…)
unfoldable pub sort_values : Dict (List GraphEdge) → Dict (List GraphEdge)
unfolding sort_by_priority
sort_values [] = []
sort_values ((k, edges) ∷ d) = (k, sort_by_priority edges) ∷ sort_values d
