-- ===== src/Graph/Outgoing.antt =====
-- What the compiled tables hold, by the edges of the document.
use mathlib.Core.List.{append-nil, append_assoc}
use ravana.Prelude.{
  String, ◌≡◌, ◌≢◌, refl, ◌∙◌, ap, Bool, true, ◌&&◌, ◌||◌, not, Option, none, some, List, [], ◌∷◌,
  ◌++◌, keep, find, any, all, All, length, ◌+◌, ◌≤◌, contains, str_eq, str_eq→eq, eq_iff, arith,
  Bool-cases, inl, inr, if◌then◌else◌,
}
use ravana.Exception.{ok, compile_error, guard, ◌>>=◌, >>=-eq-ok}
use ravana.Dict.{Dict, get, has_key, get-put}
use ravana.Schema.{GraphNode, GraphEdge, terminal}
use ravana.Graph.Edges.{
  get_list, push, push_set, add_to_set, EdgeTables, is_target, add_targets, add_edge, file_edge,
  add_edges,
}

abbrev pub leaves : String → GraphEdge → Bool
leaves s e = str_eq e.source s && not e.is_default

abbrev pub is_catch_all : String → GraphEdge → Bool
is_catch_all s e = str_eq e.source s && e.is_default

abbrev pub joins : String → String → GraphEdge → Bool
joins s target e = str_eq e.source s && contains e.to target

get_list-push {ℓ} :
    {A : Type ℓ} (d : Dict (List A)) (k s : String) (x : A)
    → get_list (push d k x) s ≡ get_list d s ++ (if str_eq k s then x ∷ [] else [])
get_list-push d k s x = elim (Bool-cases (str_eq k s)) [
  | inl same ↦ rw (get-put, same, str_eq→eq k s same)
  | inr other ↦ rw (get-put, other, append-nil)
]

contains-append :
    (xs ys : List String) (s : String) → contains (xs ++ ys) s ≡ (contains xs s || contains ys s)
contains-append [] ys s = refl
contains-append (x ∷ xs) ys s = ground (arith, contains-append xs ys s)

contains-add_to_set :
    (xs : List String) (x s : String) → contains (add_to_set xs x) s ≡ (contains xs s || str_eq x s)
contains-add_to_set xs x s = ground (arith, contains-append xs (x ∷ []) s, eq_iff x s)

keep-cons {ℓ} :
    {A : Type ℓ} (p : A → Bool) (x : A) (xs : List A)
    → keep p (x ∷ []) ++ keep p xs ≡ keep p (x ∷ xs)
keep-cons p x xs = ground arith

abbrev pub first_of_two {ℓ} : {A : Type ℓ} → Option A → Option A → Option A
first_of_two none b = b
first_of_two (some a) b = some a

module _ (nodes : Dict GraphNode) (t t' : EdgeTables) (e : GraphEdge) where
  module _ (inbound : Dict (List String)) (h : file_edge nodes t e inbound ≡ ok t')
      (s : String) where
    file_edge_conditional :
        get_list t'.conditional s ≡ get_list t.conditional s ++ keep (leaves s) (e ∷ [])
    file_edge_conditional =
        ground
          (arith, get_list-push t.conditional e.source s e, append-nil (get_list t.conditional s))

    file_edge_default :
        get t'.default s ≡ first_of_two (get t.default s) (find (is_catch_all s) (e ∷ []))
    file_edge_default = ground (arith, get-put t.default e.source s e, eq_iff e.source s)

    file_edge_inbound : t'.inbound ≡ inbound
    file_edge_inbound = ground arith

module _ (nodes : Dict GraphNode) (source : String) where
  add_targets_known :
      (inbound out : Dict (List String)) (targets : List String)
      → add_targets nodes source inbound targets ≡ ok out
      → all (is_target nodes) targets ≡ true
  unfolding add_targets
  add_targets_known inbound out [] h = refl
  add_targets_known inbound out (target ∷ targets) h =
      let next = if str_eq target terminal then inbound else push_set inbound target source in
      let (u, known, rest) =
        >>=-eq-ok (guard (is_target nodes target) compile_error)
          (λ _. add_targets nodes source next targets) h in
      ground (arith, known, add_targets_known next out targets rest)

  module _ (t s : String) (ordinary : t ≢ terminal) where
    push_set_inbound :
        (inbound : Dict (List String)) (target : String)
        → contains
            (get_list
              (if str_eq target terminal then inbound else push_set inbound target source)
              t)
            s
          ≡ (contains (get_list inbound t) s || (str_eq source s && str_eq target t))
    push_set_inbound inbound target = ground (
      arith,
      get-put inbound target t (add_to_set (get_list inbound target) source),
      contains-add_to_set (get_list inbound target) source s,
      eq_iff target terminal,
      eq_iff target t,
    )

    add_targets_inbound :
        (inbound out : Dict (List String)) (targets : List String)
        → add_targets nodes source inbound targets ≡ ok out
        → contains (get_list out t) s
          ≡ (contains (get_list inbound t) s || (str_eq source s && contains targets t))
    unfolding add_targets
    add_targets_inbound inbound out [] h = ground arith
    add_targets_inbound inbound out (target ∷ targets) h =
        let next = if str_eq target terminal then inbound else push_set inbound target source in
        let (u, known, rest) =
          >>=-eq-ok (guard (is_target nodes target) compile_error)
            (λ _. add_targets nodes source next targets) h in
        ground (arith, add_targets_inbound next out targets rest, push_set_inbound inbound target)

-- The edges of a list that a compilation accepts: known ends.
abbrev pub KnownEnds : Dict GraphNode → GraphEdge → Type 0
KnownEnds nodes e = (has_key nodes e.source ≡ true) × (all (is_target nodes) e.to ≡ true)

module _ (nodes : Dict GraphNode) where
  add_edge_inv :
      (t t' : EdgeTables) (e : GraphEdge)
      → add_edge nodes t e ≡ ok t'
      → (inbound : Dict (List String)) × (has_key nodes e.source ≡ true)
        × (add_targets nodes e.source t.inbound e.to ≡ ok inbound)
        × (file_edge nodes t e inbound ≡ ok t')
  unfolding add_edge
  add_edge_inv t t' e h =
      let (u, known, more) =
        >>=-eq-ok (guard (has_key nodes e.source) compile_error)
          (λ _.
            add_targets nodes e.source t.inbound e.to >>= λ inbound. file_edge nodes t e inbound)
          h in
      let (inbound, added, filed) =
        >>=-eq-ok (add_targets nodes e.source t.inbound e.to)
          (λ inbound. file_edge nodes t e inbound) more in
      (inbound, ground arith, added, filed)

  pub add_edges_known :
      (t out : EdgeTables) (edges : List GraphEdge)
      → add_edges nodes t edges ≡ ok out
      → All (KnownEnds nodes) edges
  unfolding add_edges
  add_edges_known t out [] h = tt
  add_edges_known t out (e ∷ edges) h =
      let (t', added, rest) = >>=-eq-ok (add_edge nodes t e) (λ t'. add_edges nodes t' edges) h in
      let (inbound, known, targets, _) = add_edge_inv t t' e added in
      (
        (known, add_targets_known nodes e.source t.inbound inbound e.to targets),
        add_edges_known t' out edges rest,
      )

  module _ (s : String) where
    pub add_edges_conditional :
        (t out : EdgeTables) (edges : List GraphEdge)
        → add_edges nodes t edges ≡ ok out
        → get_list out.conditional s ≡ get_list t.conditional s ++ keep (leaves s) edges
    unfolding add_edges
    add_edges_conditional t out [] h = rw append-nil (cc)
    add_edges_conditional t out (e ∷ edges) h =
        let (t', added, rest) = >>=-eq-ok (add_edge nodes t e) (λ t'. add_edges nodes t' edges) h in
        let (inbound, _, _, filed) = add_edge_inv t t' e added in
        add_edges_conditional t' out edges rest
        ∙ rw (file_edge_conditional nodes t t' e inbound filed s) rw append_assoc
            (ap (λ es. get_list t.conditional s ++ es) (keep-cons (leaves s) e edges))

    pub add_edges_default :
        (t out : EdgeTables) (edges : List GraphEdge)
        → add_edges nodes t edges ≡ ok out
        → get out.default s ≡ first_of_two (get t.default s) (find (is_catch_all s) edges)
    unfolding add_edges
    add_edges_default t out [] h = ground arith
    add_edges_default t out (e ∷ edges) h =
        let (t', added, rest) = >>=-eq-ok (add_edge nodes t e) (λ t'. add_edges nodes t' edges) h in
        let (inbound, _, _, filed) = add_edge_inv t t' e added in
        ground (
          arith,
          add_edges_default t' out edges rest,
          file_edge_default nodes t t' e inbound filed s,
        )

    -- `more than one is_default edge` is refused
    pub add_edges_one_default :
        (t out : EdgeTables) (edges : List GraphEdge)
        → add_edges nodes t edges ≡ ok out
        → length (keep (is_catch_all s) edges) + (if has_key t.default s then 1 else 0) ≤ 1
    unfolding add_edges
    add_edges_one_default t out [] h = ground arith
    add_edges_one_default t out (e ∷ edges) h =
        let (t', added, rest) = >>=-eq-ok (add_edge nodes t e) (λ t'. add_edges nodes t' edges) h in
        let (inbound, _, _, filed) = add_edge_inv t t' e added in
        ground (
          arith,
          add_edges_one_default t' out edges rest,
          get-put t.default e.source s e,
          eq_iff e.source s,
        )

    pub add_edges_inbound :
        (target : String) (t out : EdgeTables) (edges : List GraphEdge)
        → target ≢ terminal
        → add_edges nodes t edges ≡ ok out
        → contains (get_list out.inbound target) s
          ≡ (contains (get_list t.inbound target) s || any (joins s target) edges)
    unfolding add_edges
    add_edges_inbound target t out [] ordinary h = ground arith
    add_edges_inbound target t out (e ∷ edges) ordinary h =
        let (t', added, rest) = >>=-eq-ok (add_edge nodes t e) (λ t'. add_edges nodes t' edges) h in
        let (inbound, _, targets, filed) = add_edge_inv t t' e added in
        ground (
          arith,
          add_edges_inbound target t' out edges ordinary rest,
          file_edge_inbound nodes t t' e inbound filed s,
          add_targets_inbound nodes e.source target s ordinary t.inbound inbound e.to targets,
        )
