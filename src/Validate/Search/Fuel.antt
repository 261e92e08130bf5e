-- ===== src/Validate/Search/Fuel.antt =====
-- How many rounds the search of `_reachable` takes.
use ravana.Prelude.{
  ℕ, zero, suc, ◌+◌, ◌≤◌, String, ◌≡◌, refl, sym, ap, ◌∙◌, subst, true, false, ◌↔◌, inl, inr, some,
  List, [], ◌∷◌, contains, length, str_eq, str_eq→eq, str_eq_refl, eq_iff, Bool-cases, arith,
  if◌then◌else◌,
}
use ravana.Dict.{keys, get-eq-none}
use ravana.Schema.{terminal}
use ravana.Graph.{CompiledGraph, entry, outgoing}
use ravana.Validate.Search.{targets, push_all, is_skipped, visit, edge_sources, degrees, reachable}
use ravana.Validate.Search.Reach.{
  IsReachable, contains-append, length-push_all, or_false, visit_skip, visit_push, IsSearched,
  visit-IsSearched, searched_complete, at_entry,
}

module _ (g : CompiledGraph) where
  -- the targets of the nodes that are not seen
  unseen : List String → List String → ℕ
  unseen seen [] = 0
  unseen seen (m ∷ nodes) =
      let rest = unseen seen nodes in if contains seen m then rest else length (targets g m) + rest

  unseen_none : (nodes : List String) → unseen [] nodes ≡ degrees g nodes
  unfolding unseen
  unseen_none [] = refl
  unseen_none (m ∷ nodes) = ap (λ n. length (targets g m) + n) (unseen_none nodes)

  unseen_le : (n : String) (seen nodes : List String) → unseen (n ∷ seen) nodes ≤ unseen seen nodes
  unfolding unseen
  unseen_le n seen [] = omega arith
  unseen_le n seen (m ∷ nodes) = ground (arith, unseen_le n seen nodes)

  unseen_visit :
      (n : String) (seen nodes : List String)
      → contains seen n ≡ false
      → contains nodes n ≡ true
      → length (targets g n) + unseen (n ∷ seen) nodes ≤ unseen seen nodes
  unfolding unseen
  unseen_visit n seen [] fresh h = cc
  unseen_visit n seen (m ∷ nodes) fresh h = elim (Bool-cases (str_eq m n)) [
    | inl same ↦
        let e = str_eq→eq m n same in
        let fresh_m = subst (λ x. contains seen x ≡ false) (sym e) fresh in
        let same_m = subst (λ x. str_eq x m ≡ true) e (str_eq_refl m) in
        rw (fresh_m, same_m)
          (omega (arith, unseen_le n seen nodes, ap (λ x. length (targets g x)) e))
    | inr other ↦ ground (arith, h, other, eq_iff m n, eq_iff n m, unseen_visit n seen nodes fresh)
  ]

  no_targets : (n : String) → contains (edge_sources g) n ≡ false → targets g n ≡ []
  unfolding targets outgoing
  no_targets n h =
      let both = or_false _ _ (
        sym (contains-append (keys g.conditional_edges_by_source) (keys g.default_edge_by_source) n)
        ∙ h) in
      rw
        (
          get-eq-none g.conditional_edges_by_source n both.0,
          get-eq-none g.default_edge_by_source n both.1,
        )
        refl

  push_le :
      (n : String) (stack seen : List String) (fuel : ℕ)
      → is_skipped seen n ≡ false
      → suc (length stack) + unseen seen (edge_sources g) ≤ suc fuel
      → length (push_all (targets g n) stack) + unseen (n ∷ seen) (edge_sources g) ≤ fuel
  push_le n stack seen fuel fresh enough =
      let new : contains seen n ≡ false = (or_false _ _ fresh).0 in
      let pushed = length-push_all (targets g n) stack in
      elim (Bool-cases (contains (edge_sources g) n)) [
        | inl source ↦
            omega (arith, pushed, unseen_visit n seen (edge_sources g) new source, enough)
        | inr none_left ↦ omega (
          arith,
          pushed,
          ap length (no_targets n none_left),
          unseen_le n seen (edge_sources g),
          enough,
        )
      ]

  visit_ends :
      (fuel : ℕ) (stack seen : List String)
      → length stack + unseen seen (edge_sources g) ≤ fuel
      → (out : List String) × (visit g fuel stack seen ≡ some out)
  unfolding visit
  visit_ends fuel [] seen enough = (seen, refl)
  visit_ends zero (n ∷ stack) seen enough = absurd (omega arith)
  visit_ends (suc fuel) (n ∷ stack) seen enough = elim (Bool-cases (is_skipped seen n)) [
    | inl skip ↦
        let (out, h) = visit_ends fuel stack seen (omega arith) in
        (out, visit_skip g fuel n stack seen skip ∙ h)
    | inr fresh ↦
        let (out, h) =
          visit_ends fuel (push_all (targets g n) stack) (n ∷ seen)
            (push_le n stack seen fuel fresh enough) in
        (out, visit_push g fuel n stack seen fresh ∙ h)
  ]

  start-IsSearched : IsSearched g (entry g ∷ []) []
  start-IsSearched = record {
    closed = λ a b ha hb. cc;
    start = λ inside. inr (ground (arith, str_eq_refl (entry g)));
    seen_sound = λ a ha. cc;
    stack_sound = λ a ha inside. at_start a ha inside;
  }
    where
      at_start :
          (a : String)
          → contains (entry g ∷ []) a ≡ true
          → str_eq a terminal ≡ false
          → IsReachable g a
      at_start a ha inside =
          let e = str_eq→eq (entry g) a (ground (arith, ha)) in
          subst (IsReachable g) e (at_entry (subst (λ x. str_eq x terminal ≡ false) (sym e) inside))

  -- The search of `_reachable` ends, and what it has seen then are exactly the nodes that edges
  -- lead to from the entry, the terminal left out.
  pub reachable-IsReachable :
      (out : List String) × (reachable g ≡ some out)
      × ((a : String) → (contains out a ≡ true) ↔ IsReachable g a)
  unfolding reachable
  reachable-IsReachable =
      let (out, h) =
        visit_ends (1 + degrees g (edge_sources g)) (entry g ∷ []) []
          (omega (arith, unseen_none (edge_sources g))) in
      let k = visit-IsSearched g _ (entry g ∷ []) [] out h start-IsSearched in
      (out, h, λ a. (k.seen_sound a, searched_complete g out a k))
