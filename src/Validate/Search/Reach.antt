-- ===== src/Validate/Search/Reach.antt =====
-- `_reachable` and the paths of the graph.
use ravana.Prelude.{
  ℕ, zero, suc, ◌+◌, String, ◌≡◌, refl, sym, ap, ◌∙◌, subst, Bool, true, false, not, ◌||◌, ◌⊎◌, inl,
  inr, Option, none, some, List, [], ◌∷◌, ◌++◌, keep, contains, length, str_eq, str_eq→eq,
  str_eq_refl, Bool-cases, arith, if◌then◌else◌,
}
use ravana.Schema.{GraphEdge, terminal}
use ravana.Graph.{CompiledGraph, entry, outgoing}
use ravana.Validate.Search.{
  edge_targets, targets_of_edges, default_targets, targets, push_all, is_skipped, visit,
}

-- A node that a run can get to: the entry, and the targets of the edges of such a node.
pub data IsReachable (g : CompiledGraph) : String → Type 0 where
  at_entry : str_eq (entry g) terminal ≡ false → IsReachable g (entry g)
  by_edge : {a b : String} → IsReachable g a → contains (targets g a) b ≡ true → IsReachable g b

pub contains-append :
    (xs ys : List String) (b : String) → contains (xs ++ ys) b ≡ (contains xs b || contains ys b)
contains-append [] ys b = refl
contains-append (x ∷ xs) ys b = ground (arith, contains-append xs ys b)

contains-push_all :
    (ts stack : List String) (b : String)
    → contains (push_all ts stack) b ≡ (contains ts b || contains stack b)
unfolding push_all
contains-push_all [] stack b = refl
contains-push_all (t ∷ ts) stack b = ground (arith, contains-push_all ts (t ∷ stack) b)

pub length-push_all :
    (ts stack : List String) → length (push_all ts stack) ≡ length ts + length stack
unfolding push_all
length-push_all [] stack = omega arith
length-push_all (t ∷ ts) stack = omega (arith, length-push_all ts (t ∷ stack))

or_true : (a b : Bool) → (a || b) ≡ true → (a ≡ true) ⊎ (b ≡ true)
or_true true b h = inl refl
or_true false b h = inr h

pub or_false : (a b : Bool) → (a || b) ≡ false → (a ≡ false) × (b ≡ false)
or_false true b h = cc
or_false false b h = (refl, h)

kept_inside :
    (ts : List String) (b : String)
    → contains (keep (λ t. not (str_eq t terminal)) ts) b ≡ true
    → str_eq b terminal ≡ false
kept_inside [] b h = cc
kept_inside (t ∷ ts) b h = elim (Bool-cases (str_eq t terminal)) [
  | inl end ↦ kept_inside ts b (rw end at h)
  | inr inside ↦
      elim (or_true (str_eq t b) (contains (keep (λ x. not (str_eq x terminal)) ts) b)
        (rw inside at h)) [
          | inl here ↦ subst (λ x. str_eq x terminal ≡ false) (str_eq→eq t b here) inside
          | inr there ↦ kept_inside ts b there
        ]
]

edges_inside :
    (es : List GraphEdge) (b : String)
    → contains (targets_of_edges es) b ≡ true
    → str_eq b terminal ≡ false
edges_inside [] b h = cc
edges_inside (e ∷ es) b h =
    elim (or_true _ _ (sym (contains-append (edge_targets e) (targets_of_edges es) b) ∙ h)) [
      | inl here ↦ kept_inside e.to b here
      | inr there ↦ edges_inside es b there
    ]

default_inside :
    (e : Option GraphEdge) (b : String)
    → contains (default_targets e) b ≡ true
    → str_eq b terminal ≡ false
default_inside none b h = cc
default_inside (some e) b h = kept_inside e.to b h

targets_inside :
    (g : CompiledGraph) (a b : String) → contains (targets g a) b ≡ true → str_eq b terminal ≡ false
unfolding targets
targets_inside g a b h =
    let out = outgoing g a in
    elim (or_true _ _
      (sym (contains-append (targets_of_edges out.0) (default_targets out.1) b) ∙ h)) [
        | inl here ↦ edges_inside out.0 b here
        | inr there ↦ default_inside out.1 b there
      ]

module _ (g : CompiledGraph) where
  -- The state of the search: what it has seen is reachable, and closed but for the stack.
  pub record IsSearched (stack seen : List String) : Type 0 where
    pub closed :
        (a b : String)
        → contains seen a ≡ true
        → contains (targets g a) b ≡ true
        → (contains seen b ≡ true) ⊎ (contains stack b ≡ true)
    pub start :
        str_eq (entry g) terminal ≡ false
        → (contains seen (entry g) ≡ true) ⊎ (contains stack (entry g) ≡ true)
    pub seen_sound : (a : String) → contains seen a ≡ true → IsReachable g a
    pub stack_sound :
        (a : String) → contains stack a ≡ true → str_eq a terminal ≡ false → IsReachable g a

  -- a place on the stack after its top is dropped
  dropped :
      (n : String) (stack seen : List String) (b : String)
      → is_skipped seen n ≡ true
      → str_eq b terminal ≡ false
      → (contains seen b ≡ true) ⊎ (contains (n ∷ stack) b ≡ true)
      → (contains seen b ≡ true) ⊎ (contains stack b ≡ true)
  dropped n stack seen b skip inside (inl h) = inl h
  dropped n stack seen b skip inside (inr h) = elim (or_true (str_eq n b) (contains stack b) h) [
    | inl same ↦
        let e = str_eq→eq n b same in
        elim (or_true (contains seen n) (str_eq n terminal) skip) [
          | inl old ↦ inl (subst (λ x. contains seen x ≡ true) e old)
          | inr end ↦ cc
        ]
    | inr below ↦ inr below
  ]

  skip-IsSearched :
      (n : String) (stack seen : List String)
      → is_skipped seen n ≡ true
      → IsSearched (n ∷ stack) seen
      → IsSearched stack seen
  skip-IsSearched n stack seen skip h = record {
    closed =
        λ a b ha hb. dropped n stack seen b skip (targets_inside g a b hb) (h.closed a b ha hb);
    start = λ inside. dropped n stack seen (entry g) skip inside (h.start inside);
    seen_sound = h.seen_sound;
    stack_sound = λ a ha inside. h.stack_sound a (ground (arith, ha)) inside;
  }

  -- a place on the stack after its top is seen and the top's targets are pushed
  moved :
      (n : String) (ts stack seen : List String) (b : String)
      → (contains seen b ≡ true) ⊎ (contains (n ∷ stack) b ≡ true)
      → (contains (n ∷ seen) b ≡ true) ⊎ (contains (push_all ts stack) b ≡ true)
  moved n ts stack seen b (inl h) = inl (ground (arith, h))
  moved n ts stack seen b (inr h) = elim (or_true (str_eq n b) (contains stack b) h) [
    | inl same ↦ inl (ground (arith, same))
    | inr below ↦ inr (ground (arith, below, contains-push_all ts stack b))
  ]

  push-IsSearched :
      (n : String) (stack seen : List String)
      → is_skipped seen n ≡ false
      → IsSearched (n ∷ stack) seen
      → IsSearched (push_all (targets g n) stack) (n ∷ seen)
  push-IsSearched n stack seen fresh h =
      let inside = (or_false (contains seen n) (str_eq n terminal) fresh).1 in
      let top = h.stack_sound n (ground (arith, str_eq_refl n)) inside in
      record {
        closed = λ a b ha hb. elim (or_true (str_eq n a) (contains seen a) ha) [
          | inl same ↦ inr (
              ground (
                arith,
                subst (λ x. contains (targets g x) b ≡ true) (sym (str_eq→eq n a same)) hb,
                contains-push_all (targets g n) stack b,
              ))
          | inr old ↦ moved n (targets g n) stack seen b (h.closed a b old hb)
        ];
        start = λ i. moved n (targets g n) stack seen (entry g) (h.start i);
        seen_sound = λ a ha. elim (or_true (str_eq n a) (contains seen a) ha) [
          | inl same ↦ subst (IsReachable g) (str_eq→eq n a same) top
          | inr old ↦ h.seen_sound a old
        ];
        stack_sound = λ a ha i.
            elim (or_true (contains (targets g n) a) (contains stack a)
              (sym (contains-push_all (targets g n) stack a) ∙ ha)) [
                | inl new ↦ by_edge top new
                | inr below ↦ h.stack_sound a (ground (arith, below)) i
              ];
      }

  pub visit_skip :
      (fuel : ℕ) (n : String) (stack seen : List String)
      → is_skipped seen n ≡ true
      → visit g (suc fuel) (n ∷ stack) seen ≡ visit g fuel stack seen
  unfolding visit
  visit_skip fuel n stack seen skip =
      ap
        (λ b.
          visit g fuel (if b then stack else push_all (targets g n) stack)
            (if b then seen else n ∷ seen))
        skip

  pub visit_push :
      (fuel : ℕ) (n : String) (stack seen : List String)
      → is_skipped seen n ≡ false
      → visit g (suc fuel) (n ∷ stack) seen ≡ visit g fuel (push_all (targets g n) stack) (n ∷ seen)
  unfolding visit
  visit_push fuel n stack seen fresh =
      ap
        (λ b.
          visit g fuel (if b then stack else push_all (targets g n) stack)
            (if b then seen else n ∷ seen))
        fresh

  pub visit-IsSearched :
      (fuel : ℕ) (stack seen out : List String)
      → visit g fuel stack seen ≡ some out
      → IsSearched stack seen
      → IsSearched [] out
  unfolding visit
  visit-IsSearched fuel [] seen out h k = subst (IsSearched []) (ground arith) k
  visit-IsSearched zero (n ∷ stack) seen out h k = cc
  visit-IsSearched (suc fuel) (n ∷ stack) seen out h k = elim (Bool-cases (is_skipped seen n)) [
    | inl skip ↦
        visit-IsSearched fuel stack seen out (sym (visit_skip fuel n stack seen skip) ∙ h)
          (skip-IsSearched n stack seen skip k)
    | inr fresh ↦
        visit-IsSearched fuel (push_all (targets g n) stack) (n ∷ seen) out
          (sym (visit_push fuel n stack seen fresh) ∙ h) (push-IsSearched n stack seen fresh k)
  ]

  pub searched_complete :
      (out : List String) (a : String) → IsSearched [] out → IsReachable g a → contains out a ≡ true
  searched_complete out _ k (at_entry inside) = elim (k.start inside) [ inl h ↦ h | inr h ↦ cc ]
  searched_complete out _ k (by_edge {a} {b} r h) =
      elim (k.closed a b (searched_complete out a k r) h) [ inl h ↦ h | inr h ↦ cc ]
