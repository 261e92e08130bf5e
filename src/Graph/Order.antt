-- ===== src/Graph/Order.antt =====
-- The sort by priority of `compile_workflow`.
use mathlib.Core.List.{Perm}
use mathlib.Core.List.Perm
use ravana.Prelude.{
  String, ◌≡◌, ◌∙◌, refl, Bool, true, false, List, [], ◌∷◌, keep, arith, Bool-cases, inl, inr,
  str_eq, ◌&&◌,
}
use ravana.Prelude.Int.{ℤ, ◌≤ℤ◌, leb_ℤ}
use ravana.Dict.{Dict, get}
use ravana.Schema.{GraphEdge}
use ravana.Graph.Edges.{insert_by_priority, sort_by_priority, sort_values, get_list}

-- Each edge has at least the priority of the edges after it.
abbrev pub AtMost : ℤ → List GraphEdge → Type 0
AtMost p [] = Unit
AtMost p (e ∷ es) = (e.priority ≤ℤ p) × AtMost p es

abbrev pub Descending : List GraphEdge → Type 0
Descending [] = Unit
Descending (e ∷ es) = AtMost e.priority es × Descending es

AtMost-mono : (p q : ℤ) (es : List GraphEdge) → p ≤ℤ q → AtMost p es → AtMost q es
AtMost-mono p q [] h a = tt
AtMost-mono p q (e ∷ es) h a = (omega arith, AtMost-mono p q es h a.1)

insert-AtMost :
    (p : ℤ) (e : GraphEdge) (es : List GraphEdge)
    → e.priority ≤ℤ p
    → AtMost p es
    → AtMost p (insert_by_priority e es)
unfolding insert_by_priority
insert-AtMost p e [] h a = (h, tt)
insert-AtMost p e (x ∷ xs) h a = elim (Bool-cases (leb_ℤ x.priority e.priority)) [
  | inl low ↦ rw low (h, a)
  | inr high ↦ rw high (a.0, insert-AtMost p e xs h a.1)
]

leb_ℤ_true : (a b : ℤ) → leb_ℤ a b ≡ true → a ≤ℤ b
leb_ℤ_true a b h = ground arith

leb_ℤ_false : (a b : ℤ) → leb_ℤ a b ≡ false → b ≤ℤ a
leb_ℤ_false a b h = ground arith

insert-Descending :
    (e : GraphEdge) (es : List GraphEdge) → Descending es → Descending (insert_by_priority e es)
unfolding insert_by_priority
insert-Descending e [] d = (tt, tt)
insert-Descending e (x ∷ xs) d = elim (Bool-cases (leb_ℤ x.priority e.priority)) [
  | inl low ↦
      let h = leb_ℤ_true x.priority e.priority low in
      rw low ((h, AtMost-mono x.priority e.priority xs h d.0), d)
  | inr high ↦ rw high (
    insert-AtMost x.priority e xs (leb_ℤ_false x.priority e.priority high) d.0,
    insert-Descending e xs d.1,
  )
]

sort_by_priority-Descending : (es : List GraphEdge) → Descending (sort_by_priority es)
unfolding sort_by_priority
sort_by_priority-Descending [] = tt
sort_by_priority-Descending (e ∷ es) =
    insert-Descending e (sort_by_priority es) (sort_by_priority-Descending es)

insert-perm : (e : GraphEdge) (es : List GraphEdge) → Perm (insert_by_priority e es) (e ∷ es)
unfolding insert_by_priority
insert-perm e [] = Perm.refl (e ∷ [])
insert-perm e (x ∷ xs) = elim (Bool-cases (leb_ℤ x.priority e.priority)) [
  | inl low ↦ rw low (Perm.refl (e ∷ x ∷ xs))
  | inr high ↦ rw high (Perm.trans (Perm.cons x (insert-perm e xs)) (Perm.swap e x xs))
]

sort_by_priority-perm : (es : List GraphEdge) → Perm (sort_by_priority es) es
unfolding sort_by_priority
sort_by_priority-perm [] = Perm.refl []
sort_by_priority-perm (e ∷ es) =
    Perm.trans (insert-perm e (sort_by_priority es)) (Perm.cons e (sort_by_priority-perm es))

pub get_list-sort_values :
    (d : Dict (List GraphEdge)) (s : String)
    → get_list (sort_values d) s ≡ sort_by_priority (get_list d s)
unfolding sort_values get
get_list-sort_values [] s = refl
get_list-sort_values ((k, es) ∷ d) s = elim (Bool-cases (str_eq k s)) [
  | inl same ↦ rw same
  | inr other ↦ rw other (get_list-sort_values d s)
]

abbrev pub has_priority : ℤ → GraphEdge → Bool
has_priority p e = leb_ℤ e.priority p && leb_ℤ p e.priority

insert_stable :
    (p : ℤ) (e : GraphEdge) (es : List GraphEdge)
    → keep (has_priority p) (insert_by_priority e es) ≡ keep (has_priority p) (e ∷ es)
unfolding insert_by_priority
insert_stable p e [] = refl
insert_stable p e (x ∷ xs) = elim (Bool-cases (leb_ℤ x.priority e.priority)) [
  | inl low ↦ rw low refl
  | inr high ↦ rw high (ground (arith, insert_stable p e xs))
]

sort_by_priority_stable :
    (p : ℤ) (es : List GraphEdge)
    → keep (has_priority p) (sort_by_priority es) ≡ keep (has_priority p) es
unfolding sort_by_priority
sort_by_priority_stable p [] = refl
sort_by_priority_stable p (e ∷ es) =
    insert_stable p e (sort_by_priority es) ∙ ground (arith, sort_by_priority_stable p es)

-- The sort by priority is a stable sort: no edge stands before one of higher priority, the edges are
-- the same ones, each as often as before, and edges of one priority keep their order.
pub sort_by_priority-IsStableSort :
    (es : List GraphEdge)
    → Descending (sort_by_priority es)
      × (Perm (sort_by_priority es) es
          × ((p : ℤ) → keep (has_priority p) (sort_by_priority es) ≡ keep (has_priority p) es))
sort_by_priority-IsStableSort es =
    (sort_by_priority-Descending es, (sort_by_priority-perm es, λ p. sort_by_priority_stable p es))
