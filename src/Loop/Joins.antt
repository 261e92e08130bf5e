-- ===== src/Loop/Joins.antt =====
-- The arrivals of a join, as the events of the log change them.
use ravana.Prelude.{
  ℕ, ◌+◌, ◌≤◌, String, ◌≡◌, refl, ap, ◌∙◌, subst, Bool, true, false, ◌&&◌, ◌||◌, Option, List, [],
  ◌∷◌, map, keep, length, contains, distinct, maximum, str_eq, str_eq_refl, str_eq→eq, ltb, arith,
  Bool-cases, inl, inr,
}
use ravana.Value.{State}
use ravana.Store.{LogEvent, Db, arrives, commits, texts, last_commit, join_arrivals, next_sequence}
use ravana.Store.Sequence.{IsNumbered, maximum-sequence}
use ravana.Loop.{push_event}
use ravana.Loop.Commit.{commit_event}
use ravana.Loop.Route.{route_event}

no_arrivals :
    (node_id : String) (since : ℕ) (es : List LogEvent)
    → IsNumbered es
    → length es ≤ since
    → keep (arrives node_id since) es ≡ []
no_arrivals node_id since [] h le = refl
no_arrivals node_id since (e ∷ es) h le = ground (arith, no_arrivals node_id since es h.1, h.0)

maximum-keep_le :
    (p : LogEvent → Bool) (es : List LogEvent)
    → maximum (map (λ e. e.sequence) (keep p es)) ≤ maximum (map (λ e. e.sequence) es)
maximum-keep_le p [] = omega arith
maximum-keep_le p (e ∷ es) = ground (arith, maximum-keep_le p es)

contains-distinct : (xs : List String) (a : String) → contains (distinct xs) a ≡ contains xs a
contains-distinct [] a = refl
contains-distinct (x ∷ xs) a = elim (Bool-cases (contains xs x)) [
  | inl there ↦ rw there (elim (Bool-cases (str_eq x a)) [
    | inl same ↦
        rw same
          (contains-distinct xs a ∙ subst (λ y. contains xs y ≡ true) (str_eq→eq x a same) there)
    | inr other ↦ rw other (contains-distinct xs a)
  ])
  | inr absent ↦ rw absent (ap (λ b. str_eq x a || b) (contains-distinct xs a))
]

contains-distinct_head : (x : String) (xs : List String) → contains (distinct (x ∷ xs)) x ≡ true
contains-distinct_head x xs = contains-distinct (x ∷ xs) x ∙ rw (str_eq_refl x) refl

-- the last COMMIT of a node after one more
last_commit_newest :
    (d : Db) (node_id : String) (execution version : ℕ) (delta : State)
    → IsNumbered d.log
    → length d.log
      ≤ last_commit (push_event (commit_event node_id execution delta version) d) node_id
unfolding last_commit next_sequence
last_commit_newest d node_id execution version delta h =
    rw (str_eq_refl node_id) (omega (arith, maximum-sequence d.log h))

last_commit_other :
    (d : Db) (node_id other : String) (execution version : ℕ) (delta : State)
    → str_eq node_id other ≡ false
    → last_commit (push_event (commit_event node_id execution delta version) d) other
      ≡ last_commit d other
unfolding last_commit
last_commit_other d node_id other execution version delta apart = rw apart refl

arrives_now :
    (target : String) (since now : ℕ)
    → since ≤ now
    → (str_eq target target && ltb since (now + 1)) ≡ true
arrives_now target since now le = rw (str_eq_refl target) (ground arith)

join_arrivals-commit :
    (d : Db) (node_id other : String) (execution version : ℕ) (delta : State)
    → IsNumbered d.log
    → str_eq node_id other ≡ false
    → (join_arrivals (push_event (commit_event node_id execution delta version) d) node_id ≡ [])
      × (join_arrivals (push_event (commit_event node_id execution delta version) d) other
          ≡ join_arrivals d other)
unfolding join_arrivals last_commit next_sequence
join_arrivals-commit d node_id other execution version delta h apart =
    let sources : List LogEvent → List String =
      λ es. distinct (texts (map (λ e. e.from_node) es)) in
    (
      ap sources
          (no_arrivals node_id _ d.log h (last_commit_newest d node_id execution version delta h)),
      ap (λ since. sources (keep (arrives other since) d.log))
          (last_commit_other d node_id other execution version delta apart),
    )

join_arrivals-route :
    (d : Db) (source target : String) (condition : Option String) (execution : ℕ)
    → IsNumbered d.log
    → contains
        (join_arrivals (push_event (route_event source target condition execution) d) target)
        source
      ≡ true
unfolding join_arrivals last_commit next_sequence
join_arrivals-route d source target condition execution h =
    rw (arrives_now target _ _ (maximum-keep_le (commits target) d.log))
      (contains-distinct_head source _)

-- When the log is numbered, a COMMIT of a node consumes all arrivals at it and none at another node,
-- and a ROUTE to a node makes its source one of the arrivals there.
pub join_arrivals-push :
    (d : Db) (node_id other source : String) (execution version : ℕ) (delta : State)
    (condition : Option String)
    → IsNumbered d.log
    → str_eq node_id other ≡ false
    → ((join_arrivals (push_event (commit_event node_id execution delta version) d) node_id ≡ [])
        × (join_arrivals (push_event (commit_event node_id execution delta version) d) other
            ≡ join_arrivals d other))
      × (contains
            (join_arrivals (push_event (route_event source node_id condition execution) d) node_id)
            source
          ≡ true)
join_arrivals-push d node_id other source execution version delta condition h apart = (
  join_arrivals-commit d node_id other execution version delta h apart,
  join_arrivals-route d source node_id condition execution h,
)
