-- ===== src/Store/Sequence.antt =====
-- The numbering of the log and of the attempts of a node.
use ravana.Prelude.{
  ◌+◌, String, ◌≡◌, refl, ap, List, [], ◌∷◌, map, length, maximum, str_eq, str_eq→eq, arith,
  Bool-cases, inl, inr,
}
use ravana.Store.{NodeExecution, LogEvent, rows_of}

-- The events are numbered 1, 2, 3, … from the oldest to the newest.
abbrev pub IsNumbered : List LogEvent → Type 0
IsNumbered [] = Unit
IsNumbered (e ∷ es) = (e.sequence ≡ length es + 1) × IsNumbered es

pub maximum-sequence :
    (es : List LogEvent) → IsNumbered es → maximum (map (λ e. e.sequence) es) ≡ length es
maximum-sequence [] h = refl
maximum-sequence (e ∷ es) h = omega (arith, maximum-sequence es h.1, h.0)

-- The attempts of each node are numbered 1, 2, 3, … from its oldest row to its newest.
abbrev pub HasAttemptNumbers : List NodeExecution → Type 0
HasAttemptNumbers [] = Unit
HasAttemptNumbers (r ∷ rows) =
    (r.attempt ≡ length (rows_of r.node_id rows) + 1) × HasAttemptNumbers rows

pub maximum-attempt :
    (node_id : String) (rows : List NodeExecution)
    → HasAttemptNumbers rows
    → maximum (map (λ r. r.attempt) (rows_of node_id rows)) ≡ length (rows_of node_id rows)
maximum-attempt node_id [] h = refl
maximum-attempt node_id (r ∷ rows) h = elim (Bool-cases (str_eq r.node_id node_id)) [
  | inl same ↦
      let e = str_eq→eq r.node_id node_id same in
      rw same
        (omega (arith, maximum-attempt node_id rows h.1, h.0, ap (λ n. length (rows_of n rows)) e))
  | inr other ↦ rw other (maximum-attempt node_id rows h.1)
]
