-- ===== src/Loop/Start/Occupants.antt =====
-- The runs that occupy a concurrency group, and what cancelling does to them.
use ravana.Prelude.{
  ℕ, ◌+◌, ◌≤◌, ◌≡◌, ◌≢◌, refl, sym, subst, ◌∙◌, str_eq_refl, String, Bool, true, false, ◌&&◌, List,
  [], ◌∷◌, keep, All, length, contains, str_eq, arith, if◌then◌else◌, if_cases,
}
use ravana.Loop.Start.{RunEntry, has_group, ids, is_rival, is_active, cancel_runs, cancel_if}
use ravana.Store.{RunStatus}

-- RUNNING or WAITING_HUMAN: the run has started and has not ended.
abbrev pub is_started : RunStatus → Bool
is_started RunStatus.running = true
is_started RunStatus.waiting_human = true
is_started _ = false

abbrev pub occupies : String → String → RunEntry → Bool
occupies workflow_id group r =
    str_eq r.workflow_id workflow_id && has_group group r.concurrency_group && is_started r.status

abbrev pub occupants : String → String → List RunEntry → ℕ
occupants workflow_id group rows = length (keep (occupies workflow_id group) rows)

-- At most one run of each workflow's groups has started and has not ended.
abbrev pub IsExclusive : String → List RunEntry → Type 0
IsExclusive workflow_id rows = (group : String) → group ≢ "" → occupants workflow_id group rows ≤ 1

pub is_started→is_active : (st : RunStatus) → is_started st ≡ true → is_active st ≡ true
is_started→is_active RunStatus.running h = refl
is_started→is_active RunStatus.waiting_human h = refl
is_started→is_active st h = cc

abbrev pub one_if : Bool → ℕ
one_if b = if b then 1 else 0

pub one_if_mono : (a b : Bool) → (a ≡ true → b ≡ true) → one_if a ≤ one_if b
one_if_mono false b h = omega arith
one_if_mono true b h = subst (λ c. 1 ≤ one_if c) (sym (h refl)) (omega arith)

module _ (workflow_id : String) where
  pub occupants-cons :
      (group : String) (r : RunEntry) (rows : List RunEntry)
      → occupants workflow_id group (r ∷ rows)
        ≡ one_if (occupies workflow_id group r) + occupants workflow_id group rows
  occupants-cons group r rows = counted (occupies workflow_id group r)
    where
      counted :
          (b : Bool)
          → length (
              if b
              then r ∷ keep (occupies workflow_id group) rows
              else keep (occupies workflow_id group) rows)
            ≡ one_if b + occupants workflow_id group rows
      counted true = omega arith
      counted false = omega arith

  pub occupies-is_rival :
      (group : String) (r : RunEntry)
      → occupies workflow_id group r ≡ true
      → is_rival workflow_id group r ≡ true
  occupies-is_rival group r h =
      both (str_eq r.workflow_id workflow_id) (has_group group r.concurrency_group)
        (is_started r.status) (is_active r.status) (is_started→is_active r.status) h
    where
      both :
          (a b c d : Bool) → (c ≡ true → d ≡ true) → ((a && b) && c) ≡ true → ((a && b) && d) ≡ true
      both true true true d more h = more refl
      both true true false d more h = cc
      both true false c d more h = cc
      both false b c d more h = cc

  pub cancelled-occupies :
      (group : String) (b : Bool) (r : RunEntry)
      → occupies workflow_id group (cancel_if b r) ≡ true
      → (b ≡ false) × (occupies workflow_id group r ≡ true)
  cancelled-occupies group false r h = (refl, h)
  cancelled-occupies group true r h =
      absurd (never (str_eq r.workflow_id workflow_id) (has_group group r.concurrency_group) h)
    where
      never : (a b : Bool) → ((a && b) && false) ≢ true
      never true true h = cc
      never true false h = cc
      never false b h = cc

  abbrev pub Covered : (RunEntry → Bool) → List String → RunEntry → Type 0
  Covered p rivals r = p r ≡ true → contains rivals r.id ≡ true

  pub Covered-mono :
      (p : RunEntry → Bool) (rivals : List String) (id : String) (rows : List RunEntry)
      → All (Covered p rivals) rows
      → All (Covered p (id ∷ rivals)) rows
  Covered-mono p rivals id [] all = tt
  Covered-mono p rivals id (r ∷ rows) (first, all) =
      ((λ h. ground (arith, first h)), Covered-mono p rivals id rows all)

  -- The ids of the rows that pass a test cover them.
  pub keep-Covered :
      (p : RunEntry → Bool) (rows : List RunEntry) → All (Covered p (ids (keep p rows))) rows
  keep-Covered p [] = tt
  keep-Covered p (r ∷ rows) =
      if_cases (λ (kept : List RunEntry). All (Covered p (ids kept)) (r ∷ rows)) (p r)
        (λ _. (
          (λ h. ground (arith, str_eq_refl r.id)),
          Covered-mono p _ r.id rows (keep-Covered p rows),
        ))
        (λ not. ((λ h. cc), keep-Covered p rows))

  -- Cancelling adds no occupant, and leaves none among the rows that are covered.
  pub cancel_runs-occupants :
      (group : String) (rivals : List String) (rows : List RunEntry)
      → occupants workflow_id group (cancel_runs rivals rows) ≤ occupants workflow_id group rows
  cancel_runs-occupants group rivals [] = omega arith
  cancel_runs-occupants group rivals (r ∷ rows) =
      let rest = cancel_runs-occupants group rivals rows in
      let here =
        one_if_mono (occupies workflow_id group (cancel_if (contains rivals r.id) r))
          (occupies workflow_id group r)
          (λ h. (cancelled-occupies group (contains rivals r.id) r h).1) in
      omega (
        arith,
        rest,
        here,
        occupants-cons group r rows,
        occupants-cons group (cancel_if (contains rivals r.id) r) (cancel_runs rivals rows),
      )

  pub cancel_runs-none :
      (group : String) (rivals : List String) (rows : List RunEntry)
      → All (Covered (is_rival workflow_id group) rivals) rows
      → occupants workflow_id group (cancel_runs rivals rows) ≡ 0
  cancel_runs-none group rivals [] all = refl
  cancel_runs-none group rivals (r ∷ rows) (first, all) =
      let kept = cancel_if (contains rivals r.id) r in
      let never : occupies workflow_id group kept ≡ true → false ≡ true = λ h.
        let (uncovered, occupied) = cancelled-occupies group (contains rivals r.id) r h in
        sym uncovered ∙ first (occupies-is_rival group r occupied) in
      omega (
        arith,
        cancel_runs-none group rivals rows all,
        occupants-cons group kept (cancel_runs rivals rows),
        one_if_mono (occupies workflow_id group kept) false never,
      )

  pub no_rivals-occupants :
      (group : String) (rows : List RunEntry)
      → keep (is_rival workflow_id group) rows ≡ []
      → occupants workflow_id group rows ≡ 0
  no_rivals-occupants group [] h = refl
  no_rivals-occupants group (r ∷ rows) h =
      let (out, rest) =
        no_first (is_rival workflow_id group r) r (keep (is_rival workflow_id group) rows) h in
      omega (
        arith,
        no_rivals-occupants group rows rest,
        occupants-cons group r rows,
        one_if_mono (occupies workflow_id group r) false
            (λ occupied. sym out ∙ occupies-is_rival group r occupied),
      )
    where
      no_first :
          (b : Bool) (r : RunEntry) (xs : List RunEntry)
          → (if b then r ∷ xs else xs) ≡ []
          → (b ≡ false) × (xs ≡ [])
      no_first true r xs h = cc
      no_first false r xs h = (refl, h)
