-- ===== src/Tools/Once/Answers.antt =====
-- What the answer of a call leaves in the ledger.
use ravana.Prelude.{
  ℕ, ◌≤◌, ◌≡◌, refl, String, true, Option, none, some, str_eq, eq_iff, arith, if◌then◌else◌,
  if_cases, sym, subst,
}
use ravana.Exception.{outcome_unknown, cancelled_error, Result, ok, raise}
use ravana.Dict.{Dict, get, put, get-put}
use ravana.Tools.Ledger.{
  Ledger, Invocation, started, succeeded, failed, commit, Scope, in_scope, update_claimed,
  with_outcome, with_error, record_outcome, record_indeterminate,
}
use ravana.Tools.Execute.{settle, unless_lost}
use ravana.Tools.Once.{unfailed, allowance}

-- What a call that is answered leaves: the row of its key stands for it, unless it reported a
-- failure, and the other rows are as they were.
abbrev pub counted : Option (Result String) → ℕ
counted answer = if unfailed answer then 1 else 0

abbrev pub AfterCall : Scope → Option (Result String) → Dict Invocation → Ledger → Type 0
AfterCall s answer rows m =
    (m.durable ≡ m.current)
    × ((row : Invocation) × (counted answer ≤ allowance (some row.status))
        × ((key : String)
            → get m.current key ≡ (if str_eq s.key key then some row else get rows key)))

pub put-AfterCall :
    (s : Scope) (answer : Option (Result String)) (rows : Dict Invocation) (row : Invocation)
    → counted answer ≤ allowance (some row.status)
    → AfterCall s answer rows (commit (put rows s.key row))
put-AfterCall s answer rows row bound =
    (refl, (row, bound, λ key. ground (arith, get-put rows s.key key row)))

module _ (s : Scope) (rows : Dict Invocation) (row : Invocation) where
  abbrev pub Started : Type 0
  Started = (get rows s.key ≡ some row) × (in_scope s row ≡ true) × (row.status ≡ started)

  pub update_claimed-eq :
      (f : Invocation → Invocation)
      → Started
      → update_claimed s (commit rows) f (get rows s.key) ≡ (ok tt, commit (put rows s.key (f row)))
  update_claimed-eq f (found, inside, is) = simp (found, inside, is)

  pub written-AfterCall :
      (answer : Option (Result String)) (reply : Result String) (f : Invocation → Invocation)
      → Started
      → counted answer ≤ allowance (some (f row).status)
      → AfterCall s answer rows
          ((unless_lost reply (update_claimed s (commit rows) f (get rows s.key))).1)
  written-AfterCall answer reply f is bound =
      subst (λ w. AfterCall s answer rows ((unless_lost reply w).1)) (sym (update_claimed-eq f is))
        (put-AfterCall s answer rows (f row) bound)

  pub kept-AfterCall :
      (answer : Option (Result String)) → Started → AfterCall s answer rows (commit rows)
  kept-AfterCall answer (found, inside, is) = (
    refl,
    (
      row,
      subst (λ st. counted answer ≤ allowance (some st)) (sym is)
          (if_cases (λ n. n ≤ 1) (unfailed answer) (λ h. omega arith) (λ h. omega arith)),
      λ key. ground (arith, found, is, eq_iff s.key key),
    ),
  )

  pub settle-AfterCall :
      (answer : Result String)
      → Started
      → AfterCall s (some answer) rows ((settle s answer (commit rows)).1)
  unfolding settle record_outcome record_indeterminate
  settle-AfterCall (ok result) is =
      written-AfterCall (some (ok result)) (ok result) (with_outcome succeeded (some result) none)
        is (omega arith)
  settle-AfterCall (raise outcome_unknown) (found, inside, is) =
      written-AfterCall (some (raise outcome_unknown)) (raise outcome_unknown)
        (with_error outcome_unknown) (found, inside, is) (ground (arith, is))
  settle-AfterCall (raise cancelled_error) is = kept-AfterCall (some (raise cancelled_error)) is
  settle-AfterCall (raise e) is =
      written-AfterCall (some (raise e)) (raise e) (with_outcome failed none (some e)) is
        (omega arith)
