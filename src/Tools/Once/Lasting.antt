-- ===== src/Tools/Once/Lasting.antt =====
-- A row that has succeeded stays as it is, whatever is requested and wherever a process dies.
use ravana.Prelude.{
  ◌≡◌, refl, String, Bool, Option, none, some, List, str_eq, str_eq→eq, arith, if_cases, Bool-cases,
  inl, inr, ap, sym, subst,
}
use ravana.Exception.{Result}
use ravana.Dict.{Dict, get, put, get-put, get-put_self}
use ravana.Tools.{Call}
use ravana.Tools.Ledger.{Ledger, Invocation, succeeded, commit, rollback}
use ravana.Tools.Execute.{
  Executor, Tools, ToolRequest, Begun, calling, answered, scope, settle, execute, make_ready, begin,
  finish, die_with, answer_of,
}
use ravana.Tools.Once.{Step, executed, died, allowance, status_of, Bounded}
use ravana.Tools.Once.Claims.{Claimed}
use ravana.Tools.Once.Answers.{AfterCall, Started, kept-AfterCall, settle-AfterCall}
use ravana.Tools.Once.Begins.{BegunWell, begin-BegunWell}

module _ (k : String) where
  abbrev pub SameRow : Ledger → Ledger → Type 0
  SameRow l m = get m.current k ≡ get l.current k

  module _ (l : Ledger) (done : status_of l.current k ≡ some succeeded) where
    call-SameRow :
        (r : ToolRequest) (row : Invocation) (answer : Option (Result String)) (n : Ledger)
        → allowance (status_of l.current r.idempotency_key) ≡ 0
        → AfterCall (scope r) answer (put l.current r.idempotency_key row) n
        → SameRow l n
    call-SameRow r row answer n unused (closed, (after, bound, rows)) =
        elim (Bool-cases (str_eq r.idempotency_key k)) [
          | inl same ↦
              let e : r.idempotency_key ≡ k = str_eq→eq r.idempotency_key k same in
              let none_allowed : allowance (status_of l.current k) ≡ 0 =
                subst (λ j. allowance (status_of l.current j) ≡ 0) e unused in
              absurd (omega (arith, none_allowed, ap allowance done))
          | inr other ↦ ground (arith, rows k, get-put l.current r.idempotency_key k row, other)
        ]

    -- Whatever is recorded after a claimed call leaves the row alone.
    claim-SameRow :
        (r : ToolRequest) (m : Ledger) (answer : Option (Result String))
        → Claimed (scope r) l m
        → (record_in : Ledger → Ledger)
        → ((rows : Dict Invocation) (row : Invocation)
            → Started (scope r) rows row
            → AfterCall (scope r) answer rows (record_in (commit rows)))
        → SameRow l (record_in m)
    claim-SameRow r m answer (row, inside, status, unused, eq) record_in after =
        subst (λ n. SameRow l (record_in n)) (sym eq)
          (call-SameRow r row answer (record_in (commit (put l.current r.idempotency_key row)))
            unused (after _ row (get-put_self l.current r.idempotency_key row, inside, status)))

    finish-SameRow :
        (r : ToolRequest) (calls : List Call) (begun : Begun)
        → BegunWell r l begun
        → SameRow l ((finish r calls begun).1).ledger
    finish-SameRow r calls (answered a m) eq = subst (SameRow l) (sym eq) refl
    finish-SameRow r calls (calling ready m) (key, (when, unless)) =
        let answer = answer_of ready calls in
        if_cases (λ (done : Result String × Ledger). SameRow l done.1) ready.side_effecting
          (λ is.
            claim-SameRow r m (some answer) (when is) (λ n. (settle (scope r) answer n).1)
              (λ rows row. settle-AfterCall (scope r) rows row answer))
          (λ is. subst (SameRow l) (sym (unless is)) refl)

    died-SameRow :
        (r : ToolRequest) (calls : List Call) (during : Bool) (begun : Begun)
        → l.durable ≡ l.current
        → BegunWell r l begun
        → SameRow l (die_with calls during begun).ledger
    died-SameRow r calls during (answered a m) closed eq =
        subst (λ n. SameRow l (rollback n)) (sym eq) (ap (λ rows. get rows k) closed)
    died-SameRow r calls during (calling ready m) closed (key, (when, unless)) =
        elim (Bool-cases ready.side_effecting) [
          | inl is ↦
              claim-SameRow r m none (when is) rollback
                (λ rows row. kept-AfterCall (scope r) rows row none)
          | inr is ↦
              subst (λ n. SameRow l (rollback n)) (sym (unless is)) (ap (λ rows. get rows k) closed)
        ]

  pub Step-SameRow :
      (x : Executor) {t u : Tools}
      → Step x t u
      → Bounded t
      → status_of t.ledger.current k ≡ some succeeded
      → SameRow t.ledger u.ledger
  unfolding execute begin
  Step-SameRow x (executed r t) bounded done =
      finish-SameRow t.ledger done r t.calls (begin x r t.ledger)
        (begin-BegunWell x r t.ledger bounded.0 (make_ready x r) refl)
  Step-SameRow x (died r during t) bounded done =
      died-SameRow t.ledger done r t.calls during (begin x r t.ledger) bounded.0
        (begin-BegunWell x r t.ledger bounded.0 (make_ready x r) refl)
