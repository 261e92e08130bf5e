-- ===== src/Tools/Once/Steps.antt =====
-- Every step of the executor keeps the invariant.
use ravana.Prelude.{
  ℕ, ◌≤◌, ◌+◌, ◌≡◌, refl, String, Bool, true, false, Option, none, some, List, ◌∷◌, length, str_eq,
  str_eq→eq, arith, if◌then◌else◌, if_cases, Bool-cases, inl, inr, sym, subst, subst₂,
}
use ravana.Exception.{Result}
use ravana.Dict.{Dict, put, get-put, get-put_self}
use ravana.Tools.{Call}
use ravana.Tools.Ledger.{Ledger, Invocation, InvocationStatus, commit, rollback}
use ravana.Tools.Execute.{
  Executor, Tools, ToolRequest, Ready, Begun, calling, answered, scope, settle, execute, make_ready,
  begin, called, finish, die_with, answer_of,
}
use ravana.Tools.Once.{
  unfailed_under, times_unfailed, Step, executed, died, Reachable, start, next, allowance,
  status_of, Bounded,
}
use ravana.Tools.Once.Claims.{Claimed}
use ravana.Tools.Once.Answers.{counted, AfterCall, Started, kept-AfterCall, settle-AfterCall}
use ravana.Tools.Once.Begins.{KeyOf, BegunWell, begin-BegunWell}

-- How a call counts.
pub times_unfailed-called :
    (key : String) (ready : Ready) (answer : Option (Result String)) (calls : List Call)
    → ready.side_effecting ≡ true
    → times_unfailed (called ready answer ∷ calls) key
      ≡ (if str_eq ready.call.idempotency_key key then counted answer else 0)
        + times_unfailed calls key
times_unfailed-called key ready answer calls is = ground (arith, is)

pub times_unfailed-free :
    (key : String) (ready : Ready) (answer : Option (Result String)) (calls : List Call)
    → ready.side_effecting ≡ false
    → times_unfailed (called ready answer ∷ calls) key ≡ times_unfailed calls key
times_unfailed-free key ready answer calls is = ground (arith, is)

pub put-status :
    (rows : Dict Invocation) (j key : String) (row : Invocation)
    → status_of (put rows j row) key
      ≡ (if str_eq j key then some row.status else status_of rows key)
put-status rows j key row = ground (arith, get-put rows j key row)

pub if_bound :
    (b : Bool) (new old : ℕ) (st was : Option InvocationStatus)
    → new ≤ allowance st
    → (b ≡ true → allowance was ≡ 0)
    → old ≤ allowance was
    → (if b then new else 0) + old ≤ allowance (if b then st else was)
if_bound true new old st was now none_before before = omega (arith, now, none_before refl, before)
if_bound false new old st was now none_before before = omega (arith, before)

module _ (t : Tools) (r : ToolRequest) (ready : Ready) (row : Invocation) where
  abbrev pub claimed : Ledger
  claimed = commit (put t.ledger.current r.idempotency_key row)

  pub call-Bounded :
      (answer : Option (Result String)) (n : Ledger)
      → Bounded t
      → KeyOf r ready
      → ready.side_effecting ≡ true
      → allowance (status_of t.ledger.current r.idempotency_key) ≡ 0
      → AfterCall (scope r) answer claimed.current n
      → Bounded (record { ledger = n; calls = called ready answer ∷ t.calls })
  call-Bounded answer n (_, bounded) key is unused (closed, (after, bound, rows)) = (
    closed,
    λ k.
        let h : status_of n.current k ≡ (
            if str_eq r.idempotency_key k
            then some after.status
            else status_of t.ledger.current k) =
          ground (arith, rows k, get-put t.ledger.current r.idempotency_key k row) in
        let m : times_unfailed (called ready answer ∷ t.calls) k
            ≡ (if str_eq r.idempotency_key k then counted answer else 0)
              + times_unfailed t.calls k =
          subst
            (λ j.
              times_unfailed (called ready answer ∷ t.calls) k
              ≡ (if str_eq j k then counted answer else 0) + times_unfailed t.calls k)
            key (times_unfailed-called k ready answer t.calls is) in
        subst₂ (λ a b. a ≤ allowance b) (sym m) (sym h)
          (if_bound (str_eq r.idempotency_key k) _ _ (some after.status) _ bound
            (λ same.
              subst (λ j. allowance (status_of t.ledger.current j) ≡ 0) (str_eq→eq _ _ same) unused)
            (bounded k)),
  )

-- A call without side effects counts for nothing.
pub free-Bounded :
    (t : Tools) (ready : Ready) (answer : Option (Result String))
    → Bounded t
    → ready.side_effecting ≡ false
    → Bounded (record { ledger = t.ledger; calls = called ready answer ∷ t.calls })
free-Bounded t ready answer (closed, bounded) is = (
  closed,
  λ k.
      subst (λ n. n ≤ allowance (status_of t.ledger.current k))
        (sym (times_unfailed-free k ready answer t.calls is)) (bounded k),
)

-- Whatever is recorded after a claimed call keeps the invariant.
pub claim-Bounded :
    (t : Tools) (r : ToolRequest) (ready : Ready) (m : Ledger) (answer : Option (Result String))
    → Bounded t
    → KeyOf r ready
    → ready.side_effecting ≡ true
    → Claimed (scope r) t.ledger m
    → (record_in : Ledger → Ledger)
    → ((rows : Dict Invocation) (row : Invocation)
        → Started (scope r) rows row
        → AfterCall (scope r) answer rows (record_in (commit rows)))
    → Bounded (record { ledger = record_in m; calls = called ready answer ∷ t.calls })
claim-Bounded t r ready m answer bounded key is (row, inside, status, unused, eq) record_in after =
    subst (λ l. Bounded (record { ledger = record_in l; calls = called ready answer ∷ t.calls }))
      (sym eq)
      (call-Bounded t r ready row answer (record_in (claimed t r ready row)) bounded key is unused
        (after _ row (get-put_self t.ledger.current r.idempotency_key row, inside, status)))

pub finish-Bounded :
    (t : Tools) (r : ToolRequest) (begun : Begun)
    → Bounded t
    → BegunWell r t.ledger begun
    → Bounded ((finish r t.calls begun).1)
finish-Bounded t r (answered a m) bounded eq =
    subst (λ l. Bounded (record { ledger = l; calls = t.calls })) (sym eq) bounded
finish-Bounded t r (calling ready m) bounded (key, (when, unless)) =
    let answer = answer_of ready t.calls in
    if_cases
      (λ (done : Result String × Ledger).
        Bounded (record { ledger = done.1; calls = called ready (some answer) ∷ t.calls }))
      ready.side_effecting
      (λ is.
        claim-Bounded t r ready m (some answer) bounded key is (when is)
          (λ l. (settle (scope r) answer l).1)
          (λ rows row. settle-AfterCall (scope r) rows row answer))
      (λ is.
        subst (λ l. Bounded (record { ledger = l; calls = called ready (some answer) ∷ t.calls }))
          (sym (unless is)) (free-Bounded t ready (some answer) bounded is))

pub rollback-Bounded :
    (l : Ledger) (calls : List Call)
    → Bounded (record { ledger = l; calls = calls })
    → Bounded (record { ledger = rollback l; calls = calls })
rollback-Bounded l calls (closed, bounded) = (
  refl,
  λ key.
      subst (λ rows. times_unfailed calls key ≤ allowance (status_of rows key)) (sym closed)
        (bounded key),
)

pub drop-Bounded :
    (l : Ledger) (c : Call) (calls : List Call)
    → Bounded (record { ledger = l; calls = c ∷ calls })
    → Bounded (record { ledger = l; calls = calls })
drop-Bounded l c calls (closed, bounded) = (
  closed,
  λ key.
      let h : times_unfailed calls key ≤ times_unfailed (c ∷ calls) key =
        if_cases (λ (xs : List Call). times_unfailed calls key ≤ length xs) (unfailed_under key c)
          (λ _. omega arith) (λ _. omega arith) in
      omega (arith, h, bounded key),
)

pub died-Bounded :
    (t : Tools) (r : ToolRequest) (during : Bool) (begun : Begun)
    → Bounded t
    → BegunWell r t.ledger begun
    → Bounded (die_with t.calls during begun)
died-Bounded t r during (answered a m) bounded eq =
    rollback-Bounded m t.calls
      (subst (λ l. Bounded (record { ledger = l; calls = t.calls })) (sym eq) bounded)
died-Bounded t r during (calling ready m) bounded (key, (when, unless)) =
    let both : Bounded (record { ledger = rollback m; calls = called ready none ∷ t.calls }) =
      elim (Bool-cases ready.side_effecting) [
        | inl is ↦
            claim-Bounded t r ready m none bounded key is (when is) rollback
              (λ rows row. kept-AfterCall (scope r) rows row none)
        | inr is ↦ rollback-Bounded m (called ready none ∷ t.calls) (
            subst (λ l. Bounded (record { ledger = l; calls = called ready none ∷ t.calls }))
              (sym (unless is)) (free-Bounded t ready none bounded is))
      ] in
    if_cases (λ (calls : List Call). Bounded (record { ledger = rollback m; calls = calls })) during
      (λ _. both) (λ _. drop-Bounded (rollback m) (called ready none) t.calls both)

pub Step-Bounded : (x : Executor) {t u : Tools} → Step x t u → Bounded t → Bounded u
unfolding execute begin
Step-Bounded x (executed r t) bounded =
    finish-Bounded t r (begin x r t.ledger) bounded
      (begin-BegunWell x r t.ledger bounded.0 (make_ready x r) refl)
Step-Bounded x (died r during t) bounded =
    died-Bounded t r during (begin x r t.ledger) bounded
      (begin-BegunWell x r t.ledger bounded.0 (make_ready x r) refl)

pub Reachable-Bounded : (x : Executor) {t : Tools} → Reachable x t → Bounded t
Reachable-Bounded x start = (refl, λ key. omega arith)
Reachable-Bounded x (next reached step) = Step-Bounded x step (Reachable-Bounded x reached)
