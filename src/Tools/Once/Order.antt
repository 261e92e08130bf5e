-- ===== src/Tools/Once/Order.antt =====
-- The order of calls under one key.
use ravana.Prelude.{
  ◌≤◌, ◌≡◌, ◌≢◌, refl, String, Bool, true, false, ◌&&◌, Option, none, some, List, [], ◌∷◌, length,
  keep, str_eq, arith, if◌then◌else◌, if_cases, sym, subst,
}
use ravana.Exception.{Exception, outcome_unknown, cancelled_error, Result, ok, raise}
use ravana.Tools.{Call}
use ravana.Tools.Ledger.{Ledger}
use ravana.Tools.Execute.{
  Executor, Tools, ToolRequest, Ready, Begun, calling, answered, execute, make_ready, begin, called,
  finish, die_with, answer_of,
}
use ravana.Tools.Once.{
  unfailed, unfailed_under, times_unfailed, Step, executed, died, Reachable, start, next, allowance,
  status_of, Bounded,
}
use ravana.Tools.Once.Begins.{BegunWell, begin-BegunWell}
use ravana.Tools.Once.Steps.{Reachable-Bounded}

-- The call came back with an exception that reports a failure.
abbrev pub Failed : Option (Result String) → Type 0
Failed answer =
    (e : Exception) × (answer ≡ some (raise e)) × (e ≢ outcome_unknown) × (e ≢ cancelled_error)

-- Every side-effecting call under a key came back with a reported failure.
abbrev pub AllFailed : String → List Call → Type 0
AllFailed key [] = Unit
AllFailed key (c ∷ calls) =
    (if c.side_effecting && str_eq c.request.idempotency_key key then Failed c.answer else Unit)
    × AllFailed key calls

-- Before every side-effecting call, all those under its key had failed. The last call is the first
-- of the list.
abbrev pub FailedBefore : List Call → Type 0
FailedBefore [] = Unit
FailedBefore (c ∷ calls) =
    (if c.side_effecting then AllFailed c.request.idempotency_key calls else Unit)
    × FailedBefore calls

unfailed-Failed : (answer : Option (Result String)) → unfailed answer ≡ false → Failed answer
unfailed-Failed none h = cc
unfailed-Failed (some (ok result)) h = cc
unfailed-Failed (some (raise outcome_unknown)) h = cc
unfailed-Failed (some (raise cancelled_error)) h = cc
unfailed-Failed (some (raise e)) h = (e, refl, (λ same. cc), (λ same. cc))

Failed-or_other :
    (side same : Bool) (answer : Option (Result String))
    → (side && same && unfailed answer) ≡ false
    → if side && same then Failed answer else Unit
Failed-or_other true true answer h = unfailed-Failed answer h
Failed-or_other true false answer h = tt
Failed-or_other false same answer h = tt

none_left :
    (b : Bool) (c : Call) (calls : List Call)
    → length (if b then c ∷ calls else calls) ≤ 0
    → (b ≡ false) × (length calls ≤ 0)
none_left true c calls h = absurd (omega (arith, h))
none_left false c calls h = (refl, h)

none_unfailed-AllFailed :
    (key : String) (calls : List Call) → times_unfailed calls key ≤ 0 → AllFailed key calls
none_unfailed-AllFailed key [] h = tt
none_unfailed-AllFailed key (c ∷ calls) h =
    let (first, rest) = none_left (unfailed_under key c) c (keep (unfailed_under key) calls) h in
    (
      Failed-or_other c.side_effecting (str_eq c.request.idempotency_key key) c.answer first,
      none_unfailed-AllFailed key calls rest,
    )

-- A call that `begin` lets through comes after failures only.
calling-FailedBefore :
    (t : Tools) (r : ToolRequest) (ready : Ready) (answer : Option (Result String)) {m : Ledger}
    → Bounded t
    → BegunWell r t.ledger (calling ready m)
    → FailedBefore t.calls
    → FailedBefore (called ready answer ∷ t.calls)
calling-FailedBefore t r ready answer {m} bounded (key, (when, unless)) before = (
  if_cases (λ P. P) ready.side_effecting
      (λ is.
        let (row, inside, status, unused, eq) = when is in
        subst (λ k. AllFailed k t.calls) (sym key)
          (none_unfailed-AllFailed r.idempotency_key t.calls
            (omega (arith, bounded.1 r.idempotency_key, unused))))
      (λ _. tt),
  before,
)

finish-FailedBefore :
    (t : Tools) (r : ToolRequest) (begun : Begun)
    → Bounded t
    → BegunWell r t.ledger begun
    → FailedBefore t.calls
    → FailedBefore ((finish r t.calls begun).1).calls
finish-FailedBefore t r (answered a m) bounded well before = before
finish-FailedBefore t r (calling ready m) bounded well before =
    calling-FailedBefore t r ready (some (answer_of ready t.calls)) bounded well before

died-FailedBefore :
    (t : Tools) (r : ToolRequest) (during : Bool) (begun : Begun)
    → Bounded t
    → BegunWell r t.ledger begun
    → FailedBefore t.calls
    → FailedBefore (die_with t.calls during begun).calls
died-FailedBefore t r during (answered a m) bounded well before = before
died-FailedBefore t r true (calling ready m) bounded well before =
    calling-FailedBefore t r ready none bounded well before
died-FailedBefore t r false (calling ready m) bounded well before = before

Step-FailedBefore :
    (x : Executor) {t u : Tools}
    → Step x t u
    → Bounded t
    → FailedBefore t.calls
    → FailedBefore u.calls
unfolding execute begin
Step-FailedBefore x (executed r t) bounded before =
    finish-FailedBefore t r (begin x r t.ledger) bounded
      (begin-BegunWell x r t.ledger bounded.0 (make_ready x r) refl) before
Step-FailedBefore x (died r during t) bounded before =
    died-FailedBefore t r during (begin x r t.ledger) bounded
      (begin-BegunWell x r t.ledger bounded.0 (make_ready x r) refl) before

Reachable-failed : (x : Executor) {t : Tools} → Reachable x t → FailedBefore t.calls
Reachable-failed x start = tt
Reachable-failed x (next reached step) =
    Step-FailedBefore x step (Reachable-Bounded x reached) (Reachable-failed x reached)

-- In every state that the executor reaches, whatever its handlers answer and wherever a process
-- dies: before every side-effecting call, every earlier side-effecting call under its key had come
-- back with an exception that is neither ToolOutcomeUnknown nor a plain cancellation. And for every
-- key the side-effecting calls under it that did not come back with such an exception are at most
-- as many as the key's row stands for: none without a row or when it is FAILED, else one. Nothing
-- is said of the effects of a call that came back with such an exception.
pub Reachable-FailedBefore :
    (x : Executor) {t : Tools}
    → Reachable x t
    → FailedBefore t.calls
      × ((key : String) → times_unfailed t.calls key ≤ allowance (status_of t.ledger.current key))
Reachable-FailedBefore x reached = (Reachable-failed x reached, (Reachable-Bounded x reached).1)
