-- ===== src/Tools/Once/Replay.antt =====
-- A request that has succeeded is answered from the ledger.
use ravana.Prelude.{
  ◌≢◌, ◌≡◌, refl, String, true, Option, none, some, List, ◌∷◌, if_cases, ap, sym, ◌∙◌, subst, arith,
}
use ravana.Exception.{Exception, outcome_unknown, cancelled_error, Result, ok, raise}
use ravana.Dict.{Dict, get, put, get-put_self}
use ravana.Tools.{Call}
use ravana.Tools.Ledger.{
  Ledger, Invocation, succeeded, failed, commit, Scope, in_scope, claim, with_outcome,
  record_outcome, record_indeterminate,
}
use ravana.Tools.Execute.{
  Executor, Tools, ToolRequest, Ready, scope, settle, execute, unless_lost, make_ready, begin,
  after_claim, called, finish, answer_of,
}
use ravana.Tools.Once.{Step, executed, Reachable, next, status_of}
use ravana.Tools.Once.Claims.{Stored, ClaimAnswer, claim-ClaimAnswer}
use ravana.Tools.Once.Answers.{Started, update_claimed-eq}
use ravana.Tools.Once.Claims.{commit-current}
use ravana.Tools.Once.Steps.{Reachable-Bounded}
use ravana.Tools.Once.Lasting.{Step-SameRow}

pub claim-replay :
    (s : Scope) (l : Ledger) (row : Invocation) (result : String)
    → l.durable ≡ l.current
    → get l.current s.key ≡ some row
    → in_scope s row ≡ true
    → row.status ≡ succeeded
    → row.result ≡ some result
    → claim s l ≡ (ok (some result), l)
unfolding claim
claim-replay s l row result closed found inside status stored =
    simp (found, inside, status, stored, commit-current l closed)

pub begin-claim :
    (x : Executor) (r : ToolRequest) (ready : Ready) (l : Ledger)
    → make_ready x r ≡ ok ready
    → ready.side_effecting ≡ true
    → begin x r l ≡ after_claim ready (claim (scope r) l)
unfolding begin
begin-claim x r ready l made is = simp (made, is)

pub unless_lost-raise :
    (e : Exception) (written : Result (Unit {0}) × Ledger) {result : String}
    → (unless_lost (raise e) written).0 ≢ ok result
unless_lost-raise e (raise f, l) h = cc
unless_lost-raise e (ok done_, l) h = cc

-- The answer that `settle` hands on is the handler's.
pub settle-raise :
    (s : Scope) (e : Exception) (l : Ledger) {result : String}
    → (settle s (raise e) l).0 ≢ ok result
unfolding settle
settle-raise s outcome_unknown l h =
    unless_lost-raise outcome_unknown (record_indeterminate s outcome_unknown l) h
settle-raise s cancelled_error l h = cc
settle-raise s e l h = unless_lost-raise e (record_outcome s failed none (some e) l) h

pub settle-ok :
    (s : Scope) (rows : Dict Invocation) (row : Invocation) (result : String)
    → Started s rows row
    → settle s (ok result) (commit rows)
      ≡ (ok result, commit (put rows s.key (with_outcome succeeded (some result) none row)))
unfolding settle record_outcome
settle-ok s rows row result is =
    ap (unless_lost (ok result))
      (update_claimed-eq s rows row (with_outcome succeeded (some result) none) is)

module _ (x : Executor) (r : ToolRequest) (ready : Ready) (made : make_ready x r ≡ ok ready)
    (is : ready.side_effecting ≡ true) where
  -- what a request does whose key has a row that succeeded
  pub execute-replay :
      (calls : List Call) (l : Ledger) (result : String)
      → claim (scope r) l ≡ (ok (some result), l)
      → execute x r (record { ledger = l; calls = calls })
        ≡ (ok result, record { ledger = l; calls = calls })
  unfolding execute
  execute-replay calls l result claims =
      ap (finish r calls) (begin-claim x r ready l made is ∙ ap (after_claim ready) claims)

  abbrev pub Again : Result String × Tools → String → Type 0
  Again done result = (done.0 ≡ ok result) → Stored (scope r) (done.1).ledger result

  pub settled-Again :
      (calls : List Call) (rows : Dict Invocation) (row : Invocation) (answer : Result String)
      → (result : String) → Started (scope r) rows row
      → (c : Call)
      → let done = settle (scope r) answer (commit rows) in
        Again (done.0, record { ledger = done.1; calls = c ∷ calls }) result
  settled-Again calls rows row (raise e) result (found, inside, status) c =
      λ h. absurd (settle-raise (scope r) e (commit rows) h)
  settled-Again calls rows row (ok result) wanted (found, inside, status) c =
      let answered_row = with_outcome succeeded (some result) none row in
      let after = commit (put rows r.idempotency_key answered_row) in
      subst
        (λ (done : Result String × Ledger).
          Again (done.0, record { ledger = done.1; calls = c ∷ calls }) wanted)
        (sym (settle-ok (scope r) rows row result (found, inside, status)))
        (λ h. (answered_row, get-put_self rows r.idempotency_key answered_row, inside, refl, cc))

  pub claimed-Again :
      (calls : List Call) (l : Ledger) (result : String) (answer : Result (Option String) × Ledger)
      → claim (scope r) l ≡ answer
      → ClaimAnswer (scope r) l answer
      → Again (finish r calls (after_claim ready answer)) result
  claimed-Again calls l result (raise e, m) claims eq = λ h. cc
  claimed-Again calls l result (ok (some old), m) claims (eq, stored) = λ h.
      let e : old ≡ result = cc in
      subst (λ n. Stored (scope r) n result) (sym eq) (subst (Stored (scope r) l) e stored)
  claimed-Again calls l result (ok none, m) claims (row, inside, status, unused, eq) =
      let answer = answer_of ready calls in
      let c = called ready (some answer) in
      if_cases
        (λ (done : Result String × Ledger).
          Again (done.0, record { ledger = done.1; calls = c ∷ calls }) result)
        ready.side_effecting
        (λ _.
          subst
            (λ m.
              let done = settle (scope r) answer m in
              Again (done.0, record { ledger = done.1; calls = c ∷ calls }) result)
            (sym eq)
            (settled-Again calls (put l.current r.idempotency_key row) row answer result
              (get-put_self l.current r.idempotency_key row, inside, status) c))
        (λ not. cc)

execute-Stored :
    (x : Executor) (r : ToolRequest) (ready : Ready) (t : Tools) (result : String)
    → Reachable x t
    → make_ready x r ≡ ok ready
    → ready.side_effecting ≡ true
    → (execute x r t).0 ≡ ok result
    → Stored (scope r) ((execute x r t).1).ledger result
unfolding execute
execute-Stored x r ready t result reached made is =
    let bounded = Reachable-Bounded x reached in
    subst (λ begun. Again x r ready made is (finish r t.calls begun) result)
      (sym (begin-claim x r ready t.ledger made is))
      (claimed-Again x r ready made is t.calls t.ledger result (claim (scope r) t.ledger) refl
        (claim-ClaimAnswer (scope r) t.ledger bounded.0))

-- The states after one, by any number of steps.
pub data Later (x : Executor) (t : Tools) : Tools → Type 0 where
  same : Later x t t
  after : {u v : Tools} → Later x t u → Step x u v → Later x t v

Later-Reachable : (x : Executor) {t u : Tools} → Reachable x t → Later x t u → Reachable x u
Later-Reachable x reached same = reached
Later-Reachable x reached (after later step) = next (Later-Reachable x reached later) step

Stored-status :
    (s : Scope) (l : Ledger) (result : String)
    → Stored s l result
    → status_of l.current s.key ≡ some succeeded
Stored-status s l result (row, found, inside, is, has) = ground (arith, found, is)

Later-Stored :
    (x : Executor) (s : Scope) (result : String) {t u : Tools}
    → Reachable x t
    → Stored s t.ledger result
    → Later x t u
    → Stored s u.ledger result
Later-Stored x s result reached stored same = stored
Later-Stored x s result reached stored (after {u = u} {v = v} later step) =
    let before = Later-Stored x s result reached stored later in
    let (row, found, inside, status, has) = before in
    let unchanged =
      Step-SameRow s.key x step (Reachable-Bounded x (Later-Reachable x reached later))
        (Stored-status s u.ledger result before) in
    (row, unchanged ∙ found, inside, status, has)

-- When a side-effecting request returns a result, the same request returns the same result in
-- every later state, whatever other requests are executed, retried or die in between: without a
-- call to its handler, and with the ledger as it is. The request resolves and is valid, and the
-- state before it is one that the executor reaches.
pub execute-again :
    (x : Executor) (r : ToolRequest) (ready : Ready) (t u : Tools) (result : String)
    → Reachable x t
    → make_ready x r ≡ ok ready
    → ready.side_effecting ≡ true
    → (execute x r t).0 ≡ ok result
    → Later x ((execute x r t).1) u
    → execute x r u ≡ (ok result, u)
execute-again x r ready t u result reached made is returned later =
    let reached_after = next reached (executed r t) in
    let (row, found, inside, status, has) =
      Later-Stored x (scope r) result reached_after
        (execute-Stored x r ready t result reached made is returned) later in
    let closed = (Reachable-Bounded x (Later-Reachable x reached_after later)).0 in
    execute-replay x r ready made is u.calls u.ledger result
      (claim-replay (scope r) u.ledger row result closed found inside status has)
