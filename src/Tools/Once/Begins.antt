-- ===== src/Tools/Once/Begins.antt =====
-- What stands before a call: an answer, or a call that is claimed under the request's key.
use ravana.Prelude.{◌≡◌, refl, String, true, false, Option, none, some, if_cases, subst}
use ravana.Exception.{Result, ok, raise, guard, Returns, >>=-Returns}
use ravana.Tools.{resolve}
use ravana.Tools.Ledger.{Ledger, claim}
use ravana.Tools.Execute.{
  Executor, ToolRequest, Ready, Begun, calling, answered, scope, make_ready, begin_ready,
  after_claim, schema_of,
}
use ravana.Tools.Once.Claims.{Claimed, ClaimAnswer, claim-ClaimAnswer}

-- What `begin` gives: an answer that leaves the ledger alone, or a call under the request's key,
-- claimed when it is side-effecting.
abbrev pub BegunWell : ToolRequest → Ledger → Begun → Type 0
BegunWell r l (answered a m) = m ≡ l
BegunWell r l (calling ready m) =
    (ready.call.idempotency_key ≡ r.idempotency_key)
    × ((ready.side_effecting ≡ true → Claimed (scope r) l m)
        × (ready.side_effecting ≡ false → m ≡ l))

abbrev pub KeyOf : ToolRequest → Ready → Type 0
KeyOf r ready = ready.call.idempotency_key ≡ r.idempotency_key

pub make_ready-KeyOf : (x : Executor) (r : ToolRequest) → Returns (KeyOf r) (make_ready x r)
unfolding make_ready
make_ready-KeyOf x r = >>=-Returns (KeyOf r) (resolve x.handlers r.tool r.run_id) _ (λ resolved _.
    >>=-Returns (KeyOf r) (schema_of resolved r.run_id) _ (λ schema _.
      >>=-Returns (KeyOf r) (guard (x.validate_json r.arguments schema) _) _ (λ _ _. refl)))

pub make_ready-key :
    (x : Executor) (r : ToolRequest) (ready : Ready) → make_ready x r ≡ ok ready → KeyOf r ready
make_ready-key x r ready h = subst (Returns (KeyOf r)) h (make_ready-KeyOf x r)

pub after_claim-BegunWell :
    (r : ToolRequest) (l : Ledger) (ready : Ready)
    → ready.call.idempotency_key ≡ r.idempotency_key
    → ready.side_effecting ≡ true
    → (answer : Result (Option String) × Ledger) → ClaimAnswer (scope r) l answer
    → BegunWell r l (after_claim ready answer)
after_claim-BegunWell r l ready key is (ok none, m) h = (key, ((λ _. h), (λ not. cc)))
after_claim-BegunWell r l ready key is (ok (some result), m) h = h.0
after_claim-BegunWell r l ready key is (raise e, m) h = h

pub begin-BegunWell :
    (x : Executor) (r : ToolRequest) (l : Ledger)
    → l.durable ≡ l.current
    → (result : Result Ready) → make_ready x r ≡ result
    → BegunWell r l (begin_ready r l result)
begin-BegunWell x r l closed (raise e) h = refl
begin-BegunWell x r l closed (ok ready) h =
    if_cases (BegunWell r l) ready.side_effecting
      (λ is.
        after_claim-BegunWell r l ready (make_ready-key x r ready h) is (claim (scope r) l)
          (claim-ClaimAnswer (scope r) l closed))
      (λ is. (make_ready-key x r ready h, ((λ not. cc), (λ _. refl))))
