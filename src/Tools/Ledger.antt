-- ===== src/Tools/Ledger.antt =====
-- The idempotency ledger: `_claim`, `_record` and `_record_indeterminate` on the rows of
-- `tool_invocation`, which their primary key makes a dictionary. INSERT OR IGNORE takes the
-- database's write lock, so a claim is one step; an error's text is kept by its class.
use ravana.Prelude.{
  String, Bool, true, false, ◌&&◌, Option, none, some, is_some, str_eq, if◌then◌else◌,
}
use ravana.Exception.{Exception, runtime_error, toolkit_error, fatal, Result, ok, raise}
use ravana.Dict.{Dict, get, put}

pub data InvocationStatus : Type 0 where
  started succeeded failed : InvocationStatus

pub record Invocation : Type 0 where
  pub run_id : String
  pub node_id : String
  pub tool : String
  pub status : InvocationStatus
  pub result : Option String
  pub error : Option Exception

-- What is committed, and what the open transaction sees, by `idempotency_key`.
pub record Ledger : Type 0 where
  pub durable : Dict Invocation
  pub current : Dict Invocation

abbrev pub commit : Dict Invocation → Ledger
commit rows = record { durable = rows; current = rows }

abbrev pub rollback : Ledger → Ledger
rollback l = record { durable = l.durable; current = l.durable }

-- The call that a row stands for.
pub record Scope : Type 0 where
  pub run_id : String
  pub node_id : String
  pub tool : String
  pub key : String

abbrev pub in_scope : Scope → Invocation → Bool
in_scope s r = str_eq r.run_id s.run_id && str_eq r.node_id s.node_id && str_eq r.tool s.tool

abbrev pub is_started : InvocationStatus → Bool
is_started started = true
is_started _ = false

abbrev pub is_failed : InvocationStatus → Bool
is_failed failed = true
is_failed _ = false

abbrev pub fresh : Scope → Invocation
fresh s = record {
  run_id = s.run_id;
  node_id = s.node_id;
  tool = s.tool;
  status = started;
  result = none;
  error = none;
}

abbrev pub restarted : Invocation → Invocation
restarted r = record r { status = started; result = none; error = none }

-- the last part of `_claim`
abbrev pub replay : InvocationStatus → Option String → Result (Option String)
replay succeeded (some result) = ok (some result)
replay succeeded none = raise runtime_error
replay started result = raise (toolkit_error fatal)
replay failed result = raise runtime_error

abbrev pub claim_prior : Scope → Ledger → Option Invocation → Result (Option String) × Ledger
claim_prior s l none = (raise runtime_error, rollback l)
claim_prior s l (some prior) =
    if in_scope s prior
    then (if is_failed prior.status
        then (ok none, commit (put l.current s.key (restarted prior)))
        else (replay prior.status prior.result, commit l.current))
    else (raise (toolkit_error fatal), commit l.current)

-- _claim: `ok none` is a claim, and `ok (some result)` a replay. The UPDATE of a FAILED row meets
-- the row that was just read, since no other writer comes between.
unfoldable pub claim : Scope → Ledger → Result (Option String) × Ledger
claim s l =
    let prior = claim_prior s l (get l.current s.key) in
    if is_some (get l.current s.key)
    then prior
    else (ok none, commit (put l.current s.key (fresh s)))

abbrev pub is_claimed : Scope → Option Invocation → Bool
is_claimed s none = false
is_claimed s (some r) = in_scope s r && is_started r.status

-- UPDATE … WHERE idempotency_key = ? AND run_id = ? AND … AND status = 'STARTED'
abbrev pub update_claimed :
    Scope → Ledger → (Invocation → Invocation) → Option Invocation → Result (Unit {0}) × Ledger
update_claimed s l f none = (raise runtime_error, rollback l)
update_claimed s l f (some r) =
    if in_scope s r && is_started r.status
    then (ok tt, commit (put l.current s.key (f r)))
    else (raise runtime_error, rollback l)

abbrev pub with_outcome :
    InvocationStatus → Option String → Option Exception → Invocation → Invocation
with_outcome status result error r = record r { status = status; result = result; error = error }

-- _record
unfoldable pub record_outcome :
    Scope
    → InvocationStatus
    → Option String
    → Option Exception
    → Ledger
    → Result (Unit {0}) × Ledger
record_outcome s status result error l =
    update_claimed s l (with_outcome status result error) (get l.current s.key)

abbrev pub with_error : Exception → Invocation → Invocation
with_error e r = record r { error = some e }

-- _record_indeterminate
unfoldable pub record_indeterminate : Scope → Exception → Ledger → Result (Unit {0}) × Ledger
record_indeterminate s e l = update_claimed s l (with_error e) (get l.current s.key)
