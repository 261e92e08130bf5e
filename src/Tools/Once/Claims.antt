-- ===== src/Tools/Once/Claims.antt =====
-- What a claim of an idempotency key gives.
use ravana.Prelude.{
  ◌≡◌, refl, String, true, Option, none, some, str_eq_refl, arith, if◌then◌else◌, if_cases, inl,
  inr, ap, sym, subst, is_some, Option-cases,
}
use ravana.Exception.{Result, ok, raise}
use ravana.Dict.{get, put}
use ravana.Tools.Ledger.{
  Ledger, Invocation, InvocationStatus, started, succeeded, failed, commit, Scope, in_scope, claim,
  claim_prior, fresh, restarted, replay, is_failed,
}
use ravana.Tools.Once.{allowance, status_of}

-- What a claim gives: the row is started in the claim's scope, and stood for no call before.
abbrev pub Claimed : Scope → Ledger → Ledger → Type 0
Claimed s l m =
    (row : Invocation) × (in_scope s row ≡ true)
    × (row.status ≡ started)
    × (allowance (status_of l.current s.key) ≡ 0)
    × (m ≡ commit (put l.current s.key row))

-- The key has a row of the scope that succeeded with a result.
abbrev pub Stored : Scope → Ledger → String → Type 0
Stored s l result =
    (row : Invocation) × (get l.current s.key ≡ some row)
    × (in_scope s row ≡ true)
    × (row.status ≡ succeeded)
    × (row.result ≡ some result)

abbrev pub ClaimAnswer : Scope → Ledger → Result (Option String) × Ledger → Type 0
ClaimAnswer s l (ok none, m) = Claimed s l m
ClaimAnswer s l (ok (some result), m) = (m ≡ l) × Stored s l result
ClaimAnswer s l (raise e, m) = m ≡ l

pub failed-allowance :
    (l : Ledger) (key : String) (prior : Invocation)
    → get l.current key ≡ some prior
    → is_failed prior.status ≡ true
    → allowance (status_of l.current key) ≡ 0
failed-allowance l key prior found fails = ground (arith, found, fails)

pub replay-ClaimAnswer :
    (s : Scope) (l : Ledger) (prior : Invocation) (st : InvocationStatus) (result : Option String)
    → (m : Ledger) → m ≡ l
    → get l.current s.key ≡ some prior
    → in_scope s prior ≡ true
    → prior.status ≡ st
    → prior.result ≡ result
    → ClaimAnswer s l (replay st result, m)
replay-ClaimAnswer s l prior succeeded (some x) m h found inside is has =
    (h, (prior, found, inside, is, has))
replay-ClaimAnswer s l prior succeeded none m h found inside is has = h
replay-ClaimAnswer s l prior started x m h found inside is has = h
replay-ClaimAnswer s l prior failed x m h found inside is has = h

pub commit-current : (l : Ledger) → l.durable ≡ l.current → commit l.current ≡ l
commit-current l closed = ap (λ rows. record { durable = rows; current = l.current }) (sym closed)

pub claim_prior-ClaimAnswer :
    (s : Scope) (l : Ledger) (prior : Invocation)
    → commit l.current ≡ l
    → get l.current s.key ≡ some prior
    → ClaimAnswer s l (claim_prior s l (some prior))
claim_prior-ClaimAnswer s l prior closed found =
    if_cases (ClaimAnswer s l) (in_scope s prior)
      (λ inside.
        if_cases (ClaimAnswer s l) (is_failed prior.status)
          (λ fails.
            (restarted prior, inside, refl, failed-allowance l s.key prior found fails, refl))
          (λ other.
            replay-ClaimAnswer s l prior prior.status prior.result _ closed found inside refl refl))
      (λ outside. closed)

pub claim-ClaimAnswer :
    (s : Scope) (l : Ledger) → l.durable ≡ l.current → ClaimAnswer s l (claim s l)
unfolding claim
claim-ClaimAnswer s l closed = elim (Option-cases (get l.current s.key)) [
  | inl missing ↦
      subst
        (λ o. ClaimAnswer s l (
          if is_some o
          then claim_prior s l o
          else (ok none, commit (put l.current s.key (fresh s)))))
        (sym missing)
        (
          fresh s,
          ground (arith, str_eq_refl s.run_id, str_eq_refl s.node_id, str_eq_refl s.tool),
          refl,
          ground (arith, missing),
          refl,
        )
  | inr (prior, here) ↦
      subst
        (λ o. ClaimAnswer s l (
          if is_some o
          then claim_prior s l o
          else (ok none, commit (put l.current s.key (fresh s)))))
        (sym here) (claim_prior-ClaimAnswer s l prior (commit-current l closed) here)
]
