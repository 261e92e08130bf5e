-- ===== src/JsonSchema/Valid.antt =====
-- What holds when a step of a validation returns, and what has been checked when one has nothing to
-- report.
pub mod Finite
pub mod Authored
pub mod Answers
use ravana.Prelude.{String, Option, none, some}
use ravana.JsonSchema.{Outcome, stop, done, Work, Budget, ◌then_do◌}

-- What holds when a step returns.
abbrev pub Ended {ℓ κ} : {A : Type ℓ} → (A → Type κ) → Outcome A × Budget → Type κ
Ended Q (stop s, b) = Unit
Ended Q (done a, b) = Q a

pub then_do-Ended {ℓ κ μ ν} :
    {A : Type ℓ} {B : Type κ} (Q : A → Type μ) (R : B → Type ν) (first : Outcome A × Budget)
    (next : A → Work B)
    → Ended Q first
    → ((a : A) (c : Budget) → Q a → Ended R (next a c))
    → Ended R (first then_do next)
then_do-Ended Q R (stop s, b) next h more = tt
then_do-Ended Q R (done a, b) next h more = more a b h

-- After a step of which nothing is asked.
pub then_do-any {ℓ κ ν} :
    {A : Type ℓ} {B : Type κ} (R : B → Type ν) (first : Outcome A × Budget) (next : A → Work B)
    → ((a : A) (c : Budget) → Ended R (next a c))
    → Ended R (first then_do next)
then_do-any R (stop s, b) next more = tt
then_do-any R (done a, b) next more = more a b

-- What holds when nothing is reported.
abbrev pub Silent {ℓ} : Type ℓ → Option String → Type ℓ
Silent P none = P
Silent P (some message) = Unit

Ended-pair :
    {A : Type 0} (P : Type 0) (R : Type 0) (out : Outcome A × Budget)
    → P
    → Ended (λ _. R) out
    → Ended (λ _. P × R) out
Ended-pair P R (stop s, b) p r = tt
Ended-pair P R (done a, b) p r = (p, r)

-- Two steps that each establish something, whatever they hand on.
pub then_do-both :
    {A : Type 0} {B : Type 0} (P : Type 0) (R : Type 0) (first : Outcome A × Budget)
    (next : A → Work B)
    → Ended (λ _. P) first
    → ((a : A) (c : Budget) → Ended (λ _. R) (next a c))
    → Ended (λ _. P × R) (first then_do next)
then_do-both P R (stop s, b) next h more = tt
then_do-both P R (done a, b) next h more = Ended-pair P R (next a b) h (more a b)

pub Silent-both {ℓ κ} :
    (P : Type ℓ) (R : Type κ) (found : Option String) → P → Silent R found → Silent (P × R) found
Silent-both P R none p r = (p, r)
Silent-both P R (some message) p r = tt

pub Ended-Silent {ℓ κ} :
    (P : Type ℓ) (R : Type κ) (out : Outcome (Option String) × Budget)
    → P
    → Ended (Silent R) out
    → Ended (Silent (P × R)) out
Ended-Silent P R (stop s, b) p h = tt
Ended-Silent P R (done found, b) p h = Silent-both P R found p h
