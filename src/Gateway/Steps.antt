-- ===== src/Gateway/Steps.antt =====
-- Steps that may raise, in a world that stays when they do: how the gateway's parts are put
-- together, and how a statement about one of them goes on to the next.
use ravana.Exception.{Result, ok, raise}

-- One after another, in the world `W` that the first leaves.
abbrev pub and_then {ℓ κ} :
    {A : Type ℓ} {B : Type κ} {W : Type 0} → Result A × W → (A → W → Result B × W) → Result B × W
and_then (raise e, w) next = (raise e, w)
and_then (ok a, w) next = next a w

-- How a part of a turn ends: what holds when it returns, and what holds when it raises.
abbrev pub Ends {ℓ κ} :
    {A : Type ℓ} {W : Type 0} → (A → W → Type κ) → (W → Type κ) → Result A × W → Type κ
Ends Q P (raise e, w) = P w
Ends Q P (ok a, w) = Q a w

pub and_then-Ends {ℓ κ μ} :
    {A : Type ℓ} {B : Type κ} {W : Type 0} (Q : A → W → Type μ) (R : B → W → Type μ)
    (P : W → Type μ) (first : Result A × W) (next : A → W → Result B × W)
    → Ends Q P first
    → ((a : A) (w : W) → Q a w → Ends R P (next a w))
    → Ends R P (and_then first next)
and_then-Ends Q R P (raise e, w) next h more = h
and_then-Ends Q R P (ok a, w) next h more = more a w h

pub Ends-mono {ℓ μ} :
    {A : Type ℓ} {W : Type 0} (Q R : A → W → Type μ) (P : W → Type μ) (out : Result A × W)
    → ((a : A) (w : W) → Q a w → R a w)
    → Ends Q P out
    → Ends R P out
Ends-mono Q R P (raise e, w) more h = h
Ends-mono Q R P (ok a, w) more h = more a w h
