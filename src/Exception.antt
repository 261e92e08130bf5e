-- ===== src/Exception.antt =====
-- Python exceptions as values: a call that may raise returns a `Result`. The message text is left
-- out; the class is kept, since the handlers of the program go by it.
use ravana.Prelude.{◌≡◌, refl, Bool, true, false}

-- ToolFailureKind of runtime/toolkits/base.py
pub data ToolFailureKind : Type 0 where
  transient fatal model_addressable : ToolFailureKind

pub data Exception : Type 0 where
  value_error overflow_error syntax_error key_error type_error runtime_error compile_error
        eval_error :
      Exception
  operational_error transient_error terminal_persistence_error : Exception
  toolkit_error : (kind : ToolFailureKind) → Exception
  provider_error : (retryable : Bool) → Exception
  outcome_unknown retry_safe_cancellation cancelled_error : Exception
  agent_output_error secret_leak_error prose_judgement_error : Exception

pub data Result {ℓ} (A : Type ℓ) : Type ℓ where
  raise : Exception → Result A
  ok : A → Result A

abbrev pub is_ok {ℓ} : {A : Type ℓ} → Result A → Bool
is_ok (raise e) = false
is_ok (ok a) = true

-- `if not test: raise error`
abbrev pub guard : (test : Bool) (error : Exception) → Result (Unit {0})
guard false error = raise error
guard true error = ok tt

-- One statement after another, with and without a value handed on.
infixl 5 ◌>>=◌
abbrev pub ◌>>=◌ {ℓ κ} :
    {A : Type ℓ} {B : Type κ} (first : Result A) (next : A → Result B) → Result B
raise e >>= next = raise e
ok a >>= next = next a

pub >>=-eq-ok {ℓ κ} :
    {A : Type ℓ} {B : Type κ} (first : Result A) (next : A → Result B) {out : B}
    → (first >>= next) ≡ ok out
    → (value : A) × (first ≡ ok value) × (next value ≡ ok out)
>>=-eq-ok (raise e) next returned = cc
>>=-eq-ok (ok value) next returned = (value, refl, returned)

infixl 5 ◌>>◌
abbrev pub ◌>>◌ {ℓ} : {B : Type ℓ} (first : Result (Unit {0})) (next : Result B) → Result B
first >> next = first >>= λ done_. next

-- What a call returns, when it returns, by the statement that it ends with.
abbrev pub Returns {ℓ κ} : {A : Type ℓ} → (A → Type κ) → Result A → Type κ
Returns Q (raise e) = Unit
Returns Q (ok a) = Q a

pub >>=-Returns {ℓ κ μ} :
    {A : Type ℓ} {B : Type κ} (Q : B → Type μ) (first : Result A) (next : A → Result B)
    → ((a : A) → first ≡ ok a → Returns Q (next a))
    → Returns Q (first >>= next)
>>=-Returns Q (raise e) next h = tt
>>=-Returns Q (ok a) next h = h a refl

-- The same, when what the first call returns has a property.
pub >>=-Returns_from {ℓ κ μ ν} :
    {A : Type ℓ} {B : Type κ} (P : A → Type μ) (Q : B → Type ν) (first : Result A)
    (next : A → Result B)
    → Returns P first
    → ((a : A) → P a → Returns Q (next a))
    → Returns Q (first >>= next)
>>=-Returns_from P Q (raise e) next h more = tt
>>=-Returns_from P Q (ok a) next h more = more a h
