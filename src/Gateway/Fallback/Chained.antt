-- ===== src/Gateway/Fallback/Chained.antt =====
-- What a chain answers, said without its loops and flags: by the entries that failed before.
use ravana.Prelude.{
  ℕ, Bool, true, false, ◌||◌, List, [], ◌∷◌, any, ◌≢◌, ◌≡◌, ◌⊎◌, inl, inr, sym, subst, arith, ap,
  ◌∙◌, refl, ◌≤◌,
}
use ravana.Exception.{provider_error, Result, ok, raise}
use ravana.Backoff.{backoff_delay_within}
use ravana.Gateway.{LlmConfig}
use ravana.Gateway.Fallback.{
  entry_retry_base, entry_retry_cap, EntryEnd, answered, ended, chain_error, retry_delay,
  sleep_then, after_try, try_entry, after_entry, run_chain, run_with_fallback,
}

abbrev pub some_true : List Bool → Bool
some_true bs = any (λ b. b) bs

pub or_assoc : (a b c : Bool) → ((a || b) || c) ≡ (a || (b || c))
or_assoc true b c = refl
or_assoc false b c = refl

pub or_false : (a : Bool) → a ≡ (a || false)
or_false true = refl
or_false false = refl

module _ {A W : Type 0} (run_one : LlmConfig → W → Result A × W) (retry_sleep : ℕ → W → W) where
  -- An answer that the chain does not respond to.
  abbrev pub IsFinal : Result A → Type 0
  IsFinal answer = (retryable : Bool) → answer ≢ raise (provider_error retryable)

  -- The tries of one entry, and what the last of them answered: one, or two with a sleep between
  -- when the first failed retryably. The sleep is of one or two half seconds.
  pub data Tries (llm : LlmConfig) (w : W) : Result A → W → Type 0 where
    once :
        {answer : Result A} {v : W}
        → run_one llm w ≡ (answer, v)
        → answer ≢ raise (provider_error true)
        → Tries llm w answer v
    twice :
        {answer : Result A} {u v : W} (delay : ℕ)
        → run_one llm w ≡ (raise (provider_error true), u)
        → 1 ≤ delay
        → delay ≤ 2
        → run_one llm (retry_sleep delay u) ≡ (answer, v)
        → Tries llm w answer v

  -- Every entry of the chain ends with a ProviderError; `ends` says which of these are retryable.
  pub data Exhausted : List LlmConfig → W → (ends : List Bool) → W → Type 0 where
    nobody : {w : W} → Exhausted [] w [] w
    after :
        {llm : LlmConfig} {chain : List LlmConfig} {w v u : W} {b : Bool} {ends : List Bool}
        → Tries llm w (raise (provider_error b)) v
        → Exhausted chain v ends u
        → Exhausted (llm ∷ chain) w (b ∷ ends) u

  -- An entry answers otherwise, and every entry before it ends with a ProviderError.
  pub data Stopped : List LlmConfig → W → Result A → W → Type 0 where
    here :
        {llm : LlmConfig} {chain : List LlmConfig} {w v : W} {answer : Result A}
        → Tries llm w answer v
        → IsFinal answer
        → Stopped (llm ∷ chain) w answer v
    later :
        {llm : LlmConfig} {chain : List LlmConfig} {w v u : W} {b : Bool} {answer : Result A}
        → Tries llm w (raise (provider_error b)) v
        → Stopped chain v answer u
        → Stopped (llm ∷ chain) w answer u

  abbrev pub Chained : List LlmConfig → W → Bool → Result A × W → Type 0
  Chained chain w flag (answer, v) =
      ((ends : List Bool) × Exhausted chain w ends v
        × (answer ≡ raise (chain_error (flag || some_true ends))))
      ⊎ Stopped chain w answer v

  module _ (rng : ℕ → ℕ) (rng_bound : (n : ℕ) → rng n ≤ n) where
    abbrev pub EntryWell : LlmConfig → W → EntryEnd A × W → Type 0
    EntryWell llm w (answered a, v) = Tries llm w a v × IsFinal a
    EntryWell llm w (ended b, v) = Tries llm w (raise (provider_error b)) v

    pub last_try-EntryWell :
        (llm : LlmConfig) (w u : W) (delay : ℕ) (out : Result A × W)
        → run_one llm w ≡ (raise (provider_error true), u)
        → 1 ≤ delay
        → delay ≤ 2
        → run_one llm (retry_sleep delay u) ≡ out
        → EntryWell llm w (after_try run_one retry_sleep rng (λ v. (ended true, v)) out)
    last_try-EntryWell llm w u delay (ok a, v) first low high second =
        (twice delay first low high second, λ b h. cc)
    last_try-EntryWell llm w u delay (raise (provider_error true), v) first low high second =
        twice delay first low high second
    last_try-EntryWell llm w u delay (raise (provider_error false), v) first low high second =
        twice delay first low high second
    last_try-EntryWell llm w u delay (raise e, v) first low high second =
        (twice delay first low high second, λ b h. cc)

    pub first_try-EntryWell :
        (llm : LlmConfig) (w : W) (out : Result A × W)
        → run_one llm w ≡ out
        → EntryWell llm w (
            after_try run_one retry_sleep rng
              (sleep_then run_one retry_sleep rng
                (retry_delay run_one retry_sleep rng 0)
                (try_entry run_one retry_sleep rng llm 0 1))
              out)
    unfolding try_entry
    first_try-EntryWell llm w (ok a, v) first = (once first (λ h. cc), λ b h. cc)
    first_try-EntryWell llm w (raise (provider_error false), v) first = once first (λ h. cc)
    first_try-EntryWell llm w (raise (provider_error true), v) first =
        let (delay, slept, low, high) =
          backoff_delay_within rng rng_bound entry_retry_base entry_retry_cap 1 (omega arith)
            (omega arith) in
        subst
          (λ d.
            EntryWell llm w
              (sleep_then run_one retry_sleep rng d (try_entry run_one retry_sleep rng llm 0 1) v))
          (sym slept)
          (last_try-EntryWell llm w v delay (run_one llm (retry_sleep delay v)) first low high refl)
    first_try-EntryWell llm w (raise e, v) first = (once first (λ h. cc), λ b h. cc)

    pub after_entry-Chained :
        (llm : LlmConfig) (chain : List LlmConfig) (w : W) (flag : Bool)
        → ((v : W) (f : Bool) → Chained chain v f (run_chain run_one retry_sleep rng chain f v))
        → (end : EntryEnd A × W) → EntryWell llm w end
        → Chained
            (llm ∷ chain)
            w
            flag
            (after_entry run_one retry_sleep rng (run_chain run_one retry_sleep rng chain) flag end)
    after_entry-Chained llm chain w flag rest (answered a, v) (tries, final) =
        inr (here tries final)
    after_entry-Chained llm chain w flag rest (ended b, v) tries =
        moved_on (run_chain run_one retry_sleep rng chain (flag || b) v) (rest v (flag || b))
      where
        moved_on :
            (out : Result A × W)
            → Chained chain v (flag || b) out
            → Chained (llm ∷ chain) w flag out
        moved_on (answer, u) (inl (ends, all, is)) = inl (
          b ∷ ends,
          after tries all,
          is ∙ ap (λ f. raise (chain_error f)) (or_assoc flag b (some_true ends)),
        )
        moved_on (answer, u) (inr stopped) = inr (later tries stopped)

    pub run_chain-Chained :
        (chain : List LlmConfig) (w : W) (flag : Bool)
        → Chained chain w flag (run_chain run_one retry_sleep rng chain flag w)
    unfolding run_chain try_entry
    run_chain-Chained [] w flag = inl ([], nobody, ap (λ f. raise (chain_error f)) (or_false flag))
    run_chain-Chained (llm ∷ chain) w flag =
        after_entry-Chained llm chain w flag (run_chain-Chained chain) _
          (first_try-EntryWell llm w (run_one llm w) refl)

    -- With a random draw of at most its bound, the chain tries its entries in order, each once or,
    -- when its first try failed retryably, twice with one or two half seconds of sleep between. The
    -- first answer that is no ProviderError is the chain's. When every entry ends with a
    -- ProviderError, the chain raises: transiently when an entry's last try was retryable, else
    -- permanently. So no ProviderError leaves the chain.
    pub run_with_fallback-Chained :
        (chain : List LlmConfig) (w : W)
        → Chained chain w false (run_with_fallback run_one retry_sleep rng chain w)
    unfolding run_with_fallback
    run_with_fallback-Chained chain w = run_chain-Chained chain w false
