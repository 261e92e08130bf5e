-- ===== src/Gateway/Fallback.antt =====
-- `_run_with_fallback`: the entries of a chain in order, each with one retry of its own. `run_one`
-- is what differs between a node's turn and a judgement.
pub mod Chained
pub mod Cost
pub mod Keeps
use ravana.Prelude.{ℕ, zero, suc, ◌+◌, Bool, true, false, ◌||◌, List, [], ◌∷◌, if◌then◌else◌}
use ravana.Exception.{Exception, provider_error, transient_error, runtime_error, Result, ok, raise}
use ravana.Backoff.{backoff_delay}
use ravana.Gateway.{LlmConfig}

abbrev pub per_entry_retries : ℕ
per_entry_retries = 1

-- in seconds
abbrev pub entry_retry_base : ℕ
entry_retry_base = 1

abbrev pub entry_retry_cap : ℕ
entry_retry_cap = 10

-- How an entry ends: with an answer that leaves the chain (a result, or an exception that is no
-- ProviderError), or with a last ProviderError.
pub data EntryEnd {ℓ} (A : Type ℓ) : Type ℓ where
  answered : Result A → EntryEnd A
  ended : (retryable : Bool) → EntryEnd A

abbrev pub chain_error : Bool → Exception
chain_error any_entry_ended_retryable =
    if any_entry_ended_retryable then transient_error else runtime_error

module _ {A W : Type 0} (run_one : LlmConfig → W → Result A × W) (retry_sleep : ℕ → W → W)
    (rng : ℕ → ℕ) where
  abbrev pub retry_delay : ℕ → Result ℕ
  retry_delay try_index = backoff_delay rng entry_retry_base entry_retry_cap (try_index + 1)

  -- `await self._retry_sleep(backoff_delay(…))`, then the next try
  abbrev pub sleep_then : Result ℕ → (W → EntryEnd A × W) → W → EntryEnd A × W
  sleep_then (ok delay) next w = next (retry_sleep delay w)
  sleep_then (raise e) next w = (answered (raise e), w)

  abbrev pub after_try : (W → EntryEnd A × W) → Result A × W → EntryEnd A × W
  after_try retry (ok a, w) = (answered (ok a), w)
  after_try retry (raise (provider_error false), w) = (ended false, w)
  after_try retry (raise (provider_error true), w) = retry w
  after_try retry (raise e, w) = (answered (raise e), w)

  -- `for try_index in range(…)`, by the tries that are left after this one
  unfoldable pub try_entry : LlmConfig → ℕ → ℕ → W → EntryEnd A × W
  try_entry llm zero try_index w = after_try (λ v. (ended true, v)) (run_one llm w)
  try_entry llm (suc left) try_index w =
      after_try (sleep_then (retry_delay try_index) (try_entry llm left (try_index + 1)))
        (run_one llm w)

  abbrev pub after_entry : (Bool → W → Result A × W) → Bool → EntryEnd A × W → Result A × W
  after_entry next any_retryable (answered a, w) = (a, w)
  after_entry next any_retryable (ended retryable, w) = next (any_retryable || retryable) w

  unfoldable pub run_chain : List LlmConfig → Bool → W → Result A × W
  run_chain [] any_retryable w = (raise (chain_error any_retryable), w)
  run_chain (llm ∷ chain) any_retryable w =
      after_entry (run_chain chain) any_retryable (try_entry llm per_entry_retries 0 w)

  -- _run_with_fallback
  unfoldable pub run_with_fallback : List LlmConfig → W → Result A × W
  run_with_fallback chain w = run_chain chain false w
