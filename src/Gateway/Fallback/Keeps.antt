-- ===== src/Gateway/Fallback/Keeps.antt =====
-- What every try and every sleep keeps, the chain keeps.
use ravana.Prelude.{ℕ, zero, suc, Bool, true, false, ◌||◌, List, [], ◌∷◌}
use ravana.Exception.{provider_error, Result, ok, raise}
use ravana.Gateway.{LlmConfig}
use ravana.Gateway.Fallback.{
  EntryEnd, answered, ended, retry_delay, sleep_then, after_try, try_entry, after_entry, run_chain,
  run_with_fallback,
}

module _ {A W : Type 0} (run_one : LlmConfig → W → Result A × W) (retry_sleep : ℕ → W → W)
    (rng : ℕ → ℕ) (Kept : W → Type 0)
    (try_keeps : (llm : LlmConfig) (w : W) → Kept w → Kept ((run_one llm w).1))
    (sleep_keeps : (d : ℕ) (w : W) → Kept w → Kept (retry_sleep d w)) where
  pub after_try-Kept :
      (retry : W → EntryEnd A × W) (out : Result A × W)
      → Kept out.1
      → ((v : W) → Kept v → Kept ((retry v).1))
      → Kept ((after_try run_one retry_sleep rng retry out).1)
  after_try-Kept retry (ok a, w) h more = h
  after_try-Kept retry (raise (provider_error false), w) h more = h
  after_try-Kept retry (raise (provider_error true), w) h more = more w h
  after_try-Kept retry (raise e, w) h more = h

  pub sleep_then-Kept :
      (delay : Result ℕ) (next : W → EntryEnd A × W) (w : W)
      → ((v : W) → Kept v → Kept ((next v).1))
      → Kept w
      → Kept ((sleep_then run_one retry_sleep rng delay next w).1)
  sleep_then-Kept (ok delay) next w more h = more (retry_sleep delay w) (sleep_keeps delay w h)
  sleep_then-Kept (raise e) next w more h = h

  pub try_entry-Kept :
      (llm : LlmConfig) (left index : ℕ) (w : W)
      → Kept w
      → Kept ((try_entry run_one retry_sleep rng llm left index w).1)
  unfolding try_entry
  try_entry-Kept llm zero index w h =
      after_try-Kept (λ v. (ended true, v)) (run_one llm w) (try_keeps llm w h) (λ v kept. kept)
  try_entry-Kept llm (suc left) index w h =
      after_try-Kept _ (run_one llm w) (try_keeps llm w h) (λ v kept.
        sleep_then-Kept (retry_delay run_one retry_sleep rng index) _ v (try_entry-Kept llm left _)
          kept)

  pub after_entry-Kept :
      (next : Bool → W → Result A × W) (flag : Bool) (end : EntryEnd A × W)
      → ((f : Bool) (v : W) → Kept v → Kept ((next f v).1))
      → Kept end.1
      → Kept ((after_entry run_one retry_sleep rng next flag end).1)
  after_entry-Kept next flag (answered a, v) more h = h
  after_entry-Kept next flag (ended b, v) more h = more (flag || b) v h

  pub run_chain-Kept :
      (chain : List LlmConfig) (flag : Bool) (w : W)
      → Kept w
      → Kept ((run_chain run_one retry_sleep rng chain flag w).1)
  unfolding run_chain
  run_chain-Kept [] flag w h = h
  run_chain-Kept (llm ∷ chain) flag w h =
      after_entry-Kept (run_chain run_one retry_sleep rng chain) flag
        (try_entry run_one retry_sleep rng llm 1 0 w) (run_chain-Kept chain)
        (try_entry-Kept llm 1 0 w h)

  pub run_with_fallback-Kept :
      (chain : List LlmConfig) (w : W)
      → Kept w
      → Kept ((run_with_fallback run_one retry_sleep rng chain w).1)
  unfolding run_with_fallback
  run_with_fallback-Kept chain w h = run_chain-Kept chain false w h
