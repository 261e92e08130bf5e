-- ===== src/Gateway/Fallback/Cost.antt =====
-- What a chain can cost: a measure of the world that each try and each sleep raise by a bounded
-- amount is raised by twice that of a try, and once that of a sleep, for every entry.
use ravana.Prelude.{
  ℕ, suc, ◌+◌, ◌*◌, ◌≤◌, ◌≡◌, Bool, true, false, ◌||◌, List, [], ◌∷◌, length, arith, sym, subst,
}
use ravana.Exception.{provider_error, Result, ok, raise}
use ravana.Gateway.{LlmConfig}
use ravana.Gateway.Fallback.{
  EntryEnd, answered, ended, retry_delay, sleep_then, after_try, try_entry, after_entry, run_chain,
  run_with_fallback,
}

pub suc_times : (n l c : ℕ) → n + suc l * c ≡ (n + c) + l * c
suc_times n l c = grind arith

module _ {A W : Type 0} (run_one : LlmConfig → W → Result A × W) (retry_sleep : ℕ → W → W)
    (rng : ℕ → ℕ) (measure : W → ℕ) (try sleep : ℕ)
    (try_bound : (llm : LlmConfig) (w : W) → measure ((run_one llm w).1) ≤ measure w + try)
    (sleep_bound : (d : ℕ) (w : W) → measure (retry_sleep d w) ≤ measure w + sleep) where
  abbrev pub Costs : {B : Type 0} → ℕ → B × W → Type 0
  Costs n (b, w) = measure w ≤ n

  pub after_try-Costs :
      (n m : ℕ) (retry : W → EntryEnd A × W) (out : Result A × W)
      → Costs n out
      → n ≤ m
      → ((v : W) → measure v ≤ n → Costs m (retry v))
      → Costs m (after_try run_one retry_sleep rng retry out)
  after_try-Costs n m retry (ok a, w) h le more = omega (arith, h, le)
  after_try-Costs n m retry (raise (provider_error false), w) h le more = omega (arith, h, le)
  after_try-Costs n m retry (raise (provider_error true), w) h le more = more w h
  after_try-Costs n m retry (raise e, w) h le more = omega (arith, h, le)

  pub last_try-Costs :
      (llm : LlmConfig) (index n : ℕ) (w : W)
      → measure w ≤ n
      → Costs (n + try) (try_entry run_one retry_sleep rng llm 0 index w)
  unfolding try_entry
  last_try-Costs llm index n w h =
      after_try-Costs (n + try) (n + try) (λ v. (ended true, v)) (run_one llm w)
        (omega (arith, h, try_bound llm w)) (omega arith) (λ v le. le)

  pub sleep_then-Costs :
      (delay : Result ℕ) (llm : LlmConfig) (n : ℕ) (v : W)
      → measure v ≤ n
      → Costs
          (n + sleep + try)
          (sleep_then run_one retry_sleep rng delay (try_entry run_one retry_sleep rng llm 0 1) v)
  sleep_then-Costs (ok delay) llm n v h =
      last_try-Costs llm 1 (n + sleep) (retry_sleep delay v) (omega (arith, h, sleep_bound delay v))
  sleep_then-Costs (raise e) llm n v h = omega (arith, h)

  abbrev pub entry_cost : ℕ
  entry_cost = try + sleep + try

  pub first_try-Costs :
      (llm : LlmConfig) (n : ℕ) (w : W)
      → measure w ≤ n
      → Costs (n + entry_cost) (try_entry run_one retry_sleep rng llm 1 0 w)
  unfolding try_entry
  first_try-Costs llm n w h =
      after_try-Costs (n + try) (n + entry_cost) _ (run_one llm w)
        (omega (arith, h, try_bound llm w)) (omega arith)
        (λ v le.
          let more = sleep_then-Costs (retry_delay run_one retry_sleep rng 0) llm (n + try) v le in
          omega (arith, more))

  pub after_entry-Costs :
      (chain : List LlmConfig) (flag : Bool) (n : ℕ)
      → ((f : Bool) (v : W)
          → measure v ≤ n + entry_cost
          → Costs
              ((n + entry_cost) + length chain * entry_cost)
              (run_chain run_one retry_sleep rng chain f v))
      → (end : EntryEnd A × W) → Costs (n + entry_cost) end
      → Costs
          (n + suc (length chain) * entry_cost)
          (after_entry run_one retry_sleep rng (run_chain run_one retry_sleep rng chain) flag end)
  after_entry-Costs chain flag n rest (answered a, v) h =
      subst (λ k. measure v ≤ k) (sym (suc_times n (length chain) entry_cost)) (omega (arith, h))
  after_entry-Costs chain flag n rest (ended b, v) h =
      subst (λ k. Costs k (run_chain run_one retry_sleep rng chain (flag || b) v))
        (sym (suc_times n (length chain) entry_cost)) (rest (flag || b) v h)

  pub run_chain-Costs :
      (chain : List LlmConfig) (flag : Bool) (n : ℕ) (w : W)
      → measure w ≤ n
      → Costs (n + length chain * entry_cost) (run_chain run_one retry_sleep rng chain flag w)
  unfolding run_chain
  run_chain-Costs [] flag n w h = omega (arith, h)
  run_chain-Costs (llm ∷ chain) flag n w h =
      after_entry-Costs chain flag n (λ f v. run_chain-Costs chain f (n + entry_cost) v)
        (try_entry run_one retry_sleep rng llm 1 0 w) (first_try-Costs llm n w h)

  pub run_with_fallback-Costs :
      (chain : List LlmConfig) (w : W)
      → Costs
          (measure w + length chain * entry_cost)
          (run_with_fallback run_one retry_sleep rng chain w)
  unfolding run_with_fallback
  run_with_fallback-Costs chain w = run_chain-Costs chain false (measure w) w (omega arith)
