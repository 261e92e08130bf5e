-- ===== src/Gateway/Turn/Node.antt =====
-- `run_turn` from its chain on: the primary model of the agent, then its fallback entries. The
-- lookup of the agent and its contract and the prompt stand before it.
use ravana.Prelude.{ℕ, List, ◌∷◌, map}
use ravana.Exception.{Result}
use ravana.Gateway.{LlmConfig, LlmFallbackEntry, World, fallback_to_llm}
use ravana.Gateway.Fallback.{run_with_fallback}
use ravana.Gateway.Turn.{TurnEnv, TurnResult}
use ravana.Gateway.Turn.Rounds.{run_one_llm}

-- agent.llm with its `fallback`
pub record AgentLlm : Type 0 where
  pub primary : LlmConfig
  pub fallback : List LlmFallbackEntry

abbrev pub chain_of : AgentLlm → List LlmConfig
chain_of agent = agent.primary ∷ map fallback_to_llm agent.fallback

-- what the injected `retry_sleep` was asked
abbrev pub sleep_for : ℕ → World → World
sleep_for delay w = record w { sleeps = delay ∷ w.sleeps }

unfoldable pub run_turn : (ℕ → ℕ) → TurnEnv → AgentLlm → World → Result TurnResult × World
run_turn rng e agent w = run_with_fallback (run_one_llm e) sleep_for rng (chain_of agent) w
