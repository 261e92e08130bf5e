-- ===== src/Loop/Invariant/Turns.antt =====
-- The rule for `_dispatch`: a property may change its form when the new attempt is inserted, which
-- happens only while the step budget lasts.
use ravana.Prelude.{
  ℕ, ◌+◌, ◌<◌, String, ◌≡◌, refl, true, false, ◌⊎◌, Option, none, some, ◌∷◌, Bool-cases, inl, inr,
  length, leb, ltb, arith,
}
use ravana.Exception.{Result, ok, raise}
use ravana.Value.{State}
use ravana.Schema.{GraphNode, AgentConfig}
use ravana.Graph.{CompiledGraph, node, agent_for_node}
use ravana.Expr.OnEnter.{apply_on_enter}
use ravana.Usage.{AgentTurnResult, total}
use ravana.Backoff.{backoff_delay}
use ravana.Store.{Db, Failure, consecutive_failures}
use ravana.Loop.{Ctx, Step, done, raised, Env, guards, pass}
use ravana.Loop.Commit.{Round, committed, conflict, failed, has_id, commit_turn, commit_state}
use ravana.Loop.Fail.{mark_failed, fail_run}
use ravana.Loop.Dispatch.{
  Checked, accepted, transient, broken, would_exceed_token_cap, new_row, start_attempt, put_back,
  sleep_then_put_back, retry_base, retry_cap, retry_turn, check_turn, after_commit, settle,
  finish_turn, request, run_turn, after_enter, enter_delta, on_enter, enter, begin, dispatch,
}
use ravana.Loop.Invariant.{
  Stable, Good, AfterStep, AfterRound, Good-commit, Good-pass, Good-fail_run,
}
use ravana.Loop.Invariant.Steps.{Good-update_rows, Good-commit_state, Good-commit_turn}
use ravana.Loop.Invariant.Routes.{if_rule, Good-route}

module _ (g : CompiledGraph) (P : Db → Type 0) (st : Stable P) (env : Env) (node_id : String) where
  Good-put_back : (c : Ctx) → Good g P c → Good g P (put_back node_id c)
  Good-put_back c h = record { same_graph = h.same_graph; durable = h.durable; current = h.current }

  Good-sleep_then_put_back :
      (r : Result ℕ) (c : Ctx) → Good g P c → AfterStep (Good g P) (sleep_then_put_back node_id r c)
  Good-sleep_then_put_back (ok d) c h = record {
    same_graph = h.same_graph;
    durable = h.durable;
    current = h.current;
  }
  Good-sleep_then_put_back (raise e) c h = h

  module _ (execution visit streak : ℕ) where
    Good-retry_turn :
        (c : Ctx) → Good g P c → AfterStep (Good g P) (retry_turn env node_id execution streak c)
    unfolding retry_turn
    Good-retry_turn c h =
        let k = Good-commit g P st (
          Good-update_rows g P st (has_id execution) (mark_failed Failure.transient) c
            (λ r. (refl, refl, refl)) h) in
        if_rule (AfterStep (Good g P)) (ltb (guards c).max_retries_per_node streak)
          (Good-put_back _ k)
          (Good-sleep_then_put_back (backoff_delay env.rng retry_base retry_cap streak) _ k)

    Good-after_commit :
        (r : Round)
        → AfterRound (Good g P) r
        → AfterStep (Good g P) (after_commit env node_id execution visit streak r)
    Good-after_commit (committed shared_state c) h =
        Good-route g P st env node_id execution shared_state c h
    Good-after_commit (conflict c) h =
        Good-fail_run g P st env node_id Failure.commit_failed none c h
    Good-after_commit (failed e c) h =
        Good-fail_run g P st env node_id Failure.commit_failed none c h

    Good-settle :
        (result : AgentTurnResult) (c : Ctx)
        → Good g P c
        → AfterStep (Good g P) (settle env node_id execution visit streak result c)
    Good-settle result c h =
        let turn = some (record { result = result; logical_visit_id = visit }) in
        if_rule (AfterStep (Good g P))
          (ltb (guards c).max_tool_calls_per_turn result.tool_call_count)
          (Good-fail_run g P st env node_id Failure.max_tool_calls_per_turn turn c h)
          (if_rule (AfterStep (Good g P)) (ltb (guards c).max_output_repairs result.repair_count)
            (Good-fail_run g P st env node_id Failure.max_output_repairs turn c h)
            (if_rule (AfterStep (Good g P))
              (would_exceed_token_cap c.con.db (guards c).max_tokens_total (total result.usage))
              (Good-fail_run g P st env node_id Failure.max_tokens_total turn c h)
              (Good-after_commit (commit_turn env execution node_id result visit c)
                (Good-commit_turn g P st env execution node_id result visit c h))))

    Good-finish_turn :
        (k : Checked) (c : Ctx)
        → Good g P c
        → AfterStep (Good g P) (finish_turn env node_id execution visit streak k c)
    unfolding finish_turn
    Good-finish_turn (accepted result) c h = Good-settle result c h
    Good-finish_turn transient c h = Good-retry_turn c h
    Good-finish_turn broken c h = Good-fail_run g P st env node_id Failure.turn_failed none c h

    Good-run_turn :
        (agent : AgentConfig) (attempt : ℕ) (shared_state : State) (c : Ctx)
        → Good g P c
        → AfterStep
            (Good g P)
            (run_turn env node_id execution visit streak agent attempt shared_state c)
    unfolding run_turn
    Good-run_turn agent attempt shared_state c h =
        let r = request env node_id execution visit streak agent attempt shared_state in
        Good-finish_turn (check_turn (env.run_turn r)) (pass (env.meanwhile r) c)
          (Good-pass g P st (env.meanwhile r) c h)

    Good-after_enter :
        (agent : AgentConfig) (attempt : ℕ) (r : Round)
        → AfterRound (Good g P) r
        → AfterStep (Good g P) (after_enter env node_id execution visit streak agent attempt r)
    Good-after_enter agent attempt (committed shared_state c) h =
        Good-run_turn agent attempt shared_state c h
    Good-after_enter agent attempt (conflict c) h = h
    Good-after_enter agent attempt (failed e c) h = h

    Good-enter_delta :
        (agent : AgentConfig) (attempt : ℕ) (r : Result State) (c : Ctx)
        → Good g P c
        → AfterStep (Good g P) (enter_delta env node_id execution visit streak agent attempt r c)
    Good-enter_delta agent attempt (ok delta) c h =
        Good-after_enter agent attempt
          (commit_state execution node_id c.con.db.run.shared_state delta c)
          (Good-commit_state g P st execution node_id c.con.db.run.shared_state delta c h)
    Good-enter_delta agent attempt (raise e) c h = h

    Good-on_enter :
        (agent : AgentConfig) (attempt : ℕ) (expr : Option String) (c : Ctx)
        → Good g P c
        → AfterStep (Good g P) (on_enter env node_id execution visit streak agent attempt expr c)
    Good-on_enter agent attempt (some (String.◌∷◌ ch s)) c h =
        Good-enter_delta agent attempt
          (apply_on_enter env.evaluator (String.◌∷◌ ch s) c.con.db.run.shared_state) c h
    Good-on_enter agent attempt (some String.[]) c h =
        Good-run_turn agent attempt c.con.db.run.shared_state c h
    Good-on_enter agent attempt none c h = Good-run_turn agent attempt c.con.db.run.shared_state c h

    pub Good-enter :
        (attempt : ℕ) (agent : Result AgentConfig) (n : Result GraphNode) (c : Ctx)
        → Good g P c
        → AfterStep (Good g P) (enter env node_id execution visit streak attempt agent n c)
    unfolding enter
    Good-enter attempt (ok agent) (ok n) c h = Good-on_enter agent attempt n.on_enter c h
    Good-enter attempt (ok agent) (raise e) c h = h
    Good-enter attempt (raise e) n c h = h

-- What `Q` asks of the insertion of an attempt into tables where `P` holds.
abbrev pub Inserts : (P Q : Db → Type 0) → CompiledGraph → Type 0
Inserts P Q g =
    (c : Ctx) (node_id : String)
    → c.graph ≡ g
    → length c.con.db.executions < (guards c).max_total_steps
    → P c.con.db
    → Q (record c.con.db { executions = new_row c node_id ∷ c.con.db.executions })

-- After a dispatch: it failed the run before any attempt, or an attempt was made.
abbrev pub Dispatched : CompiledGraph → (P Q : Db → Type 0) → Step → Type 0
Dispatched g P Q (done c) = ((c.failed ≡ true) × Good g P c) ⊎ Good g Q c
Dispatched g P Q (raised e c) = Good g Q c

attempted :
    (g : CompiledGraph) (P Q : Db → Type 0) (s : Step) → AfterStep (Good g Q) s → Dispatched g P Q s
attempted g P Q (done c) h = inr h
attempted g P Q (raised e c) h = h

module _ (g : CompiledGraph) (P Q : Db → Type 0) (sp : Stable P) (sq : Stable Q)
    (ins : Inserts P Q g) (env : Env) (node_id : String) where
  refused :
      (error : Failure) (c : Ctx)
      → Good g P c
      → Dispatched g P Q (done (fail_run env node_id error none c))
  unfolding fail_run
  refused error c h = inl (refl, Good-fail_run g P sp env node_id error none c h)

  Good-begin :
      (failures : ℕ) (c : Ctx)
      → leb (guards c).max_total_steps (length c.con.db.executions) ≡ false
      → Good g P c
      → AfterStep
          (Good g Q)
          (begin env node_id failures (new_row c node_id) (start_attempt node_id c))
  unfolding start_attempt
  Good-begin failures c room h =
      let q = ins c node_id h.same_graph (ground arith) h.current in
      let row = new_row c node_id in
      Good-enter g Q sq env node_id row.id row.logical_visit_id (failures + 1) row.attempt
        (agent_for_node c.graph node_id) (node c.graph node_id) (start_attempt node_id c)
        (record { same_graph = h.same_graph; durable = q; current = q })

  pub Good-dispatch : (c : Ctx) → Good g P c → Dispatched g P Q (dispatch env node_id c)
  unfolding dispatch
  Good-dispatch c h =
      let failures = consecutive_failures c.con.db node_id in
      elim (Bool-cases (ltb (guards c).max_retries_per_node failures)) [
        | inl spent ↦ rw spent (refused Failure.max_retries_per_node c h)
        | inr left ↦
            elim (Bool-cases (leb (guards c).max_total_steps (length c.con.db.executions))) [
              | inl full ↦ rw (left, full) (refused Failure.max_total_steps c h)
              | inr room ↦
                  rw (left, room)
                    (attempted g P Q
                      (begin env node_id failures (new_row c node_id) (start_attempt node_id c))
                      (Good-begin failures c room h))
            ]
      ]
