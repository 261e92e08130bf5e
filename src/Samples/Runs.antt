-- ===== src/Samples/Runs.antt =====
-- Runs of the model on a small workflow.
use ravana.Prelude.{◌≡◌, refl, false, Option, none, some, List, [], ◌∷◌, ◌++◌, map}
use ravana.Exception.{ok}
use ravana.Store.{RunStatus, EventType, LogEvent, has_pending_hitl}
use ravana.Loop.{Ctx, Step, done, raised, Env, Meanwhile}
use ravana.Loop.Outcome.Ends.{left, final_status}
use ravana.Loop.Drain.{drain}
use ravana.Loop.Finalize.{finalize_status}
use ravana.Secrets.{redact_secrets}
use ravana.Samples.Data.{spec, graph, world, cancelling, start, arrived, fresh}
use ravana.Validate.{validate}
use ravana.Graph.Compile.{compile_workflow}

pub compiles : compile_workflow spec ≡ ok graph
unfolding compile_workflow ravana.Graph.Compile.by_id ravana.Dict.get ravana.Graph.Edges.add_edges
    ravana.Graph.Compile.check_node ravana.Graph.Edges.sort_values
compiles = refl

-- The advisory checks find nothing in the graph.
validates : validate graph ≡ some (ok [])
unfolding validate ravana.Validate.Search.reachable ravana.Validate.Search.visit
    ravana.Validate.Search.targets ravana.Graph.outgoing ravana.Dict.get
    ravana.Validate.Search.push_all ravana.Validate.missing_safety_net ravana.Validate.safety_net_of
    ravana.Validate.broadcast_merge_conflicts ravana.Validate.conflicts_of
    ravana.Validate.edge_conflicts ravana.Validate.unreachable_nodes ravana.Validate.sorted
    ravana.Validate.join_sanity ravana.Validate.join_sanity_of ravana.Graph.join_all_nodes
validates = refl

abbrev status_of : Option Step → Option RunStatus
status_of none = none
status_of (some s) = some (final_status s)

abbrev events_of : Option Step → List EventType
events_of none = []
events_of (some s) = map (λ e. e.event_type) (left s).con.durable.log

abbrev summary_of : Option Step → List (Option RunStatus × List EventType)
summary_of s = (status_of s, events_of s) ∷ []

abbrev two_turns : List EventType
two_turns = EventType.route ∷ EventType.commit ∷ EventType.route ∷ EventType.commit ∷ []

-- The run takes two turns, completes, and logs what it did, the newest event first; when it is
-- cancelled while it is judged, the verdict is not logged.
completes :
    summary_of (drain world 13 start) ++ summary_of (drain cancelling 13 start)
    ≡ (some RunStatus.completed, EventType.dod_evaluated ∷ two_turns)
      ∷ (some RunStatus.cancelled, two_turns)
      ∷ []
unfolding ravana.Loop.update_rows ravana.Loop.Commit.prepare_from
    ravana.Loop.Commit.prepare_tool_calls ravana.Loop.Commit.insert_turn_message
    ravana.Loop.Commit.write_round ravana.Loop.Commit.commit_round ravana.Loop.Commit.commit_rounds
    ravana.Loop.Commit.commit_turn ravana.Loop.Fail.fail_run ravana.Loop.Route.edge_is_loop_capped
    ravana.Loop.Route.fire_target ravana.Loop.Route.fire_targets ravana.Loop.Route.fire_edge
    ravana.Loop.Route.raise_hitl ravana.Loop.Route.route_edges ravana.Loop.Route.route
    ravana.Loop.Dispatch.would_exceed_token_cap ravana.Loop.Dispatch.logical_visit_for_dispatch
    ravana.Loop.Dispatch.start_attempt ravana.Loop.Dispatch.leaks_secret
    ravana.Loop.Dispatch.check_turn ravana.Loop.Dispatch.retry_turn ravana.Loop.Dispatch.finish_turn
    ravana.Loop.Dispatch.run_turn ravana.Loop.Dispatch.enter ravana.Loop.Dispatch.dispatch
    ravana.Loop.Finalize.join_criteria ravana.Loop.Finalize.decide ravana.Loop.Finalize.decide_dod
    ravana.Loop.Finalize.update_run_status_if_active ravana.Loop.Finalize.write_final
    ravana.Loop.Finalize.finalize_status ravana.Loop.Drain.pending_from
    ravana.Loop.Drain.pending_joins ravana.Loop.Drain.loop_once ravana.Loop.Drain.drain
    ravana.Store.next_sequence ravana.Store.insert_by_attempt ravana.Store.by_attempt
    ravana.Store.consecutive_failures ravana.Store.latest_execution ravana.Store.next_attempt
    ravana.Store.total_tokens ravana.Store.edge_fire_count ravana.Store.last_commit
    ravana.Store.join_arrivals ravana.Store.has_pending_hitl ravana.Graph.join_all_nodes
    ravana.Graph.node ravana.Graph.agent_for_node ravana.Graph.contract_for_node
    ravana.Graph.outgoing ravana.Graph.has_outgoing_edges ravana.Dod.met ravana.Dod.unmet
    ravana.Dod.unevaluated ravana.Dod.prose_criteria ravana.Dod.apply_prose_verdict
    ravana.Dod.as_dict ravana.Dod.evaluate_criteria ravana.Dod.evaluate_dod
    ravana.Usage.as_token_count ravana.Usage.llm_usage ravana.Secrets.match_secret
    ravana.Secrets.sweep ravana.Secrets.is_secret_text ravana.Secrets.state_contains_secret
    ravana.Expr.replace_pair ravana.Expr.replace_not ravana.Expr.replace_word ravana.Expr.translate
    ravana.Expr.eval_condition ravana.Expr.is_boolean_expression ravana.StateMerge.policy_of
    ravana.StateMerge.merge_value ravana.StateMerge.merge_into ravana.StateMerge.merge_delta
    ravana.Dict.get ravana.Dict.put ravana.Value.concat ravana.Value.update ravana.Value.get_field
completes = refl

pub nobody_asked : has_pending_hitl fresh ≡ false
unfolding has_pending_hitl
nobody_asked = refl

pub arrived_completes : final_status (finalize_status world arrived) ≡ RunStatus.completed
unfolding ravana.Loop.Dispatch.would_exceed_token_cap ravana.Loop.Finalize.join_criteria
    ravana.Loop.Finalize.decide ravana.Loop.Finalize.decide_dod
    ravana.Loop.Finalize.update_run_status_if_active ravana.Loop.Finalize.write_final
    ravana.Loop.Finalize.finalize_status ravana.Store.next_sequence ravana.Store.total_tokens
    ravana.Store.has_pending_hitl ravana.Dod.met ravana.Dod.unmet ravana.Dod.unevaluated
    ravana.Dod.prose_criteria ravana.Dod.apply_prose_verdict ravana.Dod.as_dict
    ravana.Dod.evaluate_criteria ravana.Dod.evaluate_dod ravana.Expr.replace_pair
    ravana.Expr.replace_not ravana.Expr.replace_word ravana.Expr.translate
    ravana.Expr.eval_condition ravana.Expr.is_boolean_expression ravana.Dict.get
arrived_completes = refl

redacts_key :
    redact_secrets "use sk-ant-a_1 or ghp_ab, Bearer  x.y!"
    ≡ "use ***REDACTED*** or ***REDACTED***, ***REDACTED***!"
unfolding redact_secrets
redacts_key = refl
