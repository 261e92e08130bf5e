-- ===== src/Loop/Route.antt =====
-- `_route`, `_fire_edge` and `_raise_hitl`: what follows a committed turn.
pub mod Choice
use ravana.Prelude.{
  ℕ, zero, suc, ◌+◌, String, Bool, true, false, not, ◌&&◌, ◌||◌, Option, none, some, List, [], ◌∷◌,
  ◌++◌, contains, subset, str_eq, leb, or_else, if◌then◌else◌,
}
use Prim.Native.String.{◌++◌ as string_append}
use ravana.Exception.{Exception, Result, ok, raise}
use ravana.Dict.{get}
use ravana.Value.{State}
use ravana.Schema.{GraphEdge, GraphNode, GraphGuards, HitlConfig, Join, terminal}
use ravana.Graph.{
  CompiledGraph, NodeExecutionContract, node, contract_for_node, outgoing, has_outgoing_edges,
}
use ravana.Expr.{Evaluator, eval_condition}
use ravana.Store.{
  NodeStatus, NodeExecution, EventType, Failure, LogEvent, HitlRequest, HitlStatus, Db,
  edge_fire_count, join_arrivals,
}
use ravana.Loop.{
  Ctx, Step, done, raised, ◌>>=◌, Env, guards, set_db, commit, event, log_event, update_rows,
  set_rows,
}
use ravana.Loop.Commit.{has_id}
use ravana.Loop.Fail.{fail_run}

-- f"{edge.from_}_to_{target}"
abbrev pub loop_key : String → String → String
loop_key source target = string_append source (string_append "_to_" target)

abbrev pub reaches_cap : ℕ → Option ℕ → Bool
reaches_cap fired none = false
reaches_cap fired (some cap) = leb cap fired

abbrev pub target_is_capped : Db → GraphGuards → String → String → Bool
target_is_capped d guards source target =
    reaches_cap (edge_fire_count d source target)
      (get guards.max_loop_iterations (loop_key source target))

abbrev pub any_capped : Db → GraphGuards → String → List String → Bool
any_capped d guards source [] = false
any_capped d guards source (target ∷ targets) =
    target_is_capped d guards source target || any_capped d guards source targets

-- _edge_is_loop_capped
unfoldable pub edge_is_loop_capped : Db → GraphEdge → GraphGuards → Bool
edge_is_loop_capped d edge guards = any_capped d guards edge.source edge.to

abbrev pub enqueue : String → Ctx → Ctx
enqueue target c = record c { queue = c.queue ++ target ∷ [] }

abbrev pub reach_terminal : Ctx → Ctx
reach_terminal c = record c { terminal_reached = true }

-- The arrival is the ROUTE event; the node is queued when its arrivals cover its sources.
abbrev pub arrive_at_join : String → Ctx → Ctx
arrive_at_join target c =
    let required = or_else (get c.graph.inbound_sources target) [] in
    if subset required (join_arrivals c.con.db target) && not (contains c.queue target)
    then enqueue target c
    else c

abbrev pub deliver : String → Join → Ctx → Ctx
deliver target Join.any c = enqueue target c
deliver target Join.all c = arrive_at_join target (commit c)

abbrev pub deliver_to : String → Result GraphNode → Ctx → Step
deliver_to target (ok n) c = done (deliver target n.join c)
deliver_to target (raise e) c = raised e c

abbrev pub route_event : String → String → Option String → ℕ → LogEvent
route_event source target condition execution =
    record (event EventType.route (some source) (some execution)) {
      to_node = some target;
      condition_evaluated = condition;
      result = some true;
    }

unfoldable pub fire_target : String → String → Option String → ℕ → Ctx → Step
fire_target source target condition execution c =
    let logged = log_event (route_event source target condition execution) c in
    if str_eq target terminal
    then done (reach_terminal logged)
    else deliver_to target (node c.graph target) logged

unfoldable pub fire_targets : String → List String → Option String → ℕ → Ctx → Step
fire_targets source [] condition execution c = done c
fire_targets source (target ∷ targets) condition execution c =
    fire_target source target condition execution c >>= λ c'.
    fire_targets source targets condition execution c'

-- _fire_edge
unfoldable pub fire_edge : String → GraphEdge → ℕ → Ctx → Step
fire_edge source edge execution c =
    fire_targets source edge.to edge.condition execution c >>= λ c'. done (commit c')

abbrev pub await_human : NodeExecution → NodeExecution
await_human r = record r { status = NodeStatus.waiting_human }

-- `hitl.prompt_template or "Human input required"`
abbrev prompt : Option String → String
prompt (some (String.◌∷◌ ch s)) = String.◌∷◌ ch s
prompt _ = "Human input required"

abbrev pub add_request : String → HitlConfig → Ctx → Ctx
add_request node_id hitl c = record c {
  con = record {
    durable = c.con.durable;
    db = record c.con.db {
      hitl =
          record {
            id = c.next_id;
            node_id = node_id;
            question = prompt hitl.prompt_template;
            assignee = hitl.assignee;
            status = HitlStatus.pending;
            response = none;
          }
          ∷ c.con.db.hitl;
    };
  };
  next_id = c.next_id + 1;
}

-- _raise_hitl
unfoldable pub raise_hitl : String → ℕ → HitlConfig → Ctx → Ctx
raise_hitl node_id execution hitl c = commit (
    log_event (event EventType.hitl_raised (some node_id) (some execution)) (
      add_request node_id hitl
        (set_rows (update_rows (has_id execution) await_human c.con.db.executions) c)))

module _ (env : Env) (node_id : String) (execution : ℕ) (shared_state : State) where
  abbrev pub eligible : Option String → Result Bool
  eligible none = ok true
  eligible (some condition) = eval_condition env.evaluator condition shared_state

  -- No condition matched: HITL, then the default edge, then a failure, or an implicit terminal.
  abbrev pub terminate : Ctx → Ctx
  terminate c =
      reach_terminal
        (commit (log_event (event EventType.terminate (some node_id) (some execution)) c))

  abbrev pub dead_end : Ctx → Step
  dead_end c =
      if has_outgoing_edges c.graph node_id
      then done (fail_run env node_id Failure.no_matching_route none c)
      else done (terminate c)

  abbrev pub use_default : Option GraphEdge → Ctx → Step
  use_default (some edge) c = fire_edge node_id edge execution c
  use_default none c = dead_end c

  abbrev pub ask_human : HitlConfig → Option GraphEdge → Result Bool → Ctx → Step
  ask_human hitl default (ok true) c = done (raise_hitl node_id execution hitl c)
  ask_human hitl default (ok false) c = use_default default c
  ask_human hitl default (raise e) c = raised e c

  abbrev pub consult : Option HitlConfig → Option GraphEdge → Ctx → Step
  consult none default c = use_default default c
  consult (some hitl) default c =
      if hitl.enabled
      then ask_human hitl default (eval_condition env.evaluator hitl.trigger_condition shared_state)
          c
      else use_default default c

  abbrev pub fall_through : Result NodeExecutionContract → Option GraphEdge → Ctx → Step
  fall_through (ok contract) default c = consult contract.hitl default c
  fall_through (raise e) default c = raised e c

  abbrev pub try_edge : GraphEdge → Result Bool → Step → Ctx → Step
  try_edge edge (ok true) rest c = fire_edge edge.source edge execution c
  try_edge edge (ok false) rest c = rest
  try_edge edge (raise e) rest c = raised e c

  -- the loop over the conditional edges, in order
  unfoldable pub route_edges : List GraphEdge → Option GraphEdge → Ctx → Step
  route_edges [] default c = fall_through (contract_for_node c.graph node_id) default c
  route_edges (edge ∷ edges) default c =
      let rest = route_edges edges default c in
      if edge_is_loop_capped c.con.db edge (guards c)
      then rest
      else try_edge edge (eligible edge.condition) rest c

  unfoldable pub route : Ctx → Step
  route c = route_edges (outgoing c.graph node_id).0 (outgoing c.graph node_id).1 c
