-- ===== src/Samples/Data.antt =====
-- A workflow of two nodes, a world in which every turn succeeds, and a run of it from its start.
use ravana.Prelude.{String, true, false, none, some, [], ◌∷◌}
use ravana.Prelude.Int.{pos}
use ravana.Exception.{ok}
use ravana.Value.{bool}
use ravana.Schema.{
  WorkflowSpec, GraphNode, GraphEdge, AgentConfig, ToolkitConfig, ToolkitType, omitted, Join,
  append, terminal,
}
use ravana.Graph.{CompiledGraph}
use ravana.Expr.{Evaluator}
use ravana.Usage.{RawTurn, an_int}
use ravana.Store.{RunStatus, Db}
use ravana.Loop.{Ctx, Env, Meanwhile, Contention, returned}

abbrev pub writer : AgentConfig
writer = record {
  id = "writer";
  toolkits = "search" ∷ [];
  skills = [];
  hitl = none;
  output_schema = none;
}

abbrev pub search : ToolkitConfig
search = record {
  id = "search";
  type = ToolkitType.web_search;
  auth_ref = none;
  description = none;
}

abbrev pub plain_node : String → GraphNode
plain_node id = record {
  id = id;
  agent = some "writer";
  sub_workflow = none;
  on_enter = none;
  toolkits = none;
  hitl = omitted;
  output_schema = omitted;
  join = Join.any;
}

abbrev pub forward : GraphEdge
forward = record {
  source = "draft";
  to = "review" ∷ [];
  condition = some "state.ok";
  is_default = false;
  priority = pos 1;
}

abbrev pub again : GraphEdge
again = record {
  source = "draft";
  to = "draft" ∷ [];
  condition = none;
  is_default = false;
  priority = pos 0;
}

abbrev pub finish : GraphEdge
finish = record {
  source = "review";
  to = terminal ∷ [];
  condition = none;
  is_default = true;
  priority = pos 0;
}

abbrev pub spec : WorkflowSpec
spec = record {
  concurrency = none;
  state = record { fields = ("notes", append) ∷ []; initial = [] };
  toolkits = search ∷ [];
  skills = [];
  agents = writer ∷ [];
  graph = record {
    entry = "draft";
    nodes = plain_node "draft" ∷ plain_node "review" ∷ [];
    edges = again ∷ forward ∷ finish ∷ [];
    guards = record {
      max_total_steps = 5;
      max_loop_iterations = ("draft_to_draft", 2) ∷ [];
      max_tool_calls_per_turn = 3;
      max_output_repairs = 1;
      max_retries_per_node = 2;
      max_tokens_total = some 1000;
    };
  };
  definition_of_done = some (record { evaluated_by = "writer"; criteria = "state.ok" ∷ [] });
}

abbrev pub graph : CompiledGraph
graph = record {
  spec = spec;
  nodes_by_id = ("draft", plain_node "draft") ∷ ("review", plain_node "review") ∷ [];
  agents_by_id = ("writer", writer) ∷ [];
  toolkits_by_id = ("search", search) ∷ [];
  skills_by_id = [];
  conditional_edges_by_source = ("draft", forward ∷ again ∷ []) ∷ [];
  default_edge_by_source = ("review", finish) ∷ [];
  inbound_sources = ("draft", "draft" ∷ []) ∷ ("review", "draft" ∷ []) ∷ [];
}

abbrev pub evaluator : Evaluator
evaluator = record {
  eval = λ text state. ok (bool true);
  parse = λ text. ok tt;
  is_unicode_word = λ code. false;
}

abbrev pub turn : RawTurn
turn = record {
  structured_payload = ("ok", bool true) ∷ [];
  content = some "done";
  tool_calls = [];
  input_tokens = an_int (pos 7);
  output_tokens = an_int (pos 3);
  repair_count = 0;
  tool_call_count = 1;
}

abbrev pub world : Env
world = record {
  evaluator = evaluator;
  run_turn = λ request. returned turn;
  meanwhile = λ request. Meanwhile.quiet;
  contention = λ execution round. Contention.quiet;
  digest = λ parts. parts.tool;
  rng = λ n. n;
  judge = none;
  judge_meanwhile = Meanwhile.quiet;
  faults = record { event_write = false; status_write = false; fallback_write = false };
}

-- The same world, with a cancel while the definition of done is judged.
abbrev pub cancelling : Env
cancelling = record world { judge_meanwhile = Meanwhile.cancelled }

abbrev pub fresh : Db
fresh = record {
  run = record {
    status = RunStatus.running;
    shared_state = [];
    state_version = 1;
    agent_db_ids = ("draft", "row_1") ∷ ("review", "row_1") ∷ [];
  };
  executions = [];
  log = [];
  hitl = [];
  messages = [];
}

abbrev pub start : Ctx
start = record {
  graph = graph;
  con = record { durable = fresh; db = fresh };
  queue = "draft" ∷ [];
  terminal_reached = false;
  failed = false;
  next_id = 1;
  sleeps = [];
}

abbrev pub arrived : Ctx
arrived = record start { queue = []; terminal_reached = true }
