-- ===== src/Lib.antt =====
-- A model of ravana, a workflow engine for LLM agents, with theorems on its core.
--
-- A workflow is a document of agents, toolkits and a graph of nodes. The compiler
-- (src/ravana/compiler/graph.py) checks the document and builds the routing tables. The engine
-- (src/ravana/engine/loop.py) drives a run: a queue of nodes, each dispatched as one agent turn
-- whose delta is merged into the shared state (engine/state_merge.py) and committed with an event
-- in an append-only log; a routing step then picks the next nodes by conditions (engine/expr.py), a
-- human, or a default edge. At the end the definition of done (engine/dod.py) decides the run's
-- status.
--
-- Which file models what, and how its names correspond to the code:
--   Schema: the models of src/ravana/schema/models.py, with their fields; `source` is `from_`.
--   Graph, with Graph.Edges and Graph.Compile: `CompiledGraph` and its queries, `compile_workflow`
--     with every check, the loop over the edges as `add_edges`, the stable descending sort.
--   Validate, with Validate.Search: the checks of src/ravana/compiler/validate.py; an issue's text
--     is kept by its kind. Validate.Net is about the safety-net warnings.
--   Value, StateMerge: JSON values and `merge_delta`.
--   Text, Expr, Expr.OnEnter: `_translate`, `eval_condition`, `is_boolean_expression`,
--     `apply_on_enter`.
--   Dod: src/ravana/engine/dod.py. Usage: the token counts and the turn of
--     src/ravana/runtime/base.py.
--   Backoff: src/ravana/runtime/backoff.py, with the OverflowError of a large power. Secrets: the
--     screening of src/ravana/runtime/secrets.py.
--   Store: the tables of src/ravana/schema/db.py for one run, and the queries of the engine.
--   Loop: the context and the connection. Its children are one function each of
--     src/ravana/engine/loop.py with its helpers: Loop.Commit `_commit_turn` and `_commit_state`,
--     Loop.Fail `_fail_run`, Loop.Route `_route`, `_fire_edge` and `_raise_hitl`, Loop.Dispatch
--     `_dispatch`, Loop.Finalize `_finalize_status` and `_decide_dod`, Loop.Drain `_drain_queue`,
--     Loop.Resume `resume_hitl`, Loop.Start `start_run` up to its first commit.
--   The other children of Loop are its proofs: Loop.Invariant is the rule for a property of the
--     tables that every kind of write keeps; Loop.Numbering, Loop.Termination, Loop.Atomic,
--     Loop.Outcome, Loop.Rejection, Loop.Joins, Loop.Resume.Answered and Loop.Route.Choice are about
--     what their names say.
--   Tools: `tools_for` and `_resolve` of src/ravana/runtime/tool_executor.py, on handlers as
--     src/ravana/runtime/toolkits/base.py describes them. Tools.Ledger: `_claim`, `_record` and
--     `_record_indeterminate`. Tools.Execute: `execute`, in a part before the call and a part after
--     it, so that a process can die in between. Tools.Snapshot:
--     src/ravana/runtime/toolkits/mcp_snapshot.py. Tools.Once, Tools.Offered and the children of
--     Tools.Snapshot are the proofs.
--   Gateway: the messages of src/ravana/runtime/providers/base.py and what
--     src/ravana/runtime/gateway.py looks up before a turn. Gateway.Fallback: `_run_with_fallback`.
--     Gateway.Turn: the tool calls of a turn; Gateway.Turn.Rounds: `_run_tool_loop`, `_run_guided`
--     and `_run_one_llm`; Gateway.Turn.Node: `run_turn`. Gateway.Judge: `judge_prose` and
--     `_judge_completion`; Gateway.Verdicts: `_map_verdicts`. Gateway.Steps puts steps together
--     that may raise. The other children are the proofs.
--   JsonSchema: src/ravana/runtime/schema_validate.py. JsonSchema itself has the budget of one
--     validation, JsonSchema.Walk the search for numbers that JSON does not have,
--     JsonSchema.Preflight the checks of a schema, JsonSchema.Keywords three of its keyword
--     validators, JsonSchema.Texts the bounded texts and JsonSchema.Validate `validate_json`.
--     JsonSchema.Bounded and JsonSchema.Valid are proofs.
--   Mcp: src/ravana/runtime/toolkits/mcp_server.py. Mcp.Allow has the checks of configurations,
--     Mcp.Pin `_pin_tools`, Mcp.Session what a handler meets, Mcp.Handler and Mcp.Call the methods.
--     Mcp.Usable, Mcp.Frozen and Mcp.Safe are proofs.
--   Samples: runs of the model on a small workflow, and the theorems at concrete inputs.
--
-- State and errors. A context has two copies of the tables, what is committed and what the open
-- transaction sees; `commit` and `rollback` move between them. A step goes on or raises, and in
-- both cases leaves a context. A Python exception is a value of `Exception`, without its message.
-- What the rest of the world does is the record `Env`: the answers of the agent runtime and of the
-- judge, the commits of other connections while the engine waits, the writes that the database
-- refuses, the digest of an idempotency key, the random source, and the expression evaluator
-- (simpleeval).
--
-- Fuel. `drain` takes fuel; so does `visit`, the search of `_reachable`, with a bound that
-- Validate.Search.Fuel is about; Loop.Termination says how much is enough, by the step budget that
-- every dispatch uses up. The three rounds of `_commit_turn` are a number of rounds.
--
-- The loops of the gateway count against a ceiling that is fixed before them, so they recurse on what
-- is left of it: rounds of the tool loop, repairs of the guided loop and of the judgement.
--
-- The gateway and its tools. The gateway calls the executor's `execute` and `tools_for`; both are
-- definitions here, not parameters. Parameters are the providers' answers, which may depend on
-- everything before, the handlers' answers, `json`, `validate_json`, the digest of an idempotency
-- key and the preparation of handlers. `World` records what the gateway asks and hands on. The
-- engine's `run_turn` in `Env` stays a parameter: the engine accepts any runtime.
--
-- MCP servers. A handler's state is the tools that it has pinned by run, and the rows of its snapshot
-- store. Each method is given the session that it meets: how its opening, its answers and its
-- closing end, by a value, an exception or a cancellation. The pages that `_pin_tools` lists until
-- its timeout are a number, since a server may have a new cursor on every page. The executor takes
-- any handler. It makes a call again after a reported failure, that is, an exception other than
-- ToolOutcomeUnknown and a plain cancellation; whether such a call had its effect is up to the
-- handler. Mcp.Safe is about what the MCP handler reports. Mcp.Executed has the handler as the
-- executor reads it, and the two together.
--
-- A resumption. `resume_hitl` awaits the preparation of its runtime between its check of the request
-- and its writes. Another writer may write then, and another resumption may answer the same request;
-- what that one's own loop writes afterwards is not interleaved.
--
-- Integers are Python's, without a bound; counts are natural numbers, and so are the guards of a
-- graph, which the schema does not bound below: a negative guard is outside the model. A token
-- count that is reported is an integer or another object until it is checked.
--
-- Schema validation. `validate_json` is modelled with a clock whose readings are arbitrary, with a
-- stack of bounded depth, and over the libraries jsonschema and referencing as parameters, which may
-- raise anything. Its values have floats; those of the gateway and the executor do not, so these
-- two keep `validate_json` as a field of what surrounds them.
--
-- Not modelled: floating-point numbers in the state; texts of errors and prompts; time stamps but
-- those of tool snapshots; identifiers of events and executions, which are numbers; other runs'
-- rows, but for `start_run`; the hand-off of a git workspace after completion, which changes no
-- status; the adapters of vendors; the HTTP clients, the processes and the sandbox of toolkits; how
-- jsonschema calls its keyword validators back, and the validators of `uniqueItems` and
-- `unevaluatedProperties`; the preparation, release and closing of handlers but
-- those of MCP servers; and the persistence of documents.
pub mod Prelude
pub mod Exception
pub mod Dict
pub mod Value
pub mod Schema
pub mod StateMerge
pub mod Graph
pub mod Text
pub mod Secrets
pub mod Expr
pub mod Dod
pub mod Usage
pub mod Store
pub mod Backoff
pub mod JsonSchema
pub mod Mcp
pub mod Loop
pub mod Validate
pub mod Tools
pub mod Gateway
mod Samples
