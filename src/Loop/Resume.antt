-- ===== src/Loop/Resume.antt =====
-- `resume_hitl`: a human's answer is recorded, and its node is dispatched again. The audit row that
-- it writes is not among the tables of the run, and the release of the runtime changes no table.
pub mod Answered
use ravana.Prelude.{
  ℕ, suc, ◌+◌, String, Bool, true, false, Option, none, some, List, [], ◌∷◌, find, ◌==◌,
  if◌then◌else◌,
}
use ravana.Exception.{Exception, key_error, value_error, runtime_error}
use ravana.Value.{State}
use ravana.Store.{HitlRequest, HitlStatus, EventType, Role, Message, Db, is_pending}
use ravana.Loop.{
  Ctx, Step, raised, Env, Meanwhile, pass, set_db, commit, event, log_event, add_message,
}
use ravana.Loop.Drain.{drain}

-- The arguments of a resumption, with what the code outside this file answers: whether the graph is
-- the one that the run is pinned to, and the error of the runtime's `prepare_run`, if any. While that is awaited,
-- another writer may write, and another resumption, which has found the same request PENDING too,
-- may answer it.
pub record Resumption : Type 0 where
  pub hitl_request_id : ℕ
  pub response : State
  pub is_pinned : Bool
  pub preparation_error : Option Exception
  pub meanwhile : Meanwhile
  pub other_response : Option State

abbrev pub find_request : ℕ → Db → Option HitlRequest
find_request id d = find (λ h. h.id == id) d.hitl

abbrev pub answered_request : State → HitlRequest → HitlRequest
answered_request response h = record h { status = HitlStatus.answered; response = some response }

-- UPDATE hitl_request SET status = 'ANSWERED', response = ? WHERE id = ?
unfoldable pub update_request : ℕ → State → List HitlRequest → List HitlRequest
update_request id response [] = []
update_request id response (h ∷ hs) =
    (if h.id == id then answered_request response h else h) ∷ update_request id response hs

abbrev pub set_requests : List HitlRequest → Ctx → Ctx
set_requests hs c = set_db (record c.con.db { hitl = hs }) c

abbrev pub user_message : String → State → Message
user_message node_id response = record {
  node_id = node_id;
  sender_agent_id = none;
  role = Role.user;
  content = none;
  structured_payload = response;
  tool_calls = [];
}

-- The writes before the loop, and their commit.
unfoldable pub answer : Resumption → String → Ctx → Ctx
answer r node_id c = commit (
    log_event (event EventType.hitl_resolved (some node_id) none) (
      add_message (user_message node_id r.response)
        (set_requests (update_request r.hitl_request_id r.response c.con.db.hitl) c)))

-- A new `_RunCtx` for the node that asked.
abbrev pub requeue : String → Ctx → Ctx
requeue node_id c = record c {
  queue = node_id ∷ [];
  terminal_reached = false;
  failed = false;
  sleeps = [];
}

-- the answer of another resumption of the same request
abbrev pub answer_other : Resumption → String → Option State → Ctx → Ctx
answer_other r node_id none c = c
answer_other r node_id (some response) c = answer (record r { response = response }) node_id c

-- `await runtime.prepare_run(run_id)`
abbrev pub prepare : Resumption → String → Ctx → Ctx
prepare r node_id c = answer_other r node_id r.other_response (pass r.meanwhile c)

module _ (env : Env) (fuel : ℕ) (r : Resumption) (c : Ctx) where
  abbrev pub prepared : Option Exception → HitlRequest → Option Step
  prepared none h = drain env fuel (requeue h.node_id (answer r h.node_id (prepare r h.node_id c)))
  prepared (some e) h = some (raised e (prepare r h.node_id c))

  abbrev pub requested : Option HitlRequest → Option Step
  requested none = some (raised key_error c)
  requested (some h) =
      if is_pending h.status then prepared r.preparation_error h else some (raised value_error c)

-- `none` means that the loop ran out of fuel.
unfoldable pub resume_hitl : Env → ℕ → Resumption → Ctx → Option Step
resume_hitl env fuel r c =
    if r.is_pinned
    then requested env fuel r c (find_request r.hitl_request_id c.con.db)
    else some (raised value_error c)
