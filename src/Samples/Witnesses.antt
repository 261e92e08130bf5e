-- ===== src/Samples/Witnesses.antt =====
-- The theorems on the loop at small inputs.
use ravana.Prelude.{
  ◌≡◌, refl, true, false, none, some, [], ◌∷◌, keep, find, arith, ◌==◌, if◌then◌else◌,
}
use ravana.Value.{bool}
use ravana.Usage.{AgentTurnResult}
use ravana.Graph.Edges.{sort_by_priority}
use ravana.Graph.Outgoing.{leaves, is_catch_all}
use ravana.Loop.{Meanwhile, Step, Env, Contention, other_cancel}
use ravana.Loop.Commit.{prepare_tool_calls, commit_turn}
use ravana.Loop.Route.{route}
use ravana.Loop.Finalize.{finalize_status}
use ravana.Loop.Drain.{drain}
use ravana.Loop.Joins.{join_arrivals-push}
use ravana.Store.{join_arrivals}
use ravana.Prelude.{contains}
use ravana.Loop.{push_event}
use ravana.Loop.Commit.{commit_event}
use ravana.Loop.Route.{route_event}
use ravana.Loop.Dispatch.{settle}
use ravana.Loop.Rejection.{Fails, settle-IsFailure}
use ravana.Loop.Resume.{Resumption, resume_hitl}
use ravana.Loop.Resume.Answered.{resume_hitl-IsConsistent}
use ravana.Store.{HitlRequest, HitlStatus}
use ravana.Loop.{Ctx}
use ravana.Loop.Invariant.{Good}
use ravana.Loop.Invariant.Runs.{Ends}
use ravana.Loop.Numbering.{IsConsistent, drain-IsConsistent}
use ravana.Loop.Termination.{drain_ends}
use ravana.Loop.Atomic.{AllOrNothing, commit_turn-AllOrNothing}
use ravana.Loop.Route.Choice.{Routed, route-Routed}
use ravana.Loop.Outcome.Ends.{left, IsSettled}
use ravana.Loop.Outcome.{
  Completion, finalize_status-Completion, finalize_status-IsSettled, finalize_status-cancel,
}
use ravana.Samples.Data.{spec, graph, world, cancelling, start, arrived, fresh}
use ravana.Samples.Runs.{compiles, nobody_asked, arrived_completes}

-- Another writer commits before the first attempt to write a turn.
abbrev contended : Env
contended = record world {
  contention = λ execution round. if round == 2 then Contention.written [] else Contention.quiet;
}

abbrev result : AgentTurnResult
result = record {
  structured_payload = ("notes", bool true) ∷ [];
  content = some "done";
  tool_calls =
      record {
        tool = "search";
        arguments = [];
        logical_visit_id = none;
        tool_call_ordinal = none;
        idempotency_key = none;
      }
      ∷ [];
  usage = record { input_tokens = 7; output_tokens = 3 };
  repair_count = 0;
  tool_call_count = 1;
}

drain-IsConsistent_example : Ends (Good graph (IsConsistent 5)) (drain world 13 start)
drain-IsConsistent_example =
    drain-IsConsistent graph world 13 start refl refl
      (record { numbered = tt; attempts = tt; within = omega arith })

drain_ends_example : (s : Step) × (drain world 13 start ≡ some s)
drain_ends_example = drain_ends graph world 13 start refl refl (omega arith) (omega arith)

commit_turn-AllOrNothing_example :
    AllOrNothing contended 2 "draft" result
      (prepare_tool_calls contended "draft" 1 result.tool_calls)
      start
      (commit_turn contended 2 "draft" result 1 start)
commit_turn-AllOrNothing_example = commit_turn-AllOrNothing contended 2 "draft" result 1 start refl

route-Routed_example :
    Routed world "draft" 2
      (("ok", bool true) ∷ [])
      start
      (sort_by_priority (keep (leaves "draft") spec.graph.edges))
      (find (is_catch_all "draft") spec.graph.edges)
      (route world "draft" 2 (("ok", bool true) ∷ []) start)
route-Routed_example = route-Routed world "draft" 2 (("ok", bool true) ∷ []) start spec compiles

finalize_status-Completion_example : Completion world arrived (finalize_status world arrived)
finalize_status-Completion_example =
    finalize_status-Completion world arrived refl refl arrived_completes

finalize_status-IsSettled_example : IsSettled (finalize_status world arrived)
finalize_status-IsSettled_example = finalize_status-IsSettled world arrived refl refl refl refl

finalize_status-cancel_example :
    (left (finalize_status cancelling arrived)).con.durable ≡ other_cancel fresh
finalize_status-cancel_example =
    finalize_status-cancel cancelling arrived refl refl refl refl nobody_asked refl

abbrev greedy : AgentTurnResult
greedy = record result { tool_call_count = 4 }

settle-IsFailure_example : Fails "draft" start (settle world "draft" 2 1 1 greedy start)
settle-IsFailure_example = settle-IsFailure world "draft" 2 1 1 greedy start refl

abbrev request : HitlRequest
request = record {
  id = 9;
  node_id = "draft";
  question = "Human input required";
  assignee = none;
  status = HitlStatus.pending;
  response = none;
}

-- A run that waits for a human.
abbrev waiting : Ctx
waiting = record start {
  con = record {
    durable = record fresh { hitl = request ∷ [] };
    db = record fresh { hitl = request ∷ [] };
  };
}

abbrev resumption : Resumption
resumption = record {
  hitl_request_id = 9;
  response = ("ok", bool true) ∷ [];
  is_pinned = true;
  preparation_error = none;
  meanwhile = Meanwhile.quiet;
  other_response = some (("ok", bool false) ∷ []);
}

resume_hitl-IsConsistent_example :
    Ends (Good graph (IsConsistent 5)) (resume_hitl world 13 resumption waiting)
resume_hitl-IsConsistent_example =
    resume_hitl-IsConsistent graph world 13 resumption waiting refl refl
      (record { numbered = tt; attempts = tt; within = omega arith })

join_arrivals-push_example :
    ((join_arrivals (push_event (commit_event "draft" 2 [] 1) fresh) "draft" ≡ [])
      × (join_arrivals (push_event (commit_event "draft" 2 [] 1) fresh) "review"
          ≡ join_arrivals fresh "review"))
    × (contains
          (join_arrivals (push_event (route_event "review" "draft" none 2) fresh) "draft")
          "review"
        ≡ true)
join_arrivals-push_example = join_arrivals-push fresh "draft" "review" "review" 2 1 [] none tt refl
