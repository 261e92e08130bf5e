-- ===== src/Samples/Documents.antt =====
-- The theorems on documents, states and counts at small inputs.
use mathlib.Core.List.{Perm}
use ravana.Prelude.{
  none, str_eq, if◌then◌else◌, List, String, ◌≡◌, ◌↔◌, refl, ◌≤◌, true, false, some, [], ◌∷◌, keep,
  find, any, all, contains, subset, length, All, arith,
}
use ravana.Prelude.Int.{ℤ, pos}
use ravana.Exception.{ok, raise, syntax_error}
use ravana.Dict.{get, has_key, keys, IsDict}
use ravana.Value.{State, Value, bool, arr, str, cons, nil, concat}
use ravana.Schema.{AgentConfig, append, DefinitionOfDone}
use ravana.Expr.{Evaluator}
use ravana.Graph.{NodeExecutionContract, outgoing, agent_for_node, contract_for_node}
use ravana.Graph.Edges.{sort_by_priority, get_list}
use ravana.Graph.Compile.{check_node, check_refs, check_judge}
use ravana.Graph.Outgoing.{leaves, is_catch_all, joins, KnownEnds}
use ravana.Graph.Order.{Descending, has_priority, sort_by_priority-IsStableSort}
use ravana.Graph.Sound.{outgoing-compile, inbound-compile, compile_workflow_sound}
use ravana.Graph.Contract.{contract-subset}
use ravana.StateMerge.{merge_delta, policy_of, merge_into, merge_value}
use ravana.StateMerge.Laws.{MergedKey, merge_delta-MergedKey, merge_delta_append_both}
use ravana.Dod.{
  approved, met, unmet, apply_prose_verdict, evaluate_dod, CriterionResult, DodResult, expression,
  prose,
}
use ravana.Dod.Gate.{Proven, met-apply_prose_verdict, met-unmet}
use ravana.Validate.{missing_safety_net}
use ravana.Validate.Search.{reachable}
use ravana.Validate.Search.Reach.{IsReachable}
use ravana.Validate.Search.Fuel.{reachable-IsReachable}
use ravana.Validate.Net.{IsCovered, missing_safety_net-IsCovered}
use ravana.Usage.{an_int, add_usage, LlmUsage}
use ravana.Backoff.{Outcome, backoff_delay, backoff_delay_bounds}
use ravana.Samples.Data.{spec, graph, evaluator, plain_node, again, forward, finish}
use ravana.Samples.Runs.{compiles}

compile_workflow_sound_example :
    (has_key graph.nodes_by_id "draft" ≡ true)
    × All (KnownEnds graph.nodes_by_id) spec.graph.edges
    × ((s : String) → length (keep (is_catch_all s) spec.graph.edges) ≤ 1)
    × (all (check_node graph.agents_by_id graph.toolkits_by_id) spec.graph.nodes ≡ true)
    × (all (check_refs (keys graph.toolkits_by_id) (keys graph.skills_by_id)) spec.agents ≡ true)
    × (check_judge graph.agents_by_id spec.definition_of_done ≡ true)
compile_workflow_sound_example = compile_workflow_sound spec graph compiles

outgoing-compile_example : outgoing graph "draft" ≡ (
  sort_by_priority (keep (leaves "draft") spec.graph.edges),
  find (is_catch_all "draft") spec.graph.edges,
)
outgoing-compile_example = outgoing-compile spec graph compiles "draft"

inbound-compile_example :
    contains (get_list graph.inbound_sources "review") "draft"
    ≡ any (joins "draft" "review") spec.graph.edges
inbound-compile_example = inbound-compile spec graph compiles "review" "draft" (λ h. cc)

found_draft : get graph.nodes_by_id "draft" ≡ some (plain_node "draft")
unfolding get
found_draft = refl

contract-subset_example :
    (agent : AgentConfig) × (c : NodeExecutionContract) × (agent_for_node graph "draft" ≡ ok agent)
    × (contract_for_node graph "draft" ≡ ok c)
    × (subset c.toolkits agent.toolkits ≡ true)
contract-subset_example =
    contract-subset spec graph compiles "draft" "writer" (plain_node "draft") found_draft refl

reachable-IsReachable_example :
    (out : List String) × (reachable graph ≡ some out)
    × ((a : String) → (contains out a ≡ true) ↔ IsReachable graph a)
reachable-IsReachable_example = reachable-IsReachable graph

no_warning : missing_safety_net graph ≡ ok []
unfolding missing_safety_net ravana.Validate.safety_net_of ravana.Graph.outgoing get
no_warning = refl

missing_safety_net-IsCovered_example :
    IsCovered graph "draft" (plain_node "draft") (outgoing graph "draft")
missing_safety_net-IsCovered_example =
    missing_safety_net-IsCovered graph "draft" (plain_node "draft") no_warning found_draft

sort_by_priority-IsStableSort_example :
    let es = again ∷ forward ∷ finish ∷ [] in
    Descending (sort_by_priority es)
    × (Perm (sort_by_priority es) es
        × ((p : ℤ) → keep (has_priority p) (sort_by_priority es) ≡ keep (has_priority p) es))
sort_by_priority-IsStableSort_example =
    sort_by_priority-IsStableSort (again ∷ forward ∷ finish ∷ [])

abbrev note : String → State
note text = ("notes", arr (cons (str text) nil)) ∷ []

abbrev two_notes : State
two_notes = ("notes", arr (cons (str "a") (cons (str "b") nil))) ∷ []

abbrev three_notes : State
three_notes = ("notes", arr (cons (str "a") (cons (str "b") (cons (str "c") nil)))) ∷ []

merges_second : merge_delta (note "a") (note "b") spec.state ≡ ok two_notes
unfolding merge_delta ravana.StateMerge.merge_into ravana.StateMerge.merge_value
    ravana.StateMerge.policy_of ravana.Dict.get ravana.Dict.put ravana.Value.concat
merges_second = refl

merges_third : merge_delta two_notes (note "c") spec.state ≡ ok three_notes
unfolding merge_delta ravana.StateMerge.merge_into ravana.StateMerge.merge_value
    ravana.StateMerge.policy_of ravana.Dict.get ravana.Dict.put ravana.Value.concat
merges_third = refl

gets_note : (text : String) → get (note text) "notes" ≡ some (arr (cons (str text) nil))
unfolding get
gets_note text = refl

appends : policy_of spec.state.fields "notes" ≡ append
unfolding policy_of ravana.Dict.get
appends = refl

note-IsDict : (text : String) → IsDict (note text)
note-IsDict text = (refl, tt)

merge_delta-MergedKey_example :
    MergedKey
      (get spec.state.fields "notes")
      (get (note "a") "notes")
      (get (note "b") "notes")
      (get two_notes "notes")
merge_delta-MergedKey_example =
    merge_delta-MergedKey (note "a") (note "b") spec.state "notes" (note-IsDict "b") merges_second

merge_delta_append_both_example :
    get three_notes "notes"
    ≡ some (arr (concat (concat (cons (str "a") nil) (cons (str "b") nil)) (cons (str "c") nil)))
merge_delta_append_both_example =
    merge_delta_append_both spec.state (note "a") two_notes three_notes (note "b") (note "c")
      "notes" _ _ _ (note-IsDict "b") (note-IsDict "c") appends (gets_note "a") (gets_note "b")
      (gets_note "c") merges_second merges_third

abbrev judged_dod : DefinitionOfDone
judged_dod = record { evaluated_by = "writer"; criteria = "state.ok" ∷ "It reads well" ∷ [] }

-- A parser that takes the one expression of these criteria.
abbrev reader : Evaluator
reader = record evaluator {
  parse = λ text. if str_eq text "state.ok" then ok tt else raise syntax_error;
}

abbrev unjudged : DodResult
unjudged =
    record { criterion = "state.ok"; kind = expression; passed = some true }
    ∷ record { criterion = "It reads well"; kind = prose; passed = none }
    ∷ []

evaluated : evaluate_dod reader judged_dod [] ≡ ok unjudged
unfolding evaluate_dod ravana.Dod.evaluate_criteria ravana.Expr.is_boolean_expression
    ravana.Expr.eval_condition ravana.Expr.translate ravana.Expr.replace_pair
evaluated = refl

met-apply_prose_verdict_example :
    (met (apply_prose_verdict (approved ∷ []) unjudged) ≡ true)
    ↔ Proven reader [] (approved ∷ []) 0 judged_dod.criteria
met-apply_prose_verdict_example =
    met-apply_prose_verdict reader [] judged_dod (approved ∷ []) unjudged evaluated

abbrev refuted : CriterionResult
refuted = record { criterion = "state.ok"; kind = expression; passed = some false }

met-unmet_example : (met (refuted ∷ []) ≡ true) ↔ (unmet (refuted ∷ []) ≡ [])
met-unmet_example = met-unmet (refuted ∷ [])

adds :
    add_usage (record { input_tokens = 2; output_tokens = 3 }) (an_int (pos 4)) (an_int (pos 5))
    ≡ ok (record { input_tokens = 6; output_tokens = 8 })
unfolding add_usage ravana.Usage.as_token_count
adds = refl

backoff_delay_bounds_example : Outcome (λ n. n) 1 30 3 (backoff_delay (λ n. n) 1 30 3)
backoff_delay_bounds_example = backoff_delay_bounds (λ n. n) (λ n. omega arith) 1 30 3
