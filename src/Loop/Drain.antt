-- ===== src/Loop/Drain.antt =====
-- `_drain_queue`: the work loop, with held joins released at quiescence.
use ravana.Prelude.{
  ℕ, zero, suc, String, Bool, true, false, Option, none, some, List, [], ◌∷◌, ◌++◌, contains,
  if◌then◌else◌,
}
use ravana.Graph.{join_all_nodes}
use ravana.Store.{join_arrivals, has_pending_hitl}
use ravana.Loop.{Ctx, Step, done, raised, Env}
use ravana.Loop.Dispatch.{dispatch}
use ravana.Loop.Finalize.{finalize_status}

abbrev is_nonempty : List String → Bool
is_nonempty [] = false
is_nonempty (x ∷ xs) = true

-- _pending_joins, of the nodes of `join_all_nodes` from a point on
unfoldable pub pending_from : Ctx → List String → List String
pending_from c [] = []
pending_from c (node_id ∷ nodes) =
    let rest = pending_from c nodes in
    if contains c.queue node_id
    then rest
    else if is_nonempty (join_arrivals c.con.db node_id)
    then node_id ∷ rest
    else rest

unfoldable pub pending_joins : Ctx → List String
pending_joins c = pending_from c (join_all_nodes c.graph)

-- One turn of the loop: a step to go on from, or the end of the work.
pub data Progress : Type 0 where
  working : Ctx → Progress
  idle : Ctx → Progress
  aborted : Step → Progress

abbrev pub after_dispatch : Step → Progress
after_dispatch (done c) = working c
after_dispatch (raised e c) = aborted (raised e c)

abbrev pub release : List String → Ctx → Progress
release [] c = idle c
release (node_id ∷ nodes) c = working (record c { queue = c.queue ++ node_id ∷ nodes })

abbrev pub quiescent : Ctx → Progress
quiescent c = if has_pending_hitl c.con.db then idle c else release (pending_joins c) c

abbrev pub work : Env → List String → Ctx → Progress
work env (node_id ∷ queue) c = after_dispatch (dispatch env node_id (record c { queue = queue }))
work env [] c = quiescent c

unfoldable pub loop_once : Env → Ctx → Progress
loop_once env c = if c.failed then idle c else work env c.queue c

abbrev pub next : Env → (Ctx → Option Step) → Progress → Option Step
next env rest (working c) = rest c
next env rest (idle c) = some (finalize_status env c)
next env rest (aborted s) = some s

-- The loop on fuel; `none` means that the fuel ran out.
unfoldable pub drain : Env → ℕ → Ctx → Option Step
drain env zero c = none
drain env (suc fuel) c = next env (drain env fuel) (loop_once env c)
