-- ===== src/Loop/Outcome/Ends.antt =====
-- The ends of `_write_final` and of `_finalize_status`, and the statuses that they leave.
use ravana.Prelude.{
  ◌≡◌, refl, sym, ap, ◌∙◌, subst, Bool, true, false, ◌⊎◌, Option, none, some, inl, inr, Bool-cases,
  if_cases,
}
use ravana.Exception.{terminal_persistence_error}
use ravana.Store.{RunRow, RunStatus, Db, is_terminal, has_pending_hitl}
use ravana.Loop.{
  Ctx, Step, done, raised, Env, Meanwhile, rollback, commit, pass, set_run, set_db, other_cancel,
  other_write,
}
use ravana.Loop.Finalize.{
  DodEvent, stage, refuses, update_run_status_if_active, write_final, decide_dod, finalize_status,
}

-- The context that a step leaves.
abbrev pub left : Step → Ctx
left (done c) = c
left (raised e c) = c

abbrev pub final_status : Step → RunStatus
final_status s = (left s).con.durable.run.status

abbrev pub is_settled : RunStatus → Bool
is_settled RunStatus.completed = true
is_settled RunStatus.failed = true
is_settled RunStatus.cancelled = true
is_settled RunStatus.waiting_human = true
is_settled _ = false

abbrev pub set_status : RunStatus → Ctx → Ctx
set_status status c = set_db (set_run (record c.con.db.run { status = status }) c.con.db) c

-- The four ends of `_write_final`.
pub data Written (status : RunStatus) (event : Option DodEvent) (c : Ctx) : Step → Type 0 where
  refused : Written status event c (raised terminal_persistence_error (rollback c))
  kept : is_terminal c.con.durable.run.status ≡ true → Written status event c (done (rollback c))
  fell_back :
      is_terminal c.con.durable.run.status ≡ false
      → Written status event c (done (commit (set_status RunStatus.failed (rollback c))))
  stored :
      is_terminal c.con.durable.run.status ≡ false
      → Written status event c (done (commit (set_status status (stage event c))))

stage-run : (event : Option DodEvent) (c : Ctx) → (stage event c).con.db.run ≡ c.con.db.run
stage-run none c = refl
stage-run (some e) c = refl

stage-rollback : (event : Option DodEvent) (c : Ctx) → rollback (stage event c) ≡ rollback c
stage-rollback none c = refl
stage-rollback (some e) c = refl

pub write_final-Written :
    (env : Env) (status : RunStatus) (event : Option DodEvent) (c : Ctx)
    → c.con.durable ≡ c.con.db
    → Written status event c (write_final env status event c)
unfolding write_final update_run_status_if_active
write_final-Written env status event c closed = elim (Bool-cases (refuses env event)) [
  | inl bad ↦ rw bad (elim (Bool-cases env.faults.fallback_write) [
    | inl worse ↦ rw worse refused
    | inr fair ↦ rw fair (elim (Bool-cases (is_terminal c.con.durable.run.status)) [
      | inl over ↦ rw over (kept over)
      | inr open_ ↦ rw open_ (fell_back open_)
    ])
  ])
  | inr fine ↦ rw fine (
      let same =
        ap (λ (r : RunRow). is_terminal r.status) (stage-run event c)
        ∙ ap (λ (d : Db). is_terminal d.run.status) (sym closed) in
      elim (Bool-cases (is_terminal c.con.durable.run.status)) [
        | inl over ↦ rw (same ∙ over) (
            subst (λ x. Written status event c (done x)) (sym (stage-rollback event c)) (kept over))
        | inr open_ ↦ rw (same ∙ open_) (stored open_)
      ])
]

pub Written-completed :
    (status : RunStatus) (event : Option DodEvent) (c : Ctx) (s : Step)
    → Written status event c s
    → final_status s ≡ RunStatus.completed
    → (c.con.durable.run.status ≡ RunStatus.completed)
      ⊎ ((status ≡ RunStatus.completed) × ((left s).con.durable.log ≡ (stage event c).con.db.log))
Written-completed status event c _ refused h = inl h
Written-completed status event c _ (kept over) h = inl h
Written-completed status event c _ (fell_back open_) h = cc
Written-completed status event c _ (stored open_) h = inr (h, refl)

pub Written-is_terminal :
    (status : RunStatus) (event : Option DodEvent) (c : Ctx) (s : Step)
    → is_terminal c.con.durable.run.status ≡ true
    → Written status event c s
    → (left s).con.durable ≡ c.con.durable
Written-is_terminal status event c _ over refused = refl
Written-is_terminal status event c _ over (kept _) = refl
Written-is_terminal status event c _ over (fell_back open_) = cc
Written-is_terminal status event c _ over (stored open_) = cc

abbrev pub IsSettled : Step → Type 0
IsSettled (done c) = is_settled c.con.durable.run.status ≡ true
IsSettled (raised e c) = e ≡ terminal_persistence_error

terminal-settled : (s : RunStatus) → is_terminal s ≡ true → is_settled s ≡ true
terminal-settled RunStatus.completed h = refl
terminal-settled RunStatus.failed h = refl
terminal-settled RunStatus.cancelled h = refl
terminal-settled RunStatus.running h = cc
terminal-settled RunStatus.pending h = cc
terminal-settled RunStatus.waiting_human h = refl

pub Written-IsSettled :
    (status : RunStatus) (event : Option DodEvent) (c : Ctx) (s : Step)
    → is_settled status ≡ true
    → Written status event c s
    → IsSettled s
Written-IsSettled status event c _ h refused = refl
Written-IsSettled status event c _ h (kept over) = terminal-settled c.con.durable.run.status over
Written-IsSettled status event c _ h (fell_back open_) = refl
Written-IsSettled status event c _ h (stored open_) = h

pub pass-closed :
    (m : Meanwhile) (c : Ctx)
    → c.con.durable ≡ c.con.db
    → (pass m c).con.durable ≡ (pass m c).con.db
pass-closed Meanwhile.quiet c h = h
pass-closed Meanwhile.cancelled c h = ap other_cancel h
pass-closed (Meanwhile.written s) c h = ap (other_write s) h

pub pass-completed :
    (m : Meanwhile) (c : Ctx)
    → (pass m c).con.durable.run.status ≡ RunStatus.completed
    → c.con.durable.run.status ≡ RunStatus.completed
pass-completed Meanwhile.quiet c h = h
pass-completed Meanwhile.cancelled c h = cc
pass-completed (Meanwhile.written s) c h = h

-- The ends of `_finalize_status`.
pub data Finalized (env : Env) (c : Ctx) : Step → Type 0 where
  untouched :
      (c.failed ≡ true) ⊎ (is_terminal c.con.db.run.status ≡ true) → Finalized env c (done c)
  asked :
      has_pending_hitl c.con.db ≡ true
      → Finalized env c (write_final env RunStatus.waiting_human none c)
  decided :
      c.failed ≡ false
      → has_pending_hitl c.con.db ≡ false
      → c.terminal_reached ≡ true
      → Finalized env c (
          write_final env
            (decide_dod env c).status
            (decide_dod env c).event
            (pass env.judge_meanwhile c))
  parked : c.terminal_reached ≡ false → Finalized env c (write_final env c.con.db.run.status none c)

pub finalize_status-Finalized : (env : Env) (c : Ctx) → Finalized env c (finalize_status env c)
unfolding finalize_status
finalize_status-Finalized env c =
    if_cases (Finalized env c) c.failed (λ bad. untouched (inl bad))
      (λ fine.
        if_cases (Finalized env c) (is_terminal c.con.db.run.status) (λ over. untouched (inr over))
          (λ active.
            if_cases (Finalized env c) (has_pending_hitl c.con.db) asked
              (λ free. if_cases (Finalized env c) c.terminal_reached (decided fine free) parked)))
