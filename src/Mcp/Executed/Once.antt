-- ===== src/Mcp/Executed/Once.antt =====
-- The two rules for retries, the executor's and the handler's, together.
use ravana.Prelude.{
  ℕ, suc, ◌≤◌, ◌≡◌, refl, sym, ap, ◌∙◌, String, Bool, true, false, ◌&&◌, Option, none, some, List,
  [], ◌∷◌, arith, str_eq, length, keep, if◌then◌else◌,
}
use ravana.Exception.{Result}
use ravana.Tools.{Call}
use ravana.Tools.Ledger.{InvocationStatus, started, succeeded, failed}
use ravana.Tools.Execute.{Executor, Tools}
use ravana.Tools.Once.{unfailed, unfailed_under, times_unfailed, Reachable, allowance, status_of}
use ravana.Tools.Once.Steps.{Reachable-Bounded}
use ravana.Mcp.Handler.{resolve_sub_tool}
use ravana.Mcp.Call.{call}
use ravana.Mcp.Safe.{IsSettled, call-IsSettled}
use ravana.Mcp.Executed.{
  Installed, effect_of, OnlyThis, has_reached, was_dispatched, dispatches, Answered, Genuine,
  AllGenuine,
}
use ravana.Mcp.Executed.Own.{Reachable-AllGenuine}

count {ℓ} :
    {A : Type ℓ} {n : ℕ} (x : A) (xs : List A)
    → n ≡ length xs
    → (b : Bool) → (if b then suc n else n) ≡ length (if b then x ∷ xs else xs)
count x xs eq true = ap suc eq
count x xs eq false = eq

module _ (s : Installed) where
  option-IsSettled :
      (before : List Call) (run_id : String) (tool : Option String)
      → effect_of s.server tool ≡ true
      → IsSettled (call (s.meets before) s.server run_id tool s.pins)
  unfolding call resolve_sub_tool
  option-IsSettled before run_id none effect = refl
  option-IsSettled before run_id (some tool) effect =
      call-IsSettled (s.meets before) s.server run_id tool s.pins effect

  has_reached-eq :
      (c : Call) (before : List Call) (answer : Option (Result String))
      → effect_of s.server c.request.sub_tool ≡ true
      → Answered s c before answer
      → has_reached s c before answer ≡ unfailed answer
  has_reached-eq c before none effect genuine = refl
  has_reached-eq c before (some answer) effect genuine =
      option-IsSettled before c.request.run_id c.request.sub_tool effect
      ∙ ap (λ a. unfailed (some a)) (sym genuine)

  -- The two tests of a call agree.
  unfailed_under-eq :
      (key : String) (c : Call) (before : List Call)
      → Genuine s c before
      → (effect_of s.server c.request.sub_tool
          && str_eq c.request.idempotency_key key
          && was_dispatched s c before)
        ≡ unfailed_under key c
  unfailed_under-eq key c before (side, genuine) =
      with_effect (effect_of s.server c.request.sub_tool) side
        (λ effect. has_reached-eq c before c.answer effect genuine) refl
    where
      with_effect :
          (effect : Bool)
          → c.side_effecting ≡ effect
          → (effect ≡ true → was_dispatched s c before ≡ unfailed c.answer)
          → effect ≡ effect
          → (effect && str_eq c.request.idempotency_key key && was_dispatched s c before)
            ≡ unfailed_under key c
      with_effect false side eq _ =
          ap (λ b. b && str_eq c.request.idempotency_key key && unfailed c.answer) (sym side)
      with_effect true side eq _ =
          ap (λ b. str_eq c.request.idempotency_key key && b) (eq refl)
          ∙ ap (λ b. b && str_eq c.request.idempotency_key key && unfailed c.answer) (sym side)

  dispatches-eq :
      (key : String) (calls : List Call)
      → AllGenuine s calls
      → dispatches s key calls ≡ times_unfailed calls key
  unfolding dispatches
  dispatches-eq key [] genuine = refl
  dispatches-eq key (c ∷ calls) (first, genuine) =
      ap (λ b. if b then suc (dispatches s key calls) else dispatches s key calls)
        (unfailed_under-eq key c calls first)
      ∙ count c (keep (unfailed_under key) calls) (dispatches-eq key calls genuine)
          (unfailed_under key c)

at_most_one : (status : Option InvocationStatus) → allowance status ≤ 1
at_most_one none = omega arith
at_most_one (some started) = omega arith
at_most_one (some succeeded) = omega arith
at_most_one (some failed) = omega arith

-- The executor and the handler of an MCP server together. In every state that the executor reaches,
-- when its toolkits are this server: whatever the sessions meet after the calls before them,
-- whatever is requested and retried, and wherever a process dies, calls of tools that the
-- administrator has not declared read-only have reached the server at most once under each key,
-- and not at all when the key's row is FAILED or missing. A call whose answer nobody learnt counts
-- as one that has reached it.
pub dispatched_once :
    (s : Installed) (x : Executor) (only : OnlyThis s x) {t : Tools}
    → Reachable x t
    → (key : String)
    → (dispatches s key t.calls ≤ allowance (status_of t.ledger.current key))
      × (dispatches s key t.calls ≤ 1)
dispatched_once s x only {t = t} reached key =
    let eq = dispatches-eq s key t.calls (Reachable-AllGenuine s x only reached) in
    let bound = (Reachable-Bounded x reached).1 key in
    (
      omega (arith, eq, bound),
      omega (arith, eq, bound, at_most_one (status_of t.ledger.current key)),
    )
