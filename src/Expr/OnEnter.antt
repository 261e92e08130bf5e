-- ===== src/Expr/OnEnter.antt =====
-- `apply_on_enter`: the regular expression `_ON_ENTER_RE`, and the mutation that it describes.
use Prim.Native.Char.{Char, code}
use ravana.Prelude.{ℕ, String, Bool, false, ◌||◌, Option, none, some, [], ◌∷◌, ◌==◌, if◌then◌else◌}
use ravana.Prelude.Int.{pos}
use ravana.Exception.{Result, ok, raise, value_error, ◌>>=◌}
use ravana.Dict.{get}
use ravana.Text.{is_space, is_letter, is_alnum, span, drop, take, after_prefix}
use ravana.Value.{Value, int, State, or_default, add, sub}
use ravana.Expr.{Evaluator, translate}

pub data Operator : Type 0 where
  set increase decrease : Operator

pub record Assignment : Type 0 where
  pub key : String
  pub op : Operator
  pub rhs : String

-- [A-Za-z0-9_]
abbrev is_key_char : ℕ → Bool
is_key_char c = is_alnum c || c == b'_'

abbrev cons_option : Char → Option String → Option String
cons_option c none = none
cons_option c (some s) = some (String.◌∷◌ c s)

-- `.*$`: the rest of the text, if it is one line; a last newline is left out
unfoldable pub line : String → Option String
line String.[] = some String.[]
line (String.◌∷◌ c String.[]) =
    if code c == 10 then some String.[] else some (String.◌∷◌ c String.[])
line (String.◌∷◌ c (String.◌∷◌ d s)) =
    let rest = line (String.◌∷◌ d s) in if code c == 10 then none else cons_option c rest

abbrev nonempty : Option String → Option String
nonempty (some (String.◌∷◌ c s)) = some (String.◌∷◌ c s)
nonempty _ = none

abbrev first_of {ℓ} : {A : Type ℓ} → Option A → Option A → Option A
first_of (some a) b = some a
first_of none b = b

-- `\s*(.+)$`: the longest run of white space that lets the rest match
unfoldable pub match_rhs : String → Option String
unfolding line is_space
match_rhs String.[] = none
match_rhs (String.◌∷◌ c s) =
    let shorter = match_rhs s in
    let here = nonempty (line (String.◌∷◌ c s)) in
    if is_space (code c) then first_of shorter here else here

abbrev with_rhs : String → Operator → Option String → Option Assignment
with_rhs key op none = none
with_rhs key op (some rhs) = some (record { key = key; op = op; rhs = rhs })

-- `(\+=|-=|=)\s*(.+)$`
unfoldable pub match_op : String → String → Option Assignment
unfolding after_prefix match_rhs
match_op key s = plus (after_prefix "+=" s)
  where
    equals : Option String → Option Assignment
    equals none = none
    equals (some rest) = with_rhs key set (match_rhs rest)

    minus : Option String → Option Assignment
    minus none = equals (after_prefix "=" s)
    minus (some rest) = with_rhs key decrease (match_rhs rest)

    plus : Option String → Option Assignment
    plus none = minus (after_prefix "-=" s)
    plus (some rest) = with_rhs key increase (match_rhs rest)

-- [A-Za-z_]
abbrev starts_key : String → Bool
starts_key String.[] = false
starts_key (String.◌∷◌ c s) = is_letter (code c) || code c == b'_'

abbrev skip_space : String → String
skip_space s = drop (span is_space s) s

abbrev after_state : Option String → Option Assignment
after_state none = none
after_state (some s) =
    let n = span is_key_char s in
    if starts_key s then match_op (take n s) (skip_space (drop n s)) else none

-- _ON_ENTER_RE.match(expr)
unfoldable pub match_on_enter : String → Option Assignment
unfolding is_space span drop take after_prefix match_op
match_on_enter expr = after_state (after_prefix "state." (skip_space expr))

-- The new value of the key, from the current one and the right-hand side's.
abbrev new_value : Operator → Option Value → Value → Result Value
new_value set current rhs = ok rhs
new_value increase current rhs = add (or_default current (int (pos 0))) rhs
new_value decrease current rhs = sub (or_default current (int (pos 0))) rhs

module _ (e : Evaluator) where
  abbrev assign : State → Option Assignment → Result State
  assign shared_state none = raise value_error
  assign shared_state (some a) = do
    rhs ← e.eval (translate e a.rhs) shared_state
    new ← new_value a.op (get shared_state a.key) rhs
    ok ((a.key, new) ∷ [])

  unfoldable pub apply_on_enter : String → State → Result State
  unfolding match_on_enter add sub get
  apply_on_enter expr shared_state = assign shared_state (match_on_enter expr)
