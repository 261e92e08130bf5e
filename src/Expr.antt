-- ===== src/Expr.antt =====
-- engine/expr.py: conditions over the shared state, and the assignments of `on_enter`.
-- The expression evaluator (simpleeval) and Python's parser are parameters.
pub mod OnEnter
use Prim.Native.Char.{Char, code}
use Prim.Native.String.{◌++◌ as string_append}
use ravana.Prelude.{
  ℕ, zero, suc, ◌-◌, String, Bool, true, false, not, ◌&&◌, ◌||◌, Option, none, some, is_some, leb,
  ◌==◌, if◌then◌else◌,
}
use ravana.Exception.{Result, ok, raise, syntax_error, ◌>>=◌}
use ravana.Text.{is_alnum, drop, length, after_prefix}
use ravana.Value.{Value, State, truthy}

-- What the program takes from elsewhere: `EvalWithCompoundTypes(names={"state": …}).eval`, how
-- `ast.parse` ends on a text, and which characters past ASCII Python's `\w` matches.
pub record Evaluator : Type 0 where
  pub eval : String → State → Result Value
  pub parse : String → Result (Unit {0})
  pub is_unicode_word : ℕ → Bool

-- expr.replace("&&", " and "), and the same for "||": `d` is the doubled character, and `pending`
-- holds one that is read and not yet written.
unfoldable pub replace_pair : Char → String → Bool → String → String
replace_pair d replacement pending String.[] = if pending then String.◌∷◌ d String.[] else String.[]
replace_pair d replacement pending (String.◌∷◌ c s) =
    let twin = code c == code d in
    let rest = replace_pair d replacement (twin && not pending) s in
    if pending
    then (if twin then string_append replacement rest else String.◌∷◌ d (String.◌∷◌ c rest))
    else if twin
    then rest
    else String.◌∷◌ c rest

abbrev starts_equals : String → Bool
starts_equals s = is_some (after_prefix "=" s)

-- re.sub(r"!(?!=)", " not ", expr)
unfoldable pub replace_not : String → String
unfolding after_prefix
replace_not String.[] = String.[]
replace_not (String.◌∷◌ c s) =
    let rest = replace_not s in
    if code c == b'!' && not (starts_equals s)
    then string_append " not " rest
    else String.◌∷◌ c rest

-- `except SyntaxError: return False`; any other exception of the parser goes on.
abbrev parsed : Result (Unit {0}) → Result Bool
parsed (ok tree) = ok true
parsed (raise syntax_error) = ok false
parsed (raise e) = raise e

module _ (e : Evaluator) where
  abbrev is_word : ℕ → Bool
  is_word c = is_alnum c || c == b'_' || leb 128 c && e.is_unicode_word c

  abbrev starts_word : String → Bool
  starts_word String.[] = false
  starts_word (String.◌∷◌ c s) = is_word (code c)

  abbrev word_here : String → String → Bool
  word_here word s = ends_word (after_prefix word s)
    where
      ends_word : Option String → Bool
      ends_word none = false
      ends_word (some rest) = not (starts_word rest)

  -- re.sub(r"\bword\b", replacement, expr), for a word of letters: `inside` says that the character
  -- before is one of a word, and `skip` counts what is left of a match.
  unfoldable pub replace_word : String → String → Bool → ℕ → String → String
  unfolding after_prefix length
  replace_word word replacement inside skip String.[] = String.[]
  replace_word word replacement inside (suc skip) (String.◌∷◌ c s) =
      replace_word word replacement true skip s
  replace_word word replacement inside zero (String.◌∷◌ c s) =
      let found = not inside && word_here word (String.◌∷◌ c s) in
      let rest =
        replace_word word replacement (is_word (code c)) (if found then length word - 1 else 0) s in
      if found then string_append replacement rest else String.◌∷◌ c rest

  unfoldable pub translate : String → String
  unfolding replace_pair replace_not replace_word
  translate expr =
      let conj = replace_pair "&" " and " false expr in
      let disj = replace_pair "|" " or " false conj in
      let neg = replace_not disj in
      let nulls = replace_word "null" "None" false 0 neg in
      let trues = replace_word "true" "True" false 0 nulls in
      replace_word "false" "False" false 0 trues

  unfoldable pub eval_condition : String → State → Result Bool
  eval_condition expr shared_state = do
    result ← e.eval (translate expr) shared_state
    ok (truthy result)

  unfoldable pub is_boolean_expression : String → Result Bool
  is_boolean_expression expr = parsed (e.parse (translate expr))
