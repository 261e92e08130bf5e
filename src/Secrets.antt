-- ===== src/Secrets.antt =====
-- runtime/secrets.py: the pattern sweep that keeps credentials out of logs and persisted output.
-- The exact `values` that a caller may add are left empty, as the engine leaves them.
pub mod Known
use Prim.Native.Char.{Char, code}
use Prim.Native.Nat.{pred}
use Prim.Native.String.{◌++◌ as string_append}
use ravana.Prelude.{
  ℕ, zero, suc, ◌+◌, String, Bool, false, not, ◌||◌, Option, none, some, [], ◌∷◌, str_eq, ◌==◌,
  if◌then◌else◌,
}
use ravana.Text.{is_space, is_alnum, span, drop, length, after_prefix}
use ravana.Value.{
  Value, null, bool, int, str, arr, obj, Elements, nil, cons, Entries, end, field, State,
}

-- [A-Za-z0-9._~+/=\-]
abbrev is_bearer_char : ℕ → Bool
is_bearer_char c =
    is_alnum c
    || c == b'.'
    || c == b'_'
    || c == b'~'
    || c == b'+'
    || c == b'/'
    || c == b'='
    || c == b'-'

-- [A-Za-z0-9_\-]
abbrev is_key_char : ℕ → Bool
is_key_char c = is_alnum c || c == b'_' || c == b'-'

-- [A-Za-z0-9_]
abbrev is_pat_char : ℕ → Bool
is_pat_char c = is_alnum c || c == b'_'

-- A match that needs at least one character of its class: its length, or 0.
abbrev at_least_one : ℕ → ℕ → ℕ
at_least_one prefix zero = 0
at_least_one prefix (suc n) = prefix + suc n

abbrev after_literal : String → (ℕ → Bool) → Option String → ℕ
after_literal prefix class none = 0
after_literal prefix class (some rest) = at_least_one (length prefix) (span class rest)

abbrev literal_then : String → (ℕ → Bool) → String → ℕ
literal_then prefix class s = after_literal prefix class (after_prefix prefix s)

abbrev after_gap : String → ℕ → ℕ
after_gap rest zero = 0
after_gap rest (suc n) = at_least_one (6 + suc n) (span is_bearer_char (drop (suc n) rest))

-- Bearer\s+[…]+
abbrev bearer_rest : Option String → ℕ
bearer_rest none = 0
bearer_rest (some rest) = after_gap rest (span is_space rest)

abbrev first_match : ℕ → ℕ → ℕ
first_match zero n = n
first_match (suc m) n = suc m

-- gh[posur]_[A-Za-z0-9]+
abbrev is_gh_kind : ℕ → Bool
is_gh_kind c = c == b'p' || c == b'o' || c == b's' || c == b'u' || c == b'r'

abbrev gh_rest : Option String → ℕ
gh_rest none = 0
gh_rest (some String.[]) = 0
gh_rest (some (String.◌∷◌ c s)) =
    if is_gh_kind (code c) then after_literal "gh?_" is_alnum (after_prefix "_" s) else 0

-- The length of the match of `_SECRET_PATTERNS` at the start of a text: the alternatives in order.
unfoldable pub match_secret : String → ℕ
unfolding is_space span drop length after_prefix
match_secret s = first_match (bearer_rest (after_prefix "Bearer" s)) (
    first_match (literal_then "sk-ant-" is_key_char s) (
      first_match (literal_then "sk-" is_key_char s)
        (first_match (gh_rest (after_prefix "gh" s)) (literal_then "github_pat_" is_pat_char s))))

abbrev pub redacted : String
redacted = "***REDACTED***"

abbrev emit : Char → ℕ → String → String
emit c zero rest = String.◌∷◌ c rest
emit c (suc n) rest = string_append redacted rest

-- `_SECRET_PATTERNS.sub`: `skip` counts the characters of a match that are still to be dropped.
unfoldable pub sweep : ℕ → String → String
unfolding match_secret
sweep skip String.[] = String.[]
sweep zero (String.◌∷◌ c s) =
    emit c (match_secret (String.◌∷◌ c s)) (sweep (pred (match_secret (String.◌∷◌ c s))) s)
sweep (suc skip) (String.◌∷◌ c s) = sweep skip s

unfoldable pub redact_secrets : String → String
unfolding sweep
redact_secrets text = sweep 0 text

unfoldable pub is_secret_text : String → Bool
unfolding redact_secrets
is_secret_text text = not (str_eq (redact_secrets text) text)

unfoldable mutual
  unfolding is_secret_text

  pub contains_secret : Value → Bool
  contains_secret (str s) = is_secret_text s
  contains_secret (arr xs) = items_contain_secret xs
  contains_secret (obj d) = fields_contain_secret d
  contains_secret null = false
  contains_secret (bool b) = false
  contains_secret (int n) = false

  pub items_contain_secret : Elements → Bool
  items_contain_secret nil = false
  items_contain_secret (cons x xs) = contains_secret x || items_contain_secret xs

  pub fields_contain_secret : Entries → Bool
  fields_contain_secret end = false
  fields_contain_secret (field k v d) =
      is_secret_text k || contains_secret v || fields_contain_secret d

-- the same over a dict's items
unfoldable pub state_contains_secret : State → Bool
unfolding contains_secret is_secret_text
state_contains_secret [] = false
state_contains_secret ((k, v) ∷ s) =
    is_secret_text k || contains_secret v || state_contains_secret s
