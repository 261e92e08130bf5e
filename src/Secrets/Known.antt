-- ===== src/Secrets/Known.antt =====
-- runtime/secrets.py with a credential at hand: a text is searched for its exact value before the
-- patterns are. The callers give one value at most.
use Prim.Native.Char.{Char}
use Prim.Native.Nat.{pred}
use Prim.Native.String.{◌++◌ as string_append}
use ravana.Prelude.{
  ℕ, zero, suc, String, Bool, false, not, ◌||◌, Option, none, some, str_eq, is_some, if◌then◌else◌,
}
use ravana.Exception.{Result, guard, secret_leak_error}
use ravana.Text.{length, after_prefix}
use ravana.Value.{Value, null, bool, int, str, arr, obj, Elements, nil, cons, Entries, end, field}
use ravana.Secrets.{redacted, redact_secrets}

-- The length of `value` where the text starts with it, or 0.
abbrev match_value : String → String → ℕ
match_value value s = if is_some (after_prefix value s) then length value else 0

abbrev emit : Char → ℕ → String → String
emit c zero rest = String.◌∷◌ c rest
emit c (suc n) rest = string_append redacted rest

-- text.replace(value, "***REDACTED***"), for a value that is not empty: `skip` counts the characters
-- of an occurrence that are still to be dropped.
unfoldable pub replace : String → ℕ → String → String
unfolding length after_prefix
replace value skip String.[] = String.[]
replace value zero (String.◌∷◌ c s) =
    emit c (match_value value (String.◌∷◌ c s))
      (replace value (pred (match_value value (String.◌∷◌ c s))) s)
replace value (suc skip) (String.◌∷◌ c s) = replace value skip s

abbrev without : Option String → String → String
without none text = text
without (some value) text = replace value 0 text

-- redact_secrets(text, values=…)
unfoldable pub redact_known : Option String → String → String
unfolding replace redact_secrets
redact_known value text = redact_secrets (without value text)

unfoldable pub is_known_text : Option String → String → Bool
unfolding redact_known
is_known_text value text = not (str_eq (redact_known value text) text)

-- contains_secret(value, values=…)
unfoldable mutual
  unfolding is_known_text

  pub contains_known : Option String → Value → Bool
  contains_known known (str s) = is_known_text known s
  contains_known known (arr xs) = items_contain_known known xs
  contains_known known (obj d) = fields_contain_known known d
  contains_known known null = false
  contains_known known (bool b) = false
  contains_known known (int n) = false

  pub items_contain_known : Option String → Elements → Bool
  items_contain_known known nil = false
  items_contain_known known (cons x xs) = contains_known known x || items_contain_known known xs

  pub fields_contain_known : Option String → Entries → Bool
  fields_contain_known known end = false
  fields_contain_known known (field k v d) =
      is_known_text known k || contains_known known v || fields_contain_known known d

-- ensure_secret_free
unfoldable pub ensure_secret_free : Option String → Value → Result (Unit {0})
ensure_secret_free known value = guard (not (contains_known known value)) secret_leak_error
