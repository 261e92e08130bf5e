-- ===== src/JsonSchema/Texts.antt =====
-- The bounded texts of runtime/schema_validate.py that a model is shown.
use Prim.Native.String.{◌++◌ as string_append}
use ravana.Prelude.{
  ℕ, zero, suc, ◌-◌, ◌/◌, ◌%◌, String, List, [], ◌∷◌, length as count, leb, ltb, map, if◌then◌else◌,
}
use ravana.Text.{length, take, drop}

-- _MAX_REPORTED_ERRORS, _MAX_MESSAGE_CHARS, _MAX_PATH_CHARS, _MAX_DIAGNOSTIC_CHARS and
-- _MAX_PATTERN_CHARS
abbrev pub max_reported_errors : ℕ
max_reported_errors = 3

abbrev pub max_message_chars : ℕ
max_message_chars = 300

abbrev pub max_path_chars : ℕ
max_path_chars = 120

abbrev pub max_diagnostic_chars : ℕ
max_diagnostic_chars = 1500

abbrev pub max_pattern_chars : ℕ
max_pattern_chars = 1500

-- _SCHEMA_ERROR_PREFIX
abbrev pub schema_error_prefix : String
schema_error_prefix = "invalid schema (workflow authoring error): "

abbrev pub marker : String
marker = "... [truncated] ..."

-- text[-n:], for an n that is not 0
abbrev pub last : ℕ → String → String
last n s = drop (length s - n) s

-- The start and the end of a text around the marker.
abbrev pub around : (head tail : ℕ) → String → String
around head tail s = string_append (take head s) (string_append marker (last tail s))

-- _truncate, for a limit that is more than the marker's length, as all in the source are
unfoldable pub truncate : (limit : ℕ) → String → String
truncate limit s =
    let available = limit - length marker in
    if leb (length s) limit then s else around (available / 2) (available - available / 2) s

abbrev digit : ℕ → String
digit n = take 1 (drop n "0123456789")

-- str(n): a number has at most as many digits as its successor counts.
unfoldable digits : (fuel : ℕ) → ℕ → String
digits zero n = String.[]
digits (suc fuel) n =
    let rest = digits fuel (n / 10) in
    if ltb n 10 then digit n else string_append rest (digit (n % 10))

unfoldable pub decimal : ℕ → String
unfolding digits
decimal n = digits (suc n) n

-- separator.join(texts)
abbrev pub join : String → List String → String
join separator [] = String.[]
join separator (s ∷ []) = s
join separator (s ∷ rest) = string_append s (string_append separator (join separator rest))

abbrev pub first_of {ℓ} : {A : Type ℓ} → ℕ → List A → List A
first_of zero xs = []
first_of (suc n) [] = []
first_of (suc n) (x ∷ xs) = x ∷ first_of n xs

abbrev and_more : ℕ → String → String
and_more zero shown = shown
and_more (suc remaining) shown =
    string_append shown (string_append ", and " (string_append (decimal (suc remaining)) " more"))

-- _summarize_keys, for the `repr` of a text
unfoldable pub summarize_keys : (repr : String → String) → List String → String
unfolding truncate decimal
summarize_keys repr keys = and_more (count keys - max_reported_errors) (
    join ", " (map (λ key. repr (truncate max_path_chars key)) (first_of max_reported_errors keys)))

-- _field_error
unfoldable pub field_error : (path message : String) → String
unfolding truncate
field_error path message =
    string_append "field '"
      (string_append (truncate max_path_chars path) (string_append "': " message))
