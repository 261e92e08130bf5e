-- ===== src/Text.antt =====
-- Tests and walks over the characters of a text, for the regular expressions of the source.
use Prim.Native.Char.{Char, code}
use ravana.Prelude.{
  ℕ, zero, suc, String, Bool, ◌&&◌, ◌||◌, Option, none, some, leb, ◌==◌, if◌then◌else◌,
}

-- `\s` of Python's `re` on a `str`
unfoldable pub is_space : ℕ → Bool
is_space c =
    leb 9 c && leb c 13
    || leb 28 c && leb c 32
    || c == 133
    || c == 160
    || c == 5760
    || leb 8192 c && leb c 8202
    || c == 8232
    || c == 8233
    || c == 8239
    || c == 8287
    || c == 12288

abbrev pub is_digit : ℕ → Bool
is_digit c = leb b'0' c && leb c b'9'

abbrev pub is_letter : ℕ → Bool
is_letter c = leb b'a' c && leb c b'z' || leb b'A' c && leb c b'Z'

-- [A-Za-z0-9]
abbrev pub is_alnum : ℕ → Bool
is_alnum c = is_letter c || is_digit c

-- How many characters from the start pass a test: the reach of a greedy `[…]*`.
unfoldable pub span : (ℕ → Bool) → String → ℕ
span p String.[] = 0
span p (String.◌∷◌ c s) = if p (code c) then suc (span p s) else 0

unfoldable pub drop : ℕ → String → String
drop zero s = s
drop (suc n) String.[] = String.[]
drop (suc n) (String.◌∷◌ c s) = drop n s

unfoldable pub take : ℕ → String → String
take zero s = String.[]
take (suc n) String.[] = String.[]
take (suc n) (String.◌∷◌ c s) = String.◌∷◌ c (take n s)

-- The number of characters, unlike the library's `len`, which counts bytes.
unfoldable pub length : String → ℕ
length String.[] = 0
length (String.◌∷◌ c s) = suc (length s)

-- What follows a literal prefix, if the text starts with it.
unfoldable pub after_prefix : String → String → Option String
after_prefix String.[] s = some s
after_prefix (String.◌∷◌ d p) String.[] = none
after_prefix (String.◌∷◌ d p) (String.◌∷◌ c s) = if code d == code c then after_prefix p s else none

abbrev keep_char : Char → String → String
keep_char c String.[] = if is_space (code c) then String.[] else String.◌∷◌ c String.[]
keep_char c (String.◌∷◌ d s) = String.◌∷◌ c (String.◌∷◌ d s)

abbrev rstrip : String → String
rstrip String.[] = String.[]
rstrip (String.◌∷◌ c s) = keep_char c (rstrip s)

-- s.strip()
unfoldable pub strip : String → String
strip s = rstrip (drop (span is_space s) s)
