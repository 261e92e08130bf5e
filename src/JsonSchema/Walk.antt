-- ===== src/JsonSchema/Walk.antt =====
-- `_first_nonfinite_path` of runtime/schema_validate.py, under its step budget and Python's stack.
use Prim.Native.String.{◌++◌ as string_append}
use Prim.Native.Nat.{pred}
use ravana.Prelude.{ℕ, zero, suc, String, Bool, true, false, Option, none, some}
use ravana.JsonSchema.{
  Float, fraction, Json, null, boolean, integer, float, text, array, object, Items, no_item, item,
  Fields, no_field, field, stop, done, recursion_error, Work, Python, ◌then_do◌,
  consume_validation_step,
}
use ravana.JsonSchema.Texts.{decimal}

-- math.isfinite
abbrev pub is_finite : Float → Bool
is_finite (fraction n d) = true
is_finite _ = false

abbrev pub or_root : String → String
or_root String.[] = "<root>"
or_root (String.◌∷◌ c s) = String.◌∷◌ c s

-- f"{path}.{key}" if path else str(key)
abbrev pub sub_path : (path key : String) → String
sub_path String.[] key = key
sub_path (String.◌∷◌ c s) key = string_append (String.◌∷◌ c s) (string_append "." key)

abbrev pub check_float : String → Bool → Option String
check_float path true = none
check_float path false = some (or_root path)

-- The first answer that is not `None`.
abbrev pub unless_found : Option String → Work (Option String) → Work (Option String)
unless_found (some path) rest b = (done (some path), b)
unless_found none rest b = rest b

-- A call with `depth` frames left: at 0 it raises RecursionError.
abbrev pub enter : Python → (depth : ℕ) → Work (Unit {0})
enter py zero b = (stop recursion_error, b)
enter py (suc depth) b = consume_validation_step py b

unfoldable mutual
  pub first_nonfinite : Python → (depth : ℕ) → Json → (path : String) → Work (Option String)
  first_nonfinite py depth (float x) path b =
      enter py depth b then_do λ done_ c. (done (check_float path (is_finite x)), c)
  first_nonfinite py depth (object d) path b =
      enter py depth b then_do λ done_. nonfinite_field py (pred depth) d path
  first_nonfinite py depth (array xs) path b =
      enter py depth b then_do λ done_. nonfinite_item py (pred depth) xs 0 path
  first_nonfinite py depth null path b = enter py depth b then_do λ done_ c. (done none, c)
  first_nonfinite py depth (boolean x) path b = enter py depth b then_do λ done_ c. (done none, c)
  first_nonfinite py depth (integer n) path b = enter py depth b then_do λ done_ c. (done none, c)
  first_nonfinite py depth (text s) path b = enter py depth b then_do λ done_ c. (done none, c)

  pub nonfinite_field : Python → (depth : ℕ) → Fields → (path : String) → Work (Option String)
  nonfinite_field py depth no_field path b = (done none, b)
  nonfinite_field py depth (field k v d) path b =
      first_nonfinite py depth v (sub_path path k) b then_do λ found.
      unless_found found (nonfinite_field py depth d path)

  pub nonfinite_item :
      Python → (depth : ℕ) → Items → (index : ℕ) (path : String) → Work (Option String)
  nonfinite_item py depth no_item index path b = (done none, b)
  nonfinite_item py depth (item v xs) index path b =
      first_nonfinite py depth v (sub_path path (decimal index)) b then_do λ found.
      unless_found found (nonfinite_item py depth xs (suc index) path)

-- _first_nonfinite_path(value)
unfoldable pub first_nonfinite_path : Python → Json → Work (Option String)
unfolding first_nonfinite
first_nonfinite_path py value = first_nonfinite py py.recursion_limit value String.[]
