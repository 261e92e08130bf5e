-- ===== src/Value.antt =====
-- The JSON values that a workflow's shared state holds, with the Python operations that the engine
-- applies to them. Floating-point numbers are left out: a number is an `int`.
use ravana.Prelude.{zero, suc, String, Bool, true, false, Option, none, some, str_eq, if◌then◌else◌}
use Prim.Native.String.{◌++◌ as string_append}
use ravana.Prelude.Int.{ℤ, pos, negsuc, ◌+ℤ◌, ◌-ℤ◌}
use ravana.Exception.{Result, ok, raise, type_error}
use ravana.Dict.{Dict}

mutual
  pub data Value : Type 0 where
    null : Value
    bool : Bool → Value
    int : ℤ → Value
    str : String → Value
    arr : Elements → Value
    obj : Entries → Value

  pub data Entries : Type 0 where
    end : Entries
    field : (key : String) (value : Value) (rest : Entries) → Entries

  pub data Elements : Type 0 where
    nil : Elements
    cons : (first : Value) (rest : Elements) → Elements

abbrev pub State : Type 0
State = Dict Value

-- [*a, *b]
unfoldable pub concat : Elements → Elements → Elements
concat nil b = b
concat (cons x a) b = cons x (concat a b)

-- d[k] = v on an object
unfoldable pub set_field : Entries → String → Value → Entries
set_field end k v = field k v end
set_field (field j w d) k v = if str_eq j k then field j v d else field j w (set_field d k v)

-- {**a, **b}
unfoldable pub update : Entries → Entries → Entries
unfolding set_field
update a end = a
update a (field k v b) = update (set_field a k v) b

unfoldable pub get_field : Entries → String → Option Value
get_field end k = none
get_field (field j v d) k = if str_eq j k then some v else get_field d k

-- bool(v)
abbrev pub truthy : Value → Bool
truthy null = false
truthy (bool b) = b
truthy (int (pos zero)) = false
truthy (int (pos (suc n))) = true
truthy (int (negsuc n)) = true
truthy (str String.[]) = false
truthy (str (String.◌∷◌ c s)) = true
truthy (arr nil) = false
truthy (arr (cons x xs)) = true
truthy (obj end) = false
truthy (obj (field k v d)) = true

-- `v or d`, for a value that may be missing
abbrev pub or_default : Option Value → Value → Value
or_default none d = d
or_default (some v) d = if truthy v then v else d

-- a `bool` is an `int`
abbrev pub as_int : Value → Option ℤ
as_int (bool true) = some (pos 1)
as_int (bool false) = some (pos 0)
as_int (int n) = some n
as_int _ = none

abbrev int_result : (ℤ → ℤ → ℤ) → Option ℤ → Option ℤ → Result Value
int_result op (some m) (some n) = ok (int (op m n))
int_result op (some m) none = raise type_error
int_result op none n = raise type_error

-- a + b
unfoldable pub add : Value → Value → Result Value
unfolding concat
add (str a) (str b) = ok (str (string_append a b))
add (arr a) (arr b) = ok (arr (concat a b))
add a b = int_result ◌+ℤ◌ (as_int a) (as_int b)

-- a - b
unfoldable pub sub : Value → Value → Result Value
sub a b = int_result ◌-ℤ◌ (as_int a) (as_int b)
