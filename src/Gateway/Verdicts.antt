-- ===== src/Gateway/Verdicts.antt =====
-- `_map_verdicts`: a judge's payload as one Boolean for each criterion, by position.
pub mod Sole
use ravana.Prelude.{
  ℕ, zero, suc, ◌+◌, Bool, true, false, Option, none, some, List, [], ◌∷◌, map, or_else, is_some,
  ltb, ◌==◌, if◌then◌else◌,
}
use ravana.Prelude.Int.{pos, negsuc}
use ravana.Value.{Value, null, bool, int, str, arr, obj, Elements, nil, cons, Entries, get_field}

-- A `dict` with `int` keys that are not negative.
abbrev pub Rulings : Type 0
Rulings = List (ℕ × Bool)

unfoldable pub get_at : Rulings → ℕ → Option Bool
get_at [] i = none
get_at ((j, m) ∷ d) i = if j == i then some m else get_at d i

unfoldable pub put_at : Rulings → ℕ → Bool → Rulings
put_at [] i m = (i, m) ∷ []
put_at ((j, x) ∷ d) i m = if j == i then (j, m) ∷ d else (j, x) ∷ put_at d i m

-- the two locals of the loop
pub record Tally : Type 0 where
  pub met_by_index : Rulings
  pub duplicates : List ℕ

-- `item.get("met") is True`
abbrev pub is_true : Option Value → Bool
is_true (some (bool true)) = true
is_true _ = false

-- what follows the guard on `index`
abbrev pub ruled : ℕ → Bool → Tally → Tally
ruled i m t =
    if is_some (get_at t.met_by_index i)
    then record t { duplicates = i ∷ t.duplicates }
    else record t { met_by_index = put_at t.met_by_index i m }

-- `type(index) is not int or not (0 <= index < n)`
abbrev pub by_index : ℕ → Option Value → Bool → Tally → Tally
by_index n (some (int (pos i))) m t = if ltb i n then ruled i m t else t
by_index n _ m t = t

-- the body of the loop
abbrev pub tally_item : ℕ → Value → Tally → Tally
tally_item n (obj item) t = by_index n (get_field item "index") (is_true (get_field item "met")) t
tally_item n _ t = t

unfoldable pub tally : ℕ → List Value → Tally → Tally
tally n [] t = t
tally n (item ∷ items) t = tally n items (tally_item n item t)

-- `for index in duplicates: met_by_index[index] = False`
unfoldable pub fail_duplicates : List ℕ → Rulings → Rulings
fail_duplicates [] d = d
fail_duplicates (i ∷ is) d = fail_duplicates is (put_at d i false)

abbrev pub items : Elements → List Value
items nil = []
items (cons v vs) = v ∷ items vs

-- `verdicts if isinstance(verdicts, list) else []`
abbrev pub listed : Option Value → List Value
listed (some (arr vs)) = items vs
listed _ = []

-- [f(i) for i in range(start, start + n)]
abbrev pub for_range : (ℕ → Bool) → ℕ → ℕ → List Bool
for_range f start zero = []
for_range f start (suc n) = f start ∷ for_range f (start + 1) n

abbrev pub final_rulings : Tally → Rulings
final_rulings t = fail_duplicates t.duplicates t.met_by_index

abbrev pub no_rulings : Tally
no_rulings = record { met_by_index = []; duplicates = [] }

-- _map_verdicts
unfoldable pub map_verdicts : Entries → ℕ → List Bool
map_verdicts payload n =
    for_range
      (λ i.
        or_else
          (get_at (final_rulings (tally n (listed (get_field payload "verdicts")) no_rulings)) i)
          false)
      0 n
