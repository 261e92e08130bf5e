-- ===== src/JsonSchema/Valid/Finite.antt =====
-- A payload or a schema of which no path is reported has no number that is NaN or infinite.
use Prim.Native.Nat.{pred}
use ravana.Prelude.{ℕ, suc, ◌≡◌, refl, String, Option, none, some}
use ravana.Prelude.Int.{ℤ}
use ravana.JsonSchema.{
  Float, fraction, nan, infinity, negative_infinity, Json, null, boolean, integer, float, text,
  array, object, Items, no_item, item, Fields, no_field, field, Work, Budget, Python,
}
use ravana.JsonSchema.Texts.{decimal}
use ravana.JsonSchema.Walk.{
  is_finite, enter, check_float, sub_path, unless_found, first_nonfinite, nonfinite_field,
  nonfinite_item,
}
use ravana.JsonSchema.Valid.{Ended, then_do-Ended, then_do-any, Silent, Ended-Silent}

abbrev pub IsFraction : Float → Type 0
IsFraction x = (numerator : ℤ) × ((denominator : ℕ) × (x ≡ fraction numerator denominator))

abbrev mutual
  -- No number in it is NaN or infinite.
  pub IsFinite : Json → Type 0
  IsFinite (float x) = IsFraction x
  IsFinite (array xs) = AllItemsFinite xs
  IsFinite (object d) = AllFieldsFinite d
  IsFinite null = Unit
  IsFinite (boolean x) = Unit
  IsFinite (integer n) = Unit
  IsFinite (text s) = Unit

  pub AllItemsFinite : Items → Type 0
  AllItemsFinite no_item = Unit
  AllItemsFinite (item v xs) = IsFinite v × AllItemsFinite xs

  pub AllFieldsFinite : Fields → Type 0
  AllFieldsFinite no_field = Unit
  AllFieldsFinite (field k v d) = IsFinite v × AllFieldsFinite d

check_float-Silent :
    (path : String) (x : Float) → Silent (IsFraction x) (check_float path (is_finite x))
check_float-Silent path (fraction n d) = (n, (d, refl))
check_float-Silent path nan = tt
check_float-Silent path infinity = tt
check_float-Silent path negative_infinity = tt

unless_found-Silent {ℓ κ} :
    (P : Type ℓ) (R : Type κ) (found : Option String) (rest : Work (Option String)) (b : Budget)
    → Silent P found
    → Ended (Silent R) (rest b)
    → Ended (Silent (P × R)) (unless_found found rest b)
unless_found-Silent P R (some path) rest b h after = tt
unless_found-Silent P R none rest b h after = Ended-Silent P R (rest b) h after

module _ (py : Python) where
  mutual
    unfolding first_nonfinite

    pub first_nonfinite-IsFinite :
        (depth : ℕ) (v : Json) (path : String) (b : Budget)
        → Ended (Silent (IsFinite v)) (first_nonfinite py depth v path b)
    first_nonfinite-IsFinite depth (float x) path b =
        then_do-any (Silent (IsFraction x)) (enter py depth b) _
          (λ done_ c. check_float-Silent path x)
    first_nonfinite-IsFinite depth (array xs) path b =
        then_do-any (Silent (AllItemsFinite xs)) (enter py depth b) _
          (λ done_ c. nonfinite_item-AllItemsFinite (pred depth) xs 0 path c)
    first_nonfinite-IsFinite depth (object d) path b =
        then_do-any (Silent (AllFieldsFinite d)) (enter py depth b) _
          (λ done_ c. nonfinite_field-AllFieldsFinite (pred depth) d path c)
    first_nonfinite-IsFinite depth null path b =
        then_do-any (Silent Unit) (enter py depth b) _ (λ done_ c. tt)
    first_nonfinite-IsFinite depth (boolean x) path b =
        then_do-any (Silent Unit) (enter py depth b) _ (λ done_ c. tt)
    first_nonfinite-IsFinite depth (integer n) path b =
        then_do-any (Silent Unit) (enter py depth b) _ (λ done_ c. tt)
    first_nonfinite-IsFinite depth (text s) path b =
        then_do-any (Silent Unit) (enter py depth b) _ (λ done_ c. tt)

    nonfinite_field-AllFieldsFinite :
        (depth : ℕ) (d : Fields) (path : String) (b : Budget)
        → Ended (Silent (AllFieldsFinite d)) (nonfinite_field py depth d path b)
    nonfinite_field-AllFieldsFinite depth no_field path b = tt
    nonfinite_field-AllFieldsFinite depth (field k v d) path b =
        then_do-Ended (Silent (IsFinite v)) (Silent (IsFinite v × AllFieldsFinite d))
          (first_nonfinite py depth v (sub_path path k) b) _
          (first_nonfinite-IsFinite depth v (sub_path path k) b)
          (λ found c finite.
            unless_found-Silent (IsFinite v) (AllFieldsFinite d) found
              (nonfinite_field py depth d path) c finite
              (nonfinite_field-AllFieldsFinite depth d path c))

    nonfinite_item-AllItemsFinite :
        (depth : ℕ) (xs : Items) (index : ℕ) (path : String) (b : Budget)
        → Ended (Silent (AllItemsFinite xs)) (nonfinite_item py depth xs index path b)
    nonfinite_item-AllItemsFinite depth no_item index path b = tt
    nonfinite_item-AllItemsFinite depth (item v xs) index path b =
        then_do-Ended (Silent (IsFinite v)) (Silent (IsFinite v × AllItemsFinite xs))
          (first_nonfinite py depth v (sub_path path (decimal index)) b) _
          (first_nonfinite-IsFinite depth v (sub_path path (decimal index)) b)
          (λ found c finite.
            unless_found-Silent (IsFinite v) (AllItemsFinite xs) found
              (nonfinite_item py depth xs (suc index) path) c finite
              (nonfinite_item-AllItemsFinite depth xs (suc index) path c))
