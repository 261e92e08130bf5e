-- ===== src/Dict.antt =====
-- Python's `dict` with string keys, in insertion order: `d[k] = v` writes in place, or at the end.
use ravana.Prelude.{
  ℕ, String, ◌≡◌, refl, ◌≢◌, Bool, true, false, Option, none, some, List, [], ◌∷◌, map, arith,
  str_eq, eq_iff, str_eq_refl, contains, is_some, if◌then◌else◌,
}

abbrev pub Dict {ℓ} : Type ℓ → Type ℓ
Dict V = List (String × V)

module _ {ℓ} {V : Type ℓ} where
  -- d.get(k)
  unfoldable pub get : Dict V → String → Option V
  get [] k = none
  get ((j, v) ∷ d) k = if str_eq j k then some v else get d k

  -- d[k] = v
  unfoldable pub put : Dict V → String → V → Dict V
  put [] k v = (k, v) ∷ []
  put ((j, w) ∷ d) k v = if str_eq j k then (j, v) ∷ d else (j, w) ∷ put d k v

  -- k in d
  abbrev pub has_key : Dict V → String → Bool
  has_key d k = is_some (get d k)

  abbrev pub keys : Dict V → List String
  keys [] = []
  keys ((j, v) ∷ d) = j ∷ keys d

  abbrev pub values : Dict V → List V
  values [] = []
  values ((j, v) ∷ d) = v ∷ values d

  pub get-put :
      (d : Dict V) (k j : String) (v : V)
      → get (put d k v) j ≡ (if str_eq k j then some v else get d j)
  unfolding get put
  get-put [] k j v = refl
  get-put ((i, w) ∷ d) k j v = ground (arith, eq_iff k j, eq_iff i k, eq_iff i j, get-put d k j v)

  pub get-put_self : (d : Dict V) (k : String) (v : V) → get (put d k v) k ≡ some v
  get-put_self d k v = simp (get-put, str_eq_refl)

-- What the representation of a `dict` guarantees: no key twice.
abbrev pub Distinct : List String → Type 0
Distinct [] = Unit
Distinct (x ∷ xs) = (contains xs x ≡ false) × Distinct xs

abbrev pub IsDict {ℓ} : {V : Type ℓ} → Dict V → Type 0
IsDict d = Distinct (keys d)

module _ {ℓ} {V : Type ℓ} where
  pub get-eq-none : (d : Dict V) (k : String) → contains (keys d) k ≡ false → get d k ≡ none
  unfolding get
  get-eq-none [] k h = refl
  get-eq-none ((j, v) ∷ d) k h = ground (arith, get-eq-none d k)

  pub contains-keys : (d : Dict V) (k : String) → contains (keys d) k ≡ has_key d k
  unfolding get
  contains-keys [] k = refl
  contains-keys ((j, v) ∷ d) k = ground (arith, contains-keys d k)

pub ruleset dict_laws = (get-put, str_eq_refl)
