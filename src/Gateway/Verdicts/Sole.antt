-- ===== src/Gateway/Verdicts/Sole.antt =====
-- The verdict on a criterion without the tally: its only ruling.
use ravana.Prelude.{
  ℕ, zero, suc, ◌+◌, ◌≤◌, ◌<◌, ◌≡◌, refl, sym, ap, ◌∙◌, subst, Bool, true, false, ◌||◌, Option,
  none, some, List, [], ◌∷◌, any, or_else, is_some, ltb, ◌==◌, ==_iff, if◌then◌else◌, if_cases,
  arith,
}
use ravana.Prelude.Int.{pos}
use ravana.Value.{Value, int, obj, Entries, get_field}
use ravana.Gateway.Verdicts.{
  Rulings, get_at, put_at, Tally, is_true, ruled, by_index, tally_item, tally, fail_duplicates,
  listed, for_range, final_rulings, no_rulings, map_verdicts,
}

-- The rulings of a judge on criterion `i`, in order: `met` of each object whose `index` is the
-- integer `i`.
abbrev pub ruling_at : ℕ → Option Value → Bool → List Bool → List Bool
ruling_at i (some (int (pos j))) m rest = if j == i then m ∷ rest else rest
ruling_at i _ m rest = rest

abbrev pub ruling_of : ℕ → Value → List Bool → List Bool
ruling_of i (obj item) rest =
    ruling_at i (get_field item "index") (is_true (get_field item "met")) rest
ruling_of i _ rest = rest

unfoldable pub rulings_on : ℕ → List Value → List Bool
rulings_on i [] = []
rulings_on i (item ∷ items) = ruling_of i item (rulings_on i items)

abbrev pub sole : List Bool → Bool
sole [] = false
sole (m ∷ []) = m
sole (m ∷ x ∷ ms) = false

-- What the tally makes of the rulings on one criterion, from what it has already.
abbrev pub seen : Option Bool → Bool → List Bool → Bool
seen o true ms = false
seen none false [] = false
seen none false (m ∷ ms) = seen (some m) false ms
seen (some m) false [] = m
seen (some m) false (x ∷ ms) = false

pub seen-sole : (ms : List Bool) → seen none false ms ≡ sole ms
seen-sole [] = refl
seen-sole (m ∷ []) = refl
seen-sole (m ∷ x ∷ ms) = refl

pub get_at-put_at :
    (d : Rulings) (i j : ℕ) (m : Bool)
    → get_at (put_at d i m) j ≡ (if i == j then some m else get_at d j)
unfolding get_at put_at
get_at-put_at [] i j m = refl
get_at-put_at ((k, x) ∷ d) i j m = ground (arith, get_at-put_at d i j m)

abbrev pub among : ℕ → List ℕ → Bool
among i is = any (λ j. j == i) is

pub get_at-fail_duplicates :
    (is : List ℕ) (d : Rulings) (i : ℕ)
    → get_at (fail_duplicates is d) i ≡ (if among i is then some false else get_at d i)
unfolding fail_duplicates
get_at-fail_duplicates [] d i = refl
get_at-fail_duplicates (j ∷ is) d i =
    ground (arith, get_at-fail_duplicates is (put_at d j false) i, get_at-put_at d j i false)

-- The verdict on `i` when the tally stands at `t` and `ms` are the rulings on `i` still to come.
abbrev pub verdict_at : Tally → ℕ → List Bool → Bool
verdict_at t i ms = seen (get_at t.met_by_index i) (among i t.duplicates) ms

pub seen-again :
    (b : Bool) (o : Option Bool) (d m : Bool) (ms : List Bool)
    → (b ≡ true → is_some o ≡ true)
    → seen o (b || d) ms ≡ seen o d (if b then m ∷ ms else ms)
seen-again false o d m ms h = refl
seen-again true none d m ms h = let impossible : false ≡ true = h refl in cc
seen-again true (some x) true m ms h = refl
seen-again true (some x) false m ms h = refl

pub seen-new :
    (b : Bool) (o : Option Bool) (d m : Bool) (ms : List Bool)
    → (b ≡ true → o ≡ none)
    → seen (if b then some m else o) d ms ≡ seen o d (if b then m ∷ ms else ms)
seen-new false o d m ms h = refl
seen-new true o true m ms h = refl
seen-new true o false m ms h = ap (λ q. seen q false (m ∷ ms)) (sym (h refl))

pub ruled-verdict_at :
    (t : Tally) (i j : ℕ) (m : Bool) (ms : List Bool)
    → verdict_at (ruled j m t) i ms ≡ verdict_at t i (if j == i then m ∷ ms else ms)
ruled-verdict_at t i j m ms =
    if_cases (λ (u : Tally). verdict_at u i ms ≡ verdict_at t i (if j == i then m ∷ ms else ms))
      (is_some (get_at t.met_by_index j))
      (λ known.
        seen-again (j == i) (get_at t.met_by_index i) (among i t.duplicates) m ms (λ same.
          subst (λ k. is_some (get_at t.met_by_index k) ≡ true) ((==_iff j i).0 same) known))
      (λ unknown.
        ap (λ o. seen o (among i t.duplicates) ms) (get_at-put_at t.met_by_index j i m)
        ∙ seen-new (j == i) (get_at t.met_by_index i) (among i t.duplicates) m ms (λ same.
          subst (λ k. get_at t.met_by_index k ≡ none) ((==_iff j i).0 same)
            (is_none (get_at t.met_by_index j) unknown)))
  where
    is_none : (o : Option Bool) → is_some o ≡ false → o ≡ none
    is_none none h = refl
    is_none (some x) h = cc

-- An item within range is tallied as its ruling; one out of range rules on no criterion.
pub by_index-verdict_at :
    (n i : ℕ) (t : Tally) (index : Option Value) (m : Bool) (ms : List Bool)
    → i < n
    → verdict_at (by_index n index m t) i ms ≡ verdict_at t i (ruling_at i index m ms)
by_index-verdict_at n i t (some (int (pos j))) m ms within =
    if_cases (λ (u : Tally). verdict_at u i ms ≡ verdict_at t i (if j == i then m ∷ ms else ms))
      (ltb j n) (λ _. ruled-verdict_at t i j m ms)
      (λ outside. ap (λ b. verdict_at t i (if b then m ∷ ms else ms)) (differ outside))
  where
    differ : ltb j n ≡ false → false ≡ (j == i)
    differ outside = ground (arith, outside, within)
by_index-verdict_at n i t index m ms within = refl

pub tally_item-verdict_at :
    (n i : ℕ) (item : Value) (t : Tally) (ms : List Bool)
    → i < n
    → verdict_at (tally_item n item t) i ms ≡ verdict_at t i (ruling_of i item ms)
tally_item-verdict_at n i (obj item) t ms within =
    by_index-verdict_at n i t (get_field item "index") (is_true (get_field item "met")) ms within
tally_item-verdict_at n i item t ms within = refl

pub tally-verdict_at :
    (n i : ℕ) (items : List Value) (t : Tally)
    → i < n
    → verdict_at (tally n items t) i [] ≡ verdict_at t i (rulings_on i items)
unfolding tally rulings_on
tally-verdict_at n i [] t within = refl
tally-verdict_at n i (item ∷ items) t within =
    tally-verdict_at n i items (tally_item n item t) within
    ∙ tally_item-verdict_at n i item t (rulings_on i items) within

pub final_rulings-verdict_at :
    (t : Tally) (i : ℕ) → or_else (get_at (final_rulings t) i) false ≡ verdict_at t i []
final_rulings-verdict_at t i =
    ap (λ o. or_else o false) (get_at-fail_duplicates t.duplicates t.met_by_index i)
    ∙ failed (among i t.duplicates) (get_at t.met_by_index i)
  where
    failed :
        (d : Bool) (o : Option Bool) → or_else (if d then some false else o) false ≡ seen o d []
    failed true o = refl
    failed false none = refl
    failed false (some m) = refl

pub for_range-ext :
    (f g : ℕ → Bool) (bound start n : ℕ)
    → start + n ≤ bound
    → ((i : ℕ) → i < bound → f i ≡ g i)
    → for_range f start n ≡ for_range g start n
for_range-ext f g bound start zero le same = refl
for_range-ext f g bound start (suc n) le same =
    let first = same start (omega (arith, le)) in
    let rest = for_range-ext f g bound (start + 1) n (omega (arith, le)) same in cc

-- The verdict on each of the `n` criteria is its only ruling, and false when a payload has none or
-- several: the rulings on a criterion are the values of `met is True` of the objects in `verdicts`
-- whose `index` is exactly its number.
pub map_verdicts-sole :
    (payload : Entries) (n : ℕ)
    → map_verdicts payload n
      ≡ for_range (λ i. sole (rulings_on i (listed (get_field payload "verdicts")))) 0 n
unfolding map_verdicts get_at
map_verdicts-sole payload n =
    let found = listed (get_field payload "verdicts") in
    for_range-ext (λ i. or_else (get_at (final_rulings (tally n found no_rulings)) i) false)
      (λ i. sole (rulings_on i found)) n 0 n (omega arith)
      (λ i within.
        final_rulings-verdict_at (tally n found no_rulings) i
        ∙ tally-verdict_at n i found no_rulings within
        ∙ seen-sole (rulings_on i found))
