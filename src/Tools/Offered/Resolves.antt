-- ===== src/Tools/Offered/Resolves.antt =====
-- A name that is offered is resolved, to one handler.
use ravana.Prelude.{
  ℕ, ◌≡◌, refl, ap, ◌∙◌, subst, String, Bool, true, false, not, ◌&&◌, ◌||◌, Option, none, some,
  is_some, List, [], ◌∷◌, map, any, All, contains, distinct, length, str_eq_refl, ltb, ◌==◌, arith,
  if_cases, Bool-cases, or_false_both, ◌⊎◌, inl, inr,
}
use ravana.Exception.{
  Exception, toolkit_error, model_addressable, ok, guard, ◌>>=◌, Returns, >>=-Returns,
}
use ravana.Dict.{Dict, get, has_key, values}
use ravana.Tools.{
  Tool, Handler, Offer, offers, all_pinned, count_named, offer_name, sub_tool_names, collides,
  checked_offers, tools_for, matches, Resolved, choose, resolve,
}
use ravana.Tools.Offered.Counts.{Pins, matches-Counts, matches-Pins}
use ravana.Tools.Offered.Offers.{OfferWell, OffersWell, offers-OffersWell}

-- The test of `collides`, on what it looks up.
abbrev clash : Bool → Bool → ℕ → Bool
clash sub key n = (sub && not (n == 1)) || (key && sub) || (not sub && ltb 0 n)

pub clash_sub :
    (sub key : Bool) (n : ℕ) → clash sub key n ≡ false → sub ≡ true → (n ≡ 1) × (key ≡ false)
clash_sub true key n free is = (ground (arith, free), ground (arith, free))
clash_sub false key n free is = cc

pub clash_direct : (sub key : Bool) (n : ℕ) → clash sub key n ≡ false → key ≡ true → n ≡ 0
clash_direct true true n free is = ground (arith, free)
clash_direct false true n free is = ground (arith, free)
clash_direct sub false n free is = cc

module _ (handlers : Dict Handler) (run_id : String) where
  -- What a call of an offered name reaches: the toolkit of that name, or the one handler that pins
  -- a sub-tool of that name.
  abbrev pub Reaches : String → Resolved → Type 0
  Reaches name r =
      ((r.sub_tool ≡ none) × (get handlers name ≡ some r.handler))
      ⊎ ((r.sub_tool ≡ some name) × Pins run_id name r.handler)

  abbrev pub Resolves : Tool → Type 0
  Resolves t = (r : Resolved) × (resolve handlers t.name run_id ≡ ok r) × Reaches t.name r

  pub choose-direct :
      (name : String) (h : Handler) (found : List Handler)
      → get handlers name ≡ some h
      → found ≡ []
      → (r : Resolved) × (choose name (get handlers name) found ≡ ok r) × Reaches name r
  choose-direct name h found known empty = (
    record { handler = h; sub_tool = none },
    ap (λ o. choose name o found) known ∙ ap (choose name (some h)) empty,
    inl (refl, known),
  )

  pub choose-sub :
      (name : String) (found : List Handler)
      → get handlers name ≡ none
      → length found ≡ 1
      → All (Pins run_id name) found
      → (r : Resolved) × (choose name (get handlers name) found ≡ ok r) × Reaches name r
  choose-sub name [] unknown one pins = absurd (omega (arith, one))
  choose-sub name (m ∷ []) unknown one (pin, pins) = (
    record { handler = m; sub_tool = some name },
    ap (λ o. choose name o (m ∷ [])) unknown,
    inr (refl, pin),
  )
  choose-sub name (m ∷ n ∷ ms) unknown one pins = absurd (omega (arith, one))

  -- What it means for a name not to collide, with the names of the sub-tools that are offered.
  abbrev pub Free : List String → List Tool → String → Type 0
  Free subs pinned name = collides handlers subs pinned name ≡ false

  pub Free-sub :
      (subs : List String) (pinned : List Tool) (name : String)
      → Free subs pinned name
      → contains subs name ≡ true
      → (count_named pinned name ≡ 1) × (has_key handlers name ≡ false)
  Free-sub subs pinned name free sub =
      clash_sub (contains subs name) (has_key handlers name) (count_named pinned name) free sub

  pub Free-direct :
      (subs : List String) (pinned : List Tool) (name : String)
      → Free subs pinned name
      → has_key handlers name ≡ true
      → count_named pinned name ≡ 0
  Free-direct subs pinned name free key =
      clash_direct (contains subs name) (has_key handlers name) (count_named pinned name) free key

  pub resolve-matches :
      (name : String) (found : List Handler)
      → matches (values handlers) name run_id ≡ ok found
      → ((r : Resolved) × (choose name (get handlers name) found ≡ ok r) × Reaches name r)
      → (r : Resolved) × (resolve handlers name run_id ≡ ok r) × Reaches name r
  unfolding resolve
  resolve-matches name found eq (r, chosen, reaches) =
      (r, ap (λ m. m >>= choose name (get handlers name)) eq ∙ chosen, reaches)

  module _ (pinned : List Tool) (all : all_pinned (values handlers) run_id ≡ ok pinned)
      (subs : List String) where
    pub Offer-Resolves :
        (o : Offer)
        → OfferWell handlers o
        → Free subs pinned o.tool.name
        → (o.is_sub ≡ true → contains subs o.tool.name ≡ true)
        → Resolves o.tool
    Offer-Resolves o well free listed =
        let name = o.tool.name in
        let (found, eq, (none_found, one_found)) =
          matches-Counts run_id name (values handlers) pinned all in
        let pins =
          subst (Returns (All (Pins run_id name))) eq
            (matches-Pins run_id name (values handlers)) in
        resolve-matches name found eq (elim (Bool-cases o.is_sub) [
          | inl sub ↦
              let (one, key) = Free-sub subs pinned name free (listed sub) in
              choose-sub name found (no_key (get handlers name) key) (one_found one) pins
          | inr direct ↦
              let (h, known) = well direct in
              choose-direct name h found known
                (none_found (Free-direct subs pinned name free (ap is_some known)))
        ])
      where
        no_key : (o : Option Handler) → is_some o ≡ false → o ≡ none
        no_key none h = refl
        no_key (some x) h = cc

    pub Offers-Resolves :
        (os : List Offer)
        → OffersWell handlers run_id os
        → any (collides handlers subs pinned) (map offer_name os) ≡ false
        → All (λ o. o.is_sub ≡ true → contains subs o.tool.name ≡ true) os
        → All Resolves (map (λ o. o.tool) os)
    Offers-Resolves [] well free listed = tt
    Offers-Resolves (o ∷ os) (first, well) free (in_subs, listed) =
        let (free_first, free_rest) =
          or_false_both (collides handlers subs pinned o.tool.name) free in
        (Offer-Resolves o first free_first in_subs, Offers-Resolves os well free_rest listed)

-- The sub-tools among the offers are listed.
abbrev pub Listed : List String → Offer → Type 0
Listed names o = o.is_sub ≡ true → contains names o.tool.name ≡ true

pub Listed-mono :
    (name : String) (names : List String) (os : List Offer)
    → All (Listed names) os
    → All (Listed (name ∷ names)) os
Listed-mono name names [] listed = tt
Listed-mono name names (o ∷ os) (first, listed) =
    ((λ sub. ground (arith, first sub)), Listed-mono name names os listed)

pub sub_tool_names-Listed : (os : List Offer) → All (Listed (sub_tool_names os)) os
sub_tool_names-Listed [] = tt
sub_tool_names-Listed (o ∷ os) =
    if_cases (λ (kept : List Offer). All (Listed (map offer_name kept)) (o ∷ os)) o.is_sub
      (λ _. (
        (λ sub. ground (arith, str_eq_refl o.tool.name)),
        Listed-mono o.tool.name (sub_tool_names os) os (sub_tool_names-Listed os),
      ))
      (λ direct. ((λ sub. cc), sub_tool_names-Listed os))

pub guard-ok : (test : Bool) (e : Exception) {u : Unit {0}} → guard test e ≡ ok u → test ≡ true
guard-ok true e h = refl
guard-ok false e h = cc

pub not-true : (b : Bool) → not b ≡ true → b ≡ false
not-true true h = cc
not-true false h = refl

pub checked_offers-Resolves :
    (handlers : Dict Handler) (run_id : String) (os : List Offer) (pinned : List Tool)
    → OffersWell handlers run_id os
    → all_pinned (values handlers) run_id ≡ ok pinned
    → Returns (All (Resolves handlers run_id)) (checked_offers handlers os pinned)
checked_offers-Resolves handlers run_id os pinned well all =
    let names = map offer_name os in
    let subs = sub_tool_names os in
    let clashing = any (collides handlers subs pinned) names in
    >>=-Returns (All (Resolves handlers run_id))
      (guard (not clashing) (toolkit_error model_addressable)) _
      (λ done_ passed.
        >>=-Returns (All (Resolves handlers run_id))
          (guard (length names == length (distinct names)) (toolkit_error model_addressable)) _
          (λ done_ _.
            Offers-Resolves handlers run_id pinned all subs os well
              (not-true clashing (guard-ok (not clashing) _ passed)) (sub_tool_names-Listed os)))

-- When a run's tools are offered, a call of each of their names is resolved: to the toolkit of that
-- name, or, as a sub-tool, to a handler that has pinned it for the run. So no offered name is
-- unknown to the executor or ambiguous.
pub tools_for-Resolves :
    (handlers : Dict Handler) (ids : List String) (run_id : String) (tools : List Tool)
    → tools_for handlers ids (some run_id) ≡ ok tools
    → All (Resolves handlers run_id) tools
unfolding tools_for
tools_for-Resolves handlers ids run_id tools eq =
    subst (Returns (All (Resolves handlers run_id))) eq (
      >>=-Returns (All (Resolves handlers run_id)) (offers handlers (some run_id) ids) _
        (λ os offered.
          >>=-Returns (All (Resolves handlers run_id)) (all_pinned (values handlers) run_id) _
            (λ pinned all.
              checked_offers-Resolves handlers run_id os pinned
                (subst (Returns (OffersWell handlers run_id)) offered
                  (offers-OffersWell handlers run_id ids))
                all)))
