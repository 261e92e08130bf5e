-- ===== src/Tools/Offered/Offers.antt =====
-- The offers of a run, and the handlers behind them.
use ravana.Prelude.{
  ◌≡◌, refl, subst, String, true, false, Option, none, some, List, [], ◌∷◌, ◌++◌, map, All,
}
use ravana.Exception.{toolkit_error, model_addressable, guard, Returns, >>=-Returns}
use ravana.Dict.{Dict, get}
use ravana.Tools.{Tool, Handler, sub_tools_for, Offer, offer_handler, offer_toolkit, offers}

-- A direct offer is a handler's own name.
abbrev pub OfferWell : Dict Handler → Offer → Type 0
OfferWell handlers o = o.is_sub ≡ false → (h : Handler) × (get handlers o.tool.name ≡ some h)

module _ (handlers : Dict Handler) (run_id : String) where
  abbrev pub OffersWell : List Offer → Type 0
  OffersWell os = All (OfferWell handlers) os

  pub OffersWell-append :
      (os ps : List Offer) → OffersWell os → OffersWell ps → OffersWell (os ++ ps)
  OffersWell-append [] ps first second = second
  OffersWell-append (o ∷ os) ps (well, first) second = (well, OffersWell-append os ps first second)

  pub offer_handler-OffersWell :
      (tid : String) (h : Handler) (tools : Option (List Tool))
      → get handlers tid ≡ some h
      → OffersWell (offer_handler tid h tools)
  offer_handler-OffersWell tid h none found = ((λ _. (h, found)), tt)
  offer_handler-OffersWell tid h (some tools) found = subs tools
    where
      subs : (tools : List Tool) → OffersWell (map (λ t. record { tool = t; is_sub = true }) tools)
      subs [] = tt
      subs (t ∷ tools) = ((λ direct. cc), subs tools)

  pub offer_toolkit-OffersWell :
      (tid : String) (o : Option Handler)
      → get handlers tid ≡ o
      → Returns OffersWell (offer_toolkit (some run_id) tid o)
  offer_toolkit-OffersWell tid none found = tt
  offer_toolkit-OffersWell tid (some h) found =
      >>=-Returns OffersWell (guard h.executable (toolkit_error model_addressable)) _ (λ done_ _.
        >>=-Returns OffersWell (sub_tools_for h (some run_id) true) _
          (λ tools _. offer_handler-OffersWell tid h tools found))

  pub offers-OffersWell :
      (ids : List String) → Returns OffersWell (offers handlers (some run_id) ids)
  unfolding offers
  offers-OffersWell [] = tt
  offers-OffersWell (tid ∷ ids) =
      >>=-Returns OffersWell (offer_toolkit (some run_id) tid (get handlers tid)) _ (λ these e1.
        >>=-Returns OffersWell (offers handlers (some run_id) ids) _ (λ others e2.
          OffersWell-append these others
            (subst (Returns OffersWell) e1 (offer_toolkit-OffersWell tid (get handlers tid) refl))
            (subst (Returns OffersWell) e2 (offers-OffersWell ids))))
