-- ===== src/Store/Offers.antt =====
-- What the covenant operations of `MemoryStore` promise of the current covenant of a creator.
use onlykas.Prelude.{
  ◌==◌, ◌⊎◌, if◌then◌else◌, String, ◌≡◌, none, some, arith, eq_iff, inl, inr, ◌↔◌, Option-cases,
}
use onlykas.Map.{get}
use onlykas.Map.Laws.{get-set}
use onlykas.Domain.{CreatorCovenant, CovenantStatus, created, duplicate}
use onlykas.Store.{Store}
use onlykas.Store.Covenants.{
  get_creator_covenant, record_covenant, save_creator_covenant, save_new_covenant, finalize_offer,
  finalize_price_update, finalize_cancellation,
}

-- The covenant that `getCreatorCovenant` shows for a stored one: without its status.
abbrev pub shown : CreatorCovenant → CreatorCovenant
shown c = record c { status = none }

get-record_covenant :
    (w : CreatorCovenant) (s : Store)
    → get w.creator (record_covenant w s).creator_covenants ≡ some w
unfolding record_covenant
get-record_covenant w s =
    ground (arith, eq_iff w.creator w.creator, get-set w.creator w.creator w s.creator_covenants)

-- `finalizeOffer` succeeds only for a creator with no covenant to show, and then the creator's covenant
-- is the offered one; or it is refused, and the current covenants are as before. Either way the covenants
-- of the other creators are shown as before.
pub finalize_offer_outcome :
    (id other : String) (v : CreatorCovenant) (s : Store)
    → let (outcome, t) = finalize_offer id v s in
      ((outcome ≡ created)
          × (get_creator_covenant v.creator s ≡ none)
          × (get_creator_covenant other t
              ≡ (if v.creator == other then some (shown v) else get_creator_covenant other s))
        ⊎ (outcome ≡ duplicate) × (t.creator_covenants ≡ s.creator_covenants))
unfolding finalize_offer save_creator_covenant save_new_covenant record_covenant
    get_creator_covenant
finalize_offer_outcome id other v s =
    let w : CreatorCovenant = record v { status = some CovenantStatus.active } in
    ground (arith, eq_iff v.creator other, get-set v.creator other w s.creator_covenants)

-- A canceled covenant comes back by a price update: for a creator whose current covenant is canceled,
-- `finalizePriceUpdate` with that covenant's id succeeds, and `getCreatorCovenant` then shows it with
-- the new price.
pub price_update_revives_canceled :
    (id : String) (v c : CreatorCovenant) (s : Store)
    → get v.creator s.creator_covenants ≡ some c
    → c.status ≡ some CovenantStatus.canceled
    → c.covenant_id ≡ v.covenant_id
    → (get_creator_covenant v.creator s ≡ none)
      × ((finalize_price_update id v s).0 ≡ created)
      × (get_creator_covenant v.creator (finalize_price_update id v s).1 ≡ some (shown v))
unfolding finalize_price_update record_covenant get_creator_covenant
price_update_revives_canceled id v c s e gone same =
    let w : CreatorCovenant = record v { status = some CovenantStatus.active } in
    ground (
      arith,
      eq_iff v.creator v.creator,
      eq_iff c.covenant_id v.covenant_id,
      get-set v.creator v.creator w s.creator_covenants,
    )

-- A creator who has no covenant to show has none to cancel.
nothing_to_cancel :
    (id creator covenant_id : String) (s : Store)
    → get_creator_covenant creator s ≡ none
    → (finalize_cancellation id creator covenant_id s).0 ≡ duplicate
unfolding finalize_cancellation get_creator_covenant
nothing_to_cancel id creator covenant_id s h = ground arith

canceled_shows_none :
    (id creator covenant_id : String) (s : Store)
    → (finalize_cancellation id creator covenant_id s).0 ≡ created
    → get_creator_covenant creator (finalize_cancellation id creator covenant_id s).1 ≡ none
unfolding finalize_cancellation get_creator_covenant
canceled_shows_none id creator covenant_id s h =
    elim (Option-cases (get creator s.creator_covenants)) [
      | inl e ↦ ground arith
      | inr (c, e) ↦ ground (
        arith,
        eq_iff creator creator,
        get-set creator creator (record c { status = some CovenantStatus.canceled })
            s.creator_covenants,
      )
    ]

shown_before :
    (id creator covenant_id : String) (s : Store)
    → (finalize_cancellation id creator covenant_id s).0 ≡ created
    → (c : CreatorCovenant) × (get_creator_covenant creator s ≡ some c)
      × (c.covenant_id ≡ covenant_id)
unfolding finalize_cancellation get_creator_covenant
shown_before id creator covenant_id s h = elim (Option-cases (get creator s.creator_covenants)) [
  | inl e ↦ absurd (ground arith)
  | inr (c, e) ↦ (shown c, ground arith, ground (arith, eq_iff c.covenant_id covenant_id))
]

canceled_before :
    (id creator covenant_id : String) (s : Store)
    → (c : CreatorCovenant) × (get_creator_covenant creator s ≡ some c)
      × (c.covenant_id ≡ covenant_id)
    → (finalize_cancellation id creator covenant_id s).0 ≡ created
unfolding finalize_cancellation get_creator_covenant
canceled_before id creator covenant_id s (c, seen, same) =
    ground (arith, eq_iff c.covenant_id covenant_id)

-- `finalizeCancellation` succeeds exactly if `getCreatorCovenant` shows a covenant of the creator with
-- the given id. Then it shows none, and a second cancellation of the same covenant is refused.
pub finalize_cancellation_outcome :
    (id again creator covenant_id : String) (s : Store)
    → let (outcome, t) = finalize_cancellation id creator covenant_id s in
      (outcome ≡ created) ↔ (
        (c : CreatorCovenant) × (get_creator_covenant creator s ≡ some c)
        × (c.covenant_id ≡ covenant_id)
        × (get_creator_covenant creator t ≡ none)
        × ((finalize_cancellation again creator covenant_id t).0 ≡ duplicate))
finalize_cancellation_outcome id again creator covenant_id s = (
  λ h.
      let (c, seen, same) = shown_before id creator covenant_id s h in
      let gone = canceled_shows_none id creator covenant_id s h in
      (
        c,
        seen,
        same,
        gone,
        nothing_to_cancel again creator covenant_id
            (finalize_cancellation id creator covenant_id s).1 gone,
      ),
  λ (c, seen, same, gone, refused). canceled_before id creator covenant_id s (c, seen, same),
)
