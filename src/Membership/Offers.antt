-- ===== src/Membership/Offers.antt =====
-- backend/src/app.ts: what confirmed offers, price updates and cancellations leave to be shown.
use onlykas.Prelude.{ℕ, String, ◌≡◌, Option, none, some, arith, eq_iff, inl, inr, Option-cases}
use onlykas.Map.{get}
use onlykas.Map.Laws.{get-set}
use onlykas.Domain.{CreatorCovenant, CovenantStatus, MembershipKind, PreparedMembershipRecord}
use onlykas.Store.{Store}
use onlykas.Store.Covenants.{get_creator_covenant, finalize_price_update, record_covenant}
use onlykas.Store.Memberships.{save_membership_workflow, delete_membership_workflow}
use onlykas.Store.Offers.{shown, finalize_offer_outcome, finalize_cancellation_outcome}
use onlykas.Membership.{MembershipTransactions}
use onlykas.Membership.Finalize.{
  confirmed, mapping_of, undecided, accept_offer, accept_cancel, accept_price, offer_finalize,
  cancel_finalize,
}
use onlykas.Membership.Settle.{IsPreparedFor, Settled, settled, settle-cases}

module _ (id : String) (clock : ℕ) (v : PreparedMembershipRecord) (t u : String) (s : Store) where
  accept_offer-shows :
      (accept_offer id clock v t s).0 ≡ confirmed u
      → (get_creator_covenant v.creator s ≡ none)
        × (get_creator_covenant v.creator (accept_offer id clock v t s).1
            ≡ some (shown (mapping_of v)))
  unfolding accept_offer get_creator_covenant save_membership_workflow delete_membership_workflow
  accept_offer-shows h = elim (finalize_offer_outcome id v.creator (mapping_of v) s) [
    | inl (e, before, after) ↦ ground (arith, h, e, before, after, eq_iff v.creator v.creator)
    | inr (e, same) ↦ absurd (ground (arith, h, e))
  ]

  accept_cancel-shows :
      (accept_cancel id clock v t s).0 ≡ confirmed u
      → (c : CreatorCovenant) × (get_creator_covenant v.creator s ≡ some c)
        × (c.covenant_id ≡ v.covenant_id)
        × (get_creator_covenant v.creator (accept_cancel id clock v t s).1 ≡ none)
  unfolding accept_cancel get_creator_covenant delete_membership_workflow
  accept_cancel-shows h =
      let (c, before, same, after, _) =
        (finalize_cancellation_outcome id id v.creator v.covenant_id s).0 (ground (arith, h)) in
      (c, before, same, after)

  accept_price-shows :
      (accept_price id clock v t s).0 ≡ confirmed u
      → (c : CreatorCovenant) × (get v.creator s.creator_covenants ≡ some c)
        × (c.covenant_id ≡ v.covenant_id)
        × (get_creator_covenant v.creator (accept_price id clock v t s).1
            ≡ some (shown (mapping_of v)))
  unfolding accept_price get_creator_covenant delete_membership_workflow finalize_price_update
      record_covenant
  accept_price-shows h = elim (Option-cases (get v.creator s.creator_covenants)) [
    | inl e ↦ absurd (ground (arith, e, h))
    | inr (c, e) ↦ (
      c,
      e,
      ground (arith, e, h, eq_iff c.covenant_id v.covenant_id),
      ground (
        arith,
        e,
        h,
        eq_iff v.creator v.creator,
        get-set v.creator v.creator (record (mapping_of v) { status = some CovenantStatus.active })
            s.creator_covenants,
      ),
    )
  ]

module _ (id : String) (clock : ℕ) (gateway : MembershipTransactions) (kind : MembershipKind)
    (address : String) (signed : Option String) (now : ℕ)
    (accept : PreparedMembershipRecord → String → Store → Settled) (s : Store) where
  -- What is confirmed was prepared for the wallet, and taken on by the route.
  settle-confirmed :
      (u : String)
      → (settled id clock gateway kind address signed now accept s).0 ≡ confirmed u
      → (v : PreparedMembershipRecord) × (t : String) × IsPreparedFor kind id address now s v
        × (settled id clock gateway kind address signed now accept s ≡ accept v t s)
  unfolding undecided
  settle-confirmed u h = elim (settle-cases id clock gateway kind address signed now accept s) [
    | inl e ↦ absurd (ground (arith, e, h))
    | inr (inl e) ↦ absurd (ground (arith, e, h))
    | inr (inr (inl e)) ↦ absurd (ground (arith, e, h))
    | inr (inr (inr w)) ↦ elim w.outcome [
      | inl (k, e) ↦ absurd (ground (arith, e, h))
      | inr (t, k, e) ↦ (w.v, t, w.prepared, e)
    ]
  ]

module _ (id : String) (clock : ℕ) (gateway : MembershipTransactions) (address : String)
    (signed : Option String) (now : ℕ) (s : Store) where
  -- A confirmed offer was prepared by the signed-in creator, who showed no covenant before, and shows
  -- the prepared one for the prepared price afterwards.
  pub offer_finalize_confirmed :
      (t : String)
      → (offer_finalize id clock (some gateway) address signed now s).0 ≡ confirmed t
      → (v : PreparedMembershipRecord) × IsPreparedFor MembershipKind.offer id address now s v
        × (get_creator_covenant address s ≡ none)
        × (get_creator_covenant address
              (offer_finalize id clock (some gateway) address signed now s).1
            ≡ some (shown (mapping_of v)))
  unfolding offer_finalize
  offer_finalize_confirmed t h =
      let (v, u, p, e) =
        settle-confirmed id clock gateway MembershipKind.offer address signed now
          (accept_offer id clock) s t h in
      let (before, after) = accept_offer-shows id clock v u t s (ground (arith, e, h)) in
      (v, p, ground (arith, p, before), ground (arith, p, e, after))

  -- A confirmed cancellation was prepared by the signed-in creator for the covenant that the creator
  -- showed, and the creator shows none afterwards.
  pub cancel_finalize_confirmed :
      (t : String)
      → (cancel_finalize id clock (some gateway) address signed now s).0 ≡ confirmed t
      → (v : PreparedMembershipRecord) × (c : CreatorCovenant) × IsPreparedFor MembershipKind.cancel
          id address now s v
        × (get_creator_covenant address s ≡ some c)
        × (c.covenant_id ≡ v.covenant_id)
        × (get_creator_covenant address
              (cancel_finalize id clock (some gateway) address signed now s).1
            ≡ none)
  unfolding cancel_finalize
  cancel_finalize_confirmed t h =
      let (v, u, p, e) =
        settle-confirmed id clock gateway MembershipKind.cancel address signed now
          (accept_cancel id clock) s t h in
      let (c, before, same, after) = accept_cancel-shows id clock v u t s (ground (arith, e, h)) in
      (v, c, p, ground (arith, p, before), same, ground (arith, p, e, after))
