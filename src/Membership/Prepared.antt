-- ===== src/Membership/Prepared.antt =====
-- backend/src/app.ts: what a prepared membership requires, and who may finalize it.
use onlykas.Prelude.{
  ℕ, ◌+◌, ◌≤◌, String, ◌≡◌, refl, ◌∙◌, ◌≢◌, Bool, true, Option, none, some, arith, ◌==◌, eq_iff,
  ltb, inl, inr, Bool-cases, Option-cases, if◌then◌else◌,
}
use onlykas.Map.Laws.{get-set, get-delete}
use onlykas.Domain.{CreatorCovenant, MembershipKind, PreparedMembershipRecord, PaymentSubmission}
use onlykas.Checkout.{prepared_ttl, accepted_transaction}
use onlykas.Ports.{MembershipVerifier}
use onlykas.Price.{
  Text, digits, membership_price_problem, parse_membership_price, parse_post_price,
  min_membership_price, max_membership_price,
}
use onlykas.Price.Roundtrip.{parse_membership_price_iff}
use onlykas.Store.{Store}
use onlykas.Store.Covenants.{get_creator_covenant}
use onlykas.Store.Memberships.{
  get_prepared_membership, save_prepared_membership, prune_prepared_memberships,
  delete_prepared_membership, delete_membership_workflow,
}
use onlykas.Membership.{
  Attempt, MembershipTransactions, PreparedMembershipTransaction, PrepareAnswer, prepared,
  prepared_record, keep_prepared, decimal_text, offer_prepare, purchase_prepare,
}
use onlykas.Membership.Finalize.{
  not_found, pending, find_prepared, settle, undecided, forget, offer_finalize, cancel_finalize,
  price_finalize, purchase_finalize,
}

abbrev pub Prepare : Type 0
Prepare = PrepareAnswer × Store

module _ (id : String) (kind : MembershipKind) (creator buyer : String)
    (pruned_at saved_at : ℕ) where
  -- What is stored can be read until it expires.
  keep_prepared-prepared :
      (attempt : Attempt PreparedMembershipTransaction) (s : Store)
      (value : PreparedMembershipTransaction) (t : ℕ)
      → (keep_prepared id kind creator buyer pruned_at saved_at attempt s).0 ≡ prepared id value
      → (attempt ≡ Attempt.succeeds value)
        × (get_prepared_membership id t
              (keep_prepared id kind creator buyer pruned_at saved_at attempt s).1
            ≡ (if ltb t (saved_at + prepared_ttl)
                then some (prepared_record id kind creator buyer saved_at value)
                else none))
  unfolding keep_prepared get_prepared_membership save_prepared_membership
  keep_prepared-prepared Attempt.state_changed s value t h = cc
  keep_prepared-prepared Attempt.lacks_funds s value t h = cc
  keep_prepared-prepared Attempt.fails s value t h = cc
  keep_prepared-prepared (Attempt.succeeds v) s value t h = ground (
    arith,
    h,
    eq_iff id id,
    get-set id id (prepared_record id kind creator buyer saved_at v)
        (prune_prepared_memberships pruned_at s).prepared_membership_records,
  )

module _ (id : String) (pruned_at saved_at : ℕ) (gateway : MembershipTransactions) where
  -- A prepared purchase of a membership is for another creator than the buyer, for the covenant and
  -- the price that this creator shows, as the gateway made it; its record can be read from the store
  -- until five minutes after it was saved.
  pub purchase_prepare_prepared :
      (is_address : String → Bool) (creator buyer : String) (s : Store)
      (value : PreparedMembershipTransaction) (t : ℕ)
      → (purchase_prepare id pruned_at saved_at (some gateway) is_address creator buyer s).0
        ≡ prepared id value
      → (is_address creator ≡ true)
        × (buyer ≢ creator)
        × ((c : CreatorCovenant) × (get_creator_covenant creator s ≡ some c)
            × (gateway.prepare_mint creator buyer c.covenant_id c.price_sompi
                ≡ Attempt.succeeds value))
        × (get_prepared_membership id t
              (purchase_prepare id pruned_at saved_at (some gateway) is_address creator buyer s).1
            ≡ (if ltb t (saved_at + prepared_ttl)
                then some (prepared_record id MembershipKind.purchase creator buyer saved_at value)
                else none))
  unfolding purchase_prepare
  purchase_prepare_prepared is_address creator buyer s value t h =
      elim (Bool-cases (is_address creator)) [
        | inr e ↦ absurd (ground (arith, e, h))
        | inl e ↦ elim (Bool-cases (buyer == creator)) [
          | inl f ↦ absurd (ground (arith, e, f, h))
          | inr f ↦ elim (Option-cases (get_creator_covenant creator s)) [
            | inl g ↦ absurd (ground (arith, e, f, g, h))
            | inr (c, g) ↦
                let kept =
                  keep_prepared-prepared id MembershipKind.purchase creator buyer pruned_at saved_at
                    (gateway.prepare_mint creator buyer c.covenant_id c.price_sompi) s value t in
                let step : purchase_prepare id pruned_at saved_at (some gateway) is_address creator
                      buyer s
                    ≡ keep_prepared id MembershipKind.purchase creator buyer pruned_at saved_at
                        (gateway.prepare_mint creator buyer c.covenant_id c.price_sompi) s =
                  rw (e, f, g, purchase_prepare) refl in
                let (made, stored) = kept (rw (← step) h) in
                (
                  e,
                  λ same. ground (arith, f, eq_iff buyer creator, same),
                  (c, g, made),
                  rw step stored,
                )
          ]
        ]
      ]

-- A prepared membership can be finalized by its buyer or its creator only: to any other wallet all
-- four routes answer that there is none, and the store is as it was.
pub finalize_by_others :
    (id : String) (clock : ℕ) (gateway : MembershipTransactions) (verifier : MembershipVerifier)
    (address : String) (signed : Option String) (now : ℕ) (s : Store) (v : PreparedMembershipRecord)
    → get_prepared_membership id now s ≡ some v
    → v.creator ≢ address
    → v.buyer ≢ address
    → (offer_finalize id clock (some gateway) address signed now s ≡ (not_found, s))
      × (cancel_finalize id clock (some gateway) address signed now s ≡ (not_found, s))
      × (price_finalize id clock (some gateway) address signed now s ≡ (not_found, s))
      × (purchase_finalize id clock (some gateway) address signed now (some verifier) s
          ≡ (not_found, s))
unfolding offer_finalize cancel_finalize price_finalize purchase_finalize settle find_prepared
finalize_by_others id clock gateway verifier address signed now s v e creator buyer =
    ground (arith, e, eq_iff v.creator address, eq_iff v.buyer address, creator, buyer)

module _ (id : String) (pruned_at saved_at : ℕ) (gateway : MembershipTransactions) where
  -- A prepared offer is by a creator who shows no covenant, for a price from 1 KAS to 1,000,000 KAS
  -- that the text of the request stands for, as the gateway made it for the decimal digits of that
  -- price; its record can be read from the store until five minutes after it was saved.
  pub offer_prepare_prepared :
      (creator : String) (price : Text) (s : Store) (value : PreparedMembershipTransaction) (t : ℕ)
      → (offer_prepare id pruned_at saved_at (some gateway) creator price s).0 ≡ prepared id value
      → (get_creator_covenant creator s ≡ none)
        × ((n : ℕ) × (parse_post_price price ≡ some n)
            × (min_membership_price ≤ n)
            × (n ≤ max_membership_price)
            × (gateway.prepare_offer creator (decimal_text (digits n)) ≡ Attempt.succeeds value))
        × (get_prepared_membership id t
              (offer_prepare id pruned_at saved_at (some gateway) creator price s).1
            ≡ (if ltb t (saved_at + prepared_ttl)
                then some (prepared_record id MembershipKind.offer creator creator saved_at value)
                else none))
  unfolding offer_prepare
  offer_prepare_prepared creator price s value t h =
      elim (Option-cases (membership_price_problem price)) [
        | inr (problem, e) ↦ absurd (ground (arith, e, h))
        | inl e ↦ elim (Option-cases (parse_membership_price price)) [
          | inl f ↦ absurd (ground (arith, e, f, h))
          | inr (n, f) ↦ elim (Option-cases (get_creator_covenant creator s)) [
            | inr (c, g) ↦ absurd (ground (arith, e, f, g, h))
            | inl g ↦
                let attempt = gateway.prepare_offer creator (decimal_text (digits n)) in
                let kept =
                  keep_prepared-prepared id MembershipKind.offer creator creator pruned_at saved_at
                    attempt s value t in
                let step : offer_prepare id pruned_at saved_at (some gateway) creator price s
                    ≡ keep_prepared id MembershipKind.offer creator creator pruned_at saved_at
                        attempt s =
                  rw (e, f, g, offer_prepare) refl in
                let (made, stored) = kept (rw (← step) h) in
                let (parsed, low, high) = (parse_membership_price_iff price n).0 f in
                (g, (n, parsed, low, high, made), rw step stored)
          ]
        ]
      ]

forget-find_prepared :
    (kind : MembershipKind) (id address : String) (now : ℕ) (s : Store)
    → find_prepared kind id address now (forget id s) ≡ none
unfolding find_prepared get_prepared_membership delete_prepared_membership
    delete_membership_workflow
forget-find_prepared kind id address now s =
    ground (arith, eq_iff id id, get-delete id id s.prepared_membership_records)

module _ (id : String) (clock : ℕ) (gateway : MembershipTransactions)
    (verifier : MembershipVerifier) (address : String) (now : ℕ) (s : Store) where
  finalize_missing :
      (signed : Option String)
      → find_prepared MembershipKind.purchase id address now s ≡ none
      → purchase_finalize id clock (some gateway) address signed now (some verifier) s
        ≡ (not_found, s)
  unfolding purchase_finalize settle
  finalize_missing signed e = rw (e, settle) refl

  finalize_undecided :
      (body : String) (v : PreparedMembershipRecord) (a : PaymentSubmission)
      → find_prepared MembershipKind.purchase id address now s ≡ some v
      → gateway.submit v body ≡ Attempt.succeeds a
      → accepted_transaction a ≡ none
      → purchase_finalize id clock (some gateway) address (some body) now (some verifier) s
        ≡ undecided id clock a s
  unfolding purchase_finalize settle
  finalize_undecided body v a e f g = rw (e, f, g, settle) refl

  undecided_nothing :
      (a : PaymentSubmission)
      → a.is_accepted ≡ none
      → a.transaction_id ≡ none
      → undecided id clock a s ≡ (pending none, forget id s)
  unfolding undecided
  undecided_nothing a g h = rw (g, h, undecided) refl

-- Where the gateway can say neither whether it accepts a purchase nor what its transaction is, the
-- request is answered as pending, and the prepared record is deleted, so that the next request for it
-- finds nothing, whatever the gateway would then answer.
pub pending_without_transaction :
    (id : String) (clock clock' : ℕ) (gateway gateway' : MembershipTransactions)
    (verifier : MembershipVerifier) (address body : String) (again : Option String) (now later : ℕ)
    (s : Store) (v : PreparedMembershipRecord) (a : PaymentSubmission)
    → find_prepared MembershipKind.purchase id address now s ≡ some v
    → gateway.submit v body ≡ Attempt.succeeds a
    → a.is_accepted ≡ none
    → a.transaction_id ≡ none
    → let (answer, t) =
        purchase_finalize id clock (some gateway) address (some body) now (some verifier) s in
      (answer ≡ pending none)
      × (purchase_finalize id clock' (some gateway') address again later (some verifier) t
          ≡ (not_found, t))
pending_without_transaction id clock clock' gateway gateway' verifier address body again now later s
      v a e f g h =
    let step =
      finalize_undecided id clock gateway verifier address now s body v a e f (ground (arith, g))
      ∙ undecided_nothing id clock gateway verifier address now s a g h in
    rw step (
      refl,
      finalize_missing id clock' gateway' verifier address later (forget id s) again
          (forget-find_prepared MembershipKind.purchase id address later s),
    )
