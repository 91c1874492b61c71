-- ===== src/Membership/Finalize.antt =====
-- backend/src/app.ts, the routes that finalize memberships: `/api/membership/offers/:id/finalize`,
-- `/api/membership/cancel/:id/finalize`, `/api/membership/price/:id/finalize` and
-- `/api/membership/purchases/:id/finalize`. `now` is the time of the read and `clock` that of a write.
use onlykas.Prelude.{
  ℕ, String, Bool, true, false, ◌&&◌, Option, none, some, ◌==◌, get_or, if◌then◌else◌,
}
use onlykas.Domain.{
  CreatorCovenant, MembershipKind, MembershipWorkflow, MembershipPurchase, MembershipCheck,
  MembershipCheckStatus, PreparedMembershipRecord, PaymentSubmission, WorkflowState,
  DuplicateOutcome,
}
use onlykas.Ports.{returns, throws, MembershipVerifier}
use onlykas.Checkout.{accepted_transaction}
use onlykas.Store.{Store}
use onlykas.Store.Covenants.{finalize_offer, finalize_price_update, finalize_cancellation}
use onlykas.Store.Purchases.{finalize_membership_purchase}
use onlykas.Store.Memberships.{
  get_prepared_membership, delete_prepared_membership, save_membership_workflow,
  delete_membership_workflow,
}
use onlykas.Membership.{Attempt, MembershipTransactions}

pub data FinalizeAnswer : Type 0 where
  unavailable not_found failed stale price_update_stale cancellation_stale already_exists :
      FinalizeAnswer
  pending rejected : Option String → FinalizeAnswer
  not_confirmed : MembershipCheck → FinalizeAnswer
  confirmed : String → FinalizeAnswer

abbrev pub same_kind : MembershipKind → MembershipKind → Bool
same_kind MembershipKind.offer MembershipKind.offer = true
same_kind MembershipKind.purchase MembershipKind.purchase = true
same_kind MembershipKind.update MembershipKind.update = true
same_kind MembershipKind.cancel MembershipKind.cancel = true
same_kind _ _ = false

-- Who may finalize: the buyer of a purchase, and the creator of anything else.
abbrev pub party : MembershipKind → PreparedMembershipRecord → String
party MembershipKind.purchase v = v.buyer
party _ v = v.creator

-- The record of that kind that was prepared for the wallet.
unfoldable pub find_prepared :
    MembershipKind → String → String → ℕ → Store → Option PreparedMembershipRecord
find_prepared kind id address now s = elim (get_prepared_membership id now s) [
  | none ↦ none
  | some v ↦ if same_kind v.kind kind && party kind v == address then some v else none
]

-- `deleteMembershipWorkflow(id)` and `deletePreparedMembership(id)`
abbrev pub forget : String → Store → Store
forget id s = delete_prepared_membership id (delete_membership_workflow id s)

-- The gateway gives every offer and price update a price: `priceSompi!`.
abbrev pub mapping_of : PreparedMembershipRecord → CreatorCovenant
mapping_of v = record {
  creator = v.creator;
  covenant_id = v.covenant_id;
  price_sompi = get_or v.price_sompi "";
  status = none;
}

abbrev pub answer_of : DuplicateOutcome → FinalizeAnswer → FinalizeAnswer → FinalizeAnswer
answer_of DuplicateOutcome.duplicate refused done = refused
answer_of DuplicateOutcome.created refused done = done

abbrev pub is_valid : MembershipCheckStatus → Bool
is_valid MembershipCheckStatus.valid = true
is_valid _ = false

abbrev pub receipt_of : PreparedMembershipRecord → String → MembershipPurchase
receipt_of v t = record {
  transaction_id = t;
  buyer = v.buyer;
  creator = v.creator;
  covenant_id = some v.covenant_id;
}

module _ (id : String) (clock : ℕ) where
  abbrev pub workflow_of : WorkflowState → String → MembershipWorkflow
  workflow_of state transaction = record {
    prepared_membership_id = id;
    state = state;
    transaction_id = transaction;
    rejection = none;
    submitted_at = none;
    finalized_at = none;
  }

  -- The submission is not accepted, or names no transaction.
  unfoldable pub undecided : PaymentSubmission → Store → FinalizeAnswer × Store
  undecided a s = elim a.is_accepted [
    | some _ ↦ (rejected a.rejection, forget id s)
    | none ↦ elim a.transaction_id [
      | none ↦ (pending none, forget id s)
      | some t ↦ (
        pending (some t),
        if t == ""
            then forget id s
            else save_membership_workflow (workflow_of WorkflowState.submitted t) clock s,
      )
    ]
  ]

  -- The part that the four routes share, with what is done once the submission is accepted.
  unfoldable pub settle :
      MembershipTransactions
      → MembershipKind
      → (address : String) (signed : Option String) (now : ℕ)
      → (PreparedMembershipRecord → String → Store → FinalizeAnswer × Store)
      → Store
      → FinalizeAnswer × Store
  settle gateway kind address signed now accept s = elim (find_prepared kind id address now s) [
    | none ↦ (not_found, s)
    | some v ↦ elim signed [
      | none ↦ (failed, s)
      | some body ↦ elim (gateway.submit v body) [
        | Attempt.state_changed ↦ (stale, forget id s)
        | Attempt.lacks_funds ↦ (failed, s)
        | Attempt.fails ↦ (failed, s)
        | Attempt.succeeds a ↦ elim (accepted_transaction a) [
          | none ↦ undecided a s
          | some t ↦ accept v t s
        ]
      ]
    ]
  ]

  unfoldable pub accept_offer : PreparedMembershipRecord → String → Store → FinalizeAnswer × Store
  accept_offer v t s =
      let (outcome, u) = finalize_offer id (mapping_of v) s in
      (
        answer_of outcome already_exists (confirmed t),
        delete_membership_workflow id
            (save_membership_workflow (workflow_of WorkflowState.confirmed t) clock u),
      )

  unfoldable pub accept_price : PreparedMembershipRecord → String → Store → FinalizeAnswer × Store
  accept_price v t s =
      let (outcome, u) = finalize_price_update id (mapping_of v) s in
      (answer_of outcome price_update_stale (confirmed t), delete_membership_workflow id u)

  unfoldable pub accept_cancel : PreparedMembershipRecord → String → Store → FinalizeAnswer × Store
  accept_cancel v t s =
      let (outcome, u) = finalize_cancellation id v.creator v.covenant_id s in
      (answer_of outcome cancellation_stale (confirmed t), delete_membership_workflow id u)

  -- The gateway gives every purchase an output index: `memberOutputIndex!`.
  unfoldable pub accept_purchase :
      MembershipVerifier → PreparedMembershipRecord → String → Store → FinalizeAnswer × Store
  accept_purchase verifier v t s =
      elim (verifier.verify_utxo t (get_or v.member_output_index 0) v.buyer v.covenant_id
        v.creator) [
          | throws ↦ (failed, s)
          | returns check ↦
              let (outcome, u) = finalize_membership_purchase id (receipt_of v t) s in
              if is_valid check.status
              then (
                answer_of outcome already_exists (confirmed t),
                delete_membership_workflow id
                    (save_membership_workflow (workflow_of WorkflowState.confirmed t) clock u),
              )
              else (not_confirmed check, forget id s)
        ]

  module _ (gateway : Option MembershipTransactions) (address : String) (signed : Option String)
      (now : ℕ) where
    unfoldable pub offer_finalize : Store → FinalizeAnswer × Store
    offer_finalize s = elim gateway [
      | none ↦ (unavailable, s)
      | some g ↦ settle g MembershipKind.offer address signed now accept_offer s
    ]

    unfoldable pub cancel_finalize : Store → FinalizeAnswer × Store
    cancel_finalize s = elim gateway [
      | none ↦ (unavailable, s)
      | some g ↦ settle g MembershipKind.cancel address signed now accept_cancel s
    ]

    unfoldable pub price_finalize : Store → FinalizeAnswer × Store
    price_finalize s = elim gateway [
      | none ↦ (unavailable, s)
      | some g ↦ settle g MembershipKind.update address signed now accept_price s
    ]

    unfoldable pub purchase_finalize : Option MembershipVerifier → Store → FinalizeAnswer × Store
    purchase_finalize verifier s = elim gateway [
      | none ↦ (unavailable, s)
      | some g ↦ elim verifier [
        | none ↦ (unavailable, s)
        | some w ↦ settle g MembershipKind.purchase address signed now (accept_purchase w) s
      ]
    ]
