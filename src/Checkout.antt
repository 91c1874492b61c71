-- ===== src/Checkout.antt =====
-- backend/src/app.ts, the payment routes `/api/posts/:id/payments/prepare` and
-- `/api/payments/:id/finalize`, over the in-memory store. The address of the signed-in wallet, the
-- fresh id, the clock and the answers of the payment gateway are arguments. Metrics are left out; the
-- response is its kind with the values that it carries.
pub mod Prepare
pub mod Finalize
pub mod Settle
use onlykas.Prelude.{
  ℕ, ◌+◌, ◌*◌, String, Bool, true, false, not, ◌&&◌, ◌||◌, Option, none, some, ◌==◌, is_some,
  get_or, or_else, if◌then◌else◌,
}
use onlykas.Domain.{
  Post, Purchase, PreparedPayment, PreparedPaymentRecord, PaymentWorkflow, PaymentSubmission,
  WorkflowState, DuplicateOutcome,
}
use onlykas.Ports.{Call, returns, throws, PaymentGateway}
use onlykas.Store.{Store}
use onlykas.Store.Posts.{get_post}
use onlykas.Store.Purchases.{get_purchase, finalize_purchase}
use onlykas.Store.Payments.{
  save_prepared_payment, get_prepared_payment, delete_prepared_payment, prune_prepared_payments,
  save_payment_workflow, get_payment_workflow, delete_payment_workflow,
}

-- Five minutes.
abbrev pub prepared_ttl : ℕ
prepared_ttl = 5 * 60 * 1000

unfoldable pub is_free_post : String → Bool
is_free_post price = price == "0"

pub data PrepareResponse : Type 0 where
  unavailable post_not_found already_unlocked template_invalid insufficient_funds failed :
      PrepareResponse
  prepared : String → PreparedPayment → PrepareResponse

-- `buyer === post.creator || isFreePost(post.priceSompi) || (await getPurchase(post.id, buyer))`
unfoldable pub is_unlocked : Post → String → Store → Bool
is_unlocked post buyer s =
    buyer == post.creator || is_free_post post.price_sompi || is_some (get_purchase post.id buyer s)

-- `is_insufficient` says whether an error that the gateway throws has the message INSUFFICIENT_FUNDS.
unfoldable pub prepare_payment :
    Option PaymentGateway
    → (is_insufficient : Bool) (post_id buyer id : String) (pruned_at saved_at : ℕ) → Store
    → PrepareResponse × Store
prepare_payment none is_insufficient post_id buyer id pruned_at saved_at s = (unavailable, s)
prepare_payment (some gateway) is_insufficient post_id buyer id pruned_at saved_at s =
    elim (get_post post_id s) [
      | none ↦ (post_not_found, s)
      | some post ↦
          if is_unlocked post buyer s
          then (already_unlocked, s)
          else elim (gateway.prepare post buyer) [
            | throws ↦ (if is_insufficient then insufficient_funds else failed, s)
            | returns payment ↦
                if not (payment.amount_sompi == post.price_sompi)
                  || not (payment.creator == post.creator)
                then (template_invalid, s)
                else (
                  prepared id payment,
                  save_prepared_payment
                      (record {
                        id = id;
                        transaction = payment.transaction;
                        fingerprint = payment.fingerprint;
                        amount_sompi = payment.amount_sompi;
                        creator = payment.creator;
                        post_id = post.id;
                        buyer = buyer;
                        expires_at = saved_at + prepared_ttl;
                      })
                      (prune_prepared_payments pruned_at s),
                )
          ]
    ]

pub data FinalizeResponse : Type 0 where
  unavailable payment_not_found failed purchase_exists : FinalizeResponse
  pending : Option String → FinalizeResponse
  rejected : Option String → FinalizeResponse
  confirmed : String → FinalizeResponse

abbrev pub payment_of : PreparedPaymentRecord → PreparedPayment
payment_of r = record {
  transaction = r.transaction;
  fingerprint = r.fingerprint;
  amount_sompi = r.amount_sompi;
  creator = r.creator;
}

-- What the gateway says of the payment: an id with a workflow is asked for, and any other is submitted,
-- if the body of the request holds a signed transaction; a body without one throws.
unfoldable pub find_submission :
    PaymentGateway
    → PreparedPaymentRecord
    → Option PaymentWorkflow
    → Option String
    → Call PaymentSubmission
find_submission gateway r none none = throws
find_submission gateway r none (some signed) = gateway.submit (payment_of r) signed
find_submission gateway r (some w) signed = elim w.state [
  | WorkflowState.confirmed ↦ returns (record {
    is_accepted = some true;
    transaction_id = some w.transaction_id;
    rejection = w.rejection;
  })
  | _ ↦ gateway.status w.transaction_id
]

abbrev pub known_transaction : Option PaymentWorkflow → Option String
known_transaction none = none
known_transaction (some w) = some w.transaction_id

-- The transaction of an accepted submission; an empty id counts as none.
abbrev pub accepted_transaction : PaymentSubmission → Option String
accepted_transaction a = elim a.is_accepted [
  | none ↦ none
  | some accepted ↦ elim a.transaction_id [
    | none ↦ none
    | some id ↦ if accepted && not (id == "") then some id else none
  ]
]

module _ (id : String) (clock : ℕ) where
  abbrev pub workflow_of : WorkflowState → String → PaymentWorkflow
  workflow_of state transaction = record {
    prepared_payment_id = id;
    state = state;
    transaction_id = transaction;
    rejection = none;
    submitted_at = none;
    finalized_at = none;
  }

  -- The submission is not accepted, or names no transaction.
  unfoldable pub refuse :
      PaymentSubmission → Option PaymentWorkflow → Store → FinalizeResponse × Store
  refuse a workflow s = elim a.is_accepted [
    | none ↦ (
      pending a.transaction_id,
      save_payment_workflow
          (workflow_of WorkflowState.submitted
            (get_or (or_else a.transaction_id (known_transaction workflow)) ""))
          clock s,
    )
    | some _ ↦ (rejected a.rejection, delete_prepared_payment id (delete_payment_workflow id s))
  ]

  unfoldable pub accept : PreparedPaymentRecord → String → Store → FinalizeResponse × Store
  accept r transaction s =
      let (outcome, t) =
        finalize_purchase id
          (record { post_id = r.post_id; buyer = r.buyer; transaction_id = transaction })
          (save_payment_workflow (workflow_of WorkflowState.confirmed transaction) clock s) in
      (
        elim outcome [
          | DuplicateOutcome.duplicate ↦ purchase_exists
          | DuplicateOutcome.created ↦ confirmed transaction
        ],
        delete_payment_workflow id t,
      )

  -- `now` is the time of the read and `clock` that of the write.
  unfoldable pub finalize_payment :
      Option PaymentGateway
      → (address : String) (signed : Option String) (now : ℕ) → Store
      → FinalizeResponse × Store
  finalize_payment none address signed now s = (unavailable, s)
  finalize_payment (some gateway) address signed now s = elim (get_prepared_payment id now s) [
    | none ↦ (payment_not_found, s)
    | some r ↦
        if not (r.buyer == address)
        then (payment_not_found, s)
        else elim (find_submission gateway r (get_payment_workflow id s) signed) [
          | throws ↦ (failed, s)
          | returns a ↦ elim (accepted_transaction a) [
            | none ↦ refuse a (get_payment_workflow id s) s
            | some transaction ↦ accept r transaction s
          ]
        ]
  ]
