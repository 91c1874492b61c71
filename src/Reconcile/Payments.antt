-- ===== src/Reconcile/Payments.antt =====
-- backend/src/application/reconcile-workflows.ts: the pass over the payment workflows.
use onlykas.Prelude.{ℕ, ◌+◌, String, none, some, List, [], ◌∷◌, ltb, is_some, if◌then◌else◌}
use onlykas.Domain.{PaymentWorkflow, PreparedPaymentRecord, PaymentSubmission, confirmed, rejected}
use onlykas.Ports.{Call, returns, throws, PaymentGateway}
use onlykas.Store.Payments.{
  get_prepared_payment, pending_payment_workflows, claim_payment_workflow_terminal,
  delete_payment_workflow,
}
use onlykas.Store.Purchases.{finalize_purchase}
use onlykas.Reconcile.{Reconciler, Pass, workflow_age, scan}

module _ (w : PaymentWorkflow) (now : ℕ) where
  unfoldable pub abandon_payment : String → Pass → Pass
  abandon_payment reason p =
      let (claimed, s) =
        claim_payment_workflow_terminal w.prepared_payment_id rejected now (some reason) p.store in
      if is_some claimed
      then record {
        summary = record p.summary { abandoned = p.summary.abandoned + 1 };
        store = delete_payment_workflow w.prepared_payment_id s;
      }
      else record p { store = s }

  unfoldable pub reject_payment : Pass → Pass
  reject_payment p =
      let (claimed, s) =
        claim_payment_workflow_terminal w.prepared_payment_id rejected now
          (some "RECONCILED_REJECTED") p.store in
      if is_some claimed
      then record {
        summary = record p.summary { rejected = p.summary.rejected + 1 };
        store = delete_payment_workflow w.prepared_payment_id s;
      }
      else record p { store = s }

  unfoldable pub confirm_payment : PreparedPaymentRecord → String → Pass → Pass
  confirm_payment prepared transaction_id p =
      let (claimed, s) =
        claim_payment_workflow_terminal w.prepared_payment_id confirmed now none p.store in
      if is_some claimed
      then (let (_, s') =
            finalize_purchase w.prepared_payment_id
              (record {
                post_id = prepared.post_id;
                buyer = prepared.buyer;
                transaction_id = transaction_id;
              })
              s in
          record {
            summary = record p.summary { confirmed = p.summary.confirmed + 1 };
            store = delete_payment_workflow w.prepared_payment_id s';
          })
      else record p { store = s }

  unfoldable pub retry_or_abandon_payment : ℕ → Pass → Pass
  retry_or_abandon_payment stale p =
      if ltb stale (workflow_age w.submitted_at now)
      then abandon_payment "unconfirmed_timeout" p
      else record p { summary = record p.summary { retried = p.summary.retried + 1 } }

  -- What the answer of the gateway leads to.
  unfoldable pub settle_payment : ℕ → PreparedPaymentRecord → Call PaymentSubmission → Pass → Pass
  settle_payment stale prepared throws p = p
  settle_payment stale prepared (returns submission) p = elim submission.is_accepted [
    | none ↦ retry_or_abandon_payment stale p
    | some accepted ↦
        if accepted then confirm_payment prepared w.transaction_id p else reject_payment p
  ]

-- A throw ends the workflow's turn, with the store as it is then.
unfoldable pub reconcile_payment : PaymentGateway → ℕ → PaymentWorkflow → ℕ → Pass → Pass
reconcile_payment gateway stale w now p =
    elim (get_prepared_payment w.prepared_payment_id now p.store) [
      | none ↦ abandon_payment w now "prepared_missing" p
      | some prepared ↦ settle_payment w now stale prepared (gateway.status w.transaction_id) p
    ]

unfoldable pub reconcile_each_payment : PaymentGateway → ℕ → ℕ → List PaymentWorkflow → Pass → Pass
reconcile_each_payment gateway stale now [] p = p
reconcile_each_payment gateway stale now (w ∷ ws) p =
    reconcile_each_payment gateway stale now ws (reconcile_payment gateway stale w now (scan p))

unfoldable pub reconcile_payments : Reconciler → ℕ → Pass → Pass
reconcile_payments d now p = elim d.payment_gateway [
  | none ↦ p
  | some gateway ↦
      reconcile_each_payment gateway d.stale_workflow_ms now
        (pending_payment_workflows d.locale d.batch_size p.store) p
]
