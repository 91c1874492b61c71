-- ===== src/Reconcile/Evidence.antt =====
-- Every purchase that the reconciler records rests on the answer of the chain and on the record that
-- the server prepared.
use onlykas.Prelude.{
  ℕ, ◌<◌, String, ◌≡◌, refl, ◌∙◌, true, none, some, List, [], ◌∷◌, arith, eq_iff, ◌⊎◌, inl, inr,
  Option-cases,
}
use onlykas.Prelude.Lists.{In}
use onlykas.Map.{get}
use onlykas.Map.Laws.{get-set}
use onlykas.Domain.{
  PaymentWorkflow, PreparedPaymentRecord, PaymentSubmission, Purchase, confirmed, rejected,
}
use onlykas.Ports.{Call, returns, throws, PaymentGateway}
use onlykas.Store.{Store}
use onlykas.Store.Payments.{
  get_prepared_payment, claim_payment_workflow_terminal, delete_payment_workflow,
  pending_payment_workflows,
}
use onlykas.Store.Purchases.{finalize_purchase, create_purchase, purchase_key}
use onlykas.Reconcile.{Reconciler, Pass, scan}
use onlykas.Reconcile.Payments.{
  abandon_payment, reject_payment, confirm_payment, retry_or_abandon_payment, settle_payment,
  reconcile_payment, reconcile_each_payment, reconcile_payments,
}
use onlykas.Reconcile.Turns.{Turn, claim_frame, reconcile_payment-Turn, each-Turn}

-- The purchase that a workflow and its prepared record stand for.
abbrev pub purchase_of : PaymentWorkflow → PreparedPaymentRecord → Purchase
purchase_of w r = record { post_id = r.post_id; buyer = r.buyer; transaction_id = w.transaction_id }

-- `x` is the purchase of a workflow among `ws` whose transaction the gateway reports as accepted, and
-- of the unexpired record that the server prepared for it.
pub record HasEvidence (gateway : PaymentGateway) (now : ℕ) (s : Store) (ws : List PaymentWorkflow)
    (x : Purchase) : Type 0 where
  pub workflow : PaymentWorkflow
  pub prepared : PreparedPaymentRecord
  pub submission : PaymentSubmission
  pub listed : In workflow ws
  pub answered : gateway.status workflow.transaction_id ≡ returns submission
  pub accepted : submission.is_accepted ≡ some true
  pub stored : get workflow.prepared_payment_id s.prepared_payment_records ≡ some prepared
  pub unexpired : now < prepared.expires_at
  pub purchased : x ≡ purchase_of workflow prepared

create_purchase-new :
    (v x : Purchase) (i : String) (s : Store)
    → get i s.purchases ≡ none
    → get i (create_purchase v s).1.purchases ≡ some x
    → x ≡ v
unfolding create_purchase
create_purchase-new v x i s h e = ground (
  arith,
  eq_iff (purchase_key v.post_id v.buyer) i,
  get-set (purchase_key v.post_id v.buyer) i v s.purchases,
)

module _ (w : PaymentWorkflow) (now : ℕ) (p : Pass) where
  pub abandon-purchases :
      (reason : String) → (abandon_payment w now reason p).store.purchases ≡ p.store.purchases
  unfolding abandon_payment delete_payment_workflow
  abandon-purchases reason =
      ground (arith, claim_frame w.prepared_payment_id rejected now (some reason) p.store)

  reject-purchases : (reject_payment w now p).store.purchases ≡ p.store.purchases
  unfolding reject_payment delete_payment_workflow
  reject-purchases =
      ground
        (arith, claim_frame w.prepared_payment_id rejected now (some "RECONCILED_REJECTED") p.store)

  module _ (r : PreparedPaymentRecord) (i : String) (x : Purchase)
      (h : get i p.store.purchases ≡ none) where
    confirm-new :
        get i (confirm_payment w now r w.transaction_id p).store.purchases ≡ some x
        → x ≡ purchase_of w r
    unfolding confirm_payment delete_payment_workflow finalize_purchase
    confirm-new e =
        let s' =
          (claim_payment_workflow_terminal w.prepared_payment_id confirmed now none p.store).1 in
        ground (
          arith,
          claim_frame w.prepared_payment_id confirmed now none p.store,
          create_purchase-new (purchase_of w r) x i s',
        )

    settle-new :
        (stale : ℕ) (answer : Call PaymentSubmission)
        → get i (settle_payment w now stale r answer p).store.purchases ≡ some x
        → (a : PaymentSubmission) × (answer ≡ returns a)
          × (a.is_accepted ≡ some true)
          × (x ≡ purchase_of w r)
    unfolding settle_payment retry_or_abandon_payment
    settle-new stale throws e = absurd (cc)
    settle-new stale (returns a) e = (
      a,
      refl,
      ground (arith, abandon-purchases "unconfirmed_timeout", reject-purchases),
      ground (arith, abandon-purchases "unconfirmed_timeout", reject-purchases, confirm-new),
    )

found_prepared :
    (id : String) (now : ℕ) (r : PreparedPaymentRecord) (s : Store)
    → get_prepared_payment id now s ≡ some r
    → (get id s.prepared_payment_records ≡ some r) × (now < r.expires_at)
unfolding get_prepared_payment
found_prepared id now r s e = ground arith

module _ (gateway : PaymentGateway) (stale now : ℕ) where
  turn-new :
      (w : PaymentWorkflow) (p : Pass) (i : String) (x : Purchase)
      → get i p.store.purchases ≡ none
      → get i (reconcile_payment gateway stale w now p).store.purchases ≡ some x
      → HasEvidence gateway now p.store (w ∷ []) x
  unfolding reconcile_payment
  turn-new w p i x h e =
      elim (Option-cases (get_prepared_payment w.prepared_payment_id now p.store)) [
        | inl missing ↦ absurd (ground (arith, abandon-purchases w now p "prepared_missing"))
        | inr (r, found) ↦
            let (a, answered, accepted, same) =
              settle-new w now p r i x h stale (gateway.status w.transaction_id)
                (rw (found, reconcile_payment) at e) in
            record {
              workflow = w;
              prepared = r;
              submission = a;
              listed = inl refl;
              answered = answered;
              accepted = accepted;
              stored = (found_prepared w.prepared_payment_id now r p.store found).0;
              unexpired = (found_prepared w.prepared_payment_id now r p.store found).1;
              purchased = same;
            }
      ]

  weaken :
      (w : PaymentWorkflow) (ws : List PaymentWorkflow) (p q : Pass) (x : Purchase)
      → Turn p q
      → HasEvidence gateway now q.store ws x
      → HasEvidence gateway now p.store (w ∷ ws) x
  weaken w ws p q x t e = record {
    workflow = e.workflow;
    prepared = e.prepared;
    submission = e.submission;
    listed = inr e.listed;
    answered = e.answered;
    accepted = e.accepted;
    stored = t.prepared e.workflow.prepared_payment_id e.prepared e.stored;
    unexpired = e.unexpired;
    purchased = e.purchased;
  }

  each-new :
      (ws : List PaymentWorkflow) (p : Pass) (i : String) (x : Purchase)
      → get i p.store.purchases ≡ none
      → get i (reconcile_each_payment gateway stale now ws p).store.purchases ≡ some x
      → HasEvidence gateway now p.store ws x
  unfolding reconcile_each_payment
  each-new [] p i x h e = absurd (cc)
  each-new (w ∷ ws) p i x h e =
      let q = reconcile_payment gateway stale w now (scan p) in
      elim (Option-cases (get i q.store.purchases)) [
        | inl before ↦
            weaken w ws (scan p) q x (reconcile_payment-Turn gateway stale w now (scan p))
              (each-new ws q i x before e)
        | inr (y, done) ↦
            let v = turn-new w (scan p) i y h done in
            let same : x ≡ y = cc ((each-Turn gateway stale now ws q).purchases i y done) in
            record {
              workflow = v.workflow;
              prepared = v.prepared;
              submission = v.submission;
              listed = only w ws v.workflow v.listed;
              answered = v.answered;
              accepted = v.accepted;
              stored = v.stored;
              unexpired = v.unexpired;
              purchased = same ∙ v.purchased;
            }
      ]
    where
      only :
          (w : PaymentWorkflow) (ws : List PaymentWorkflow) (x : PaymentWorkflow)
          → In x (w ∷ [])
          → In x (w ∷ ws)
      only w ws x (inl e) = inl e
      only w ws x (inr e) = absurd e

-- Every purchase that is stored after the payments' pass of the reconciler was stored before, under
-- the same key, or it is that of a pending workflow whose transaction the gateway reports as
-- accepted, with the post and the buyer of the unexpired record that the server prepared for it.
pub reconcile_payments-HasEvidence :
    (d : Reconciler) (gateway : PaymentGateway) (now : ℕ) (p : Pass) (i : String) (x : Purchase)
    → d.payment_gateway ≡ some gateway
    → get i (reconcile_payments d now p).store.purchases ≡ some x
    → (get i p.store.purchases ≡ some x)
      ⊎ HasEvidence gateway now p.store (pending_payment_workflows d.locale d.batch_size p.store) x
unfolding reconcile_payments
reconcile_payments-HasEvidence d gateway now p i x g e =
    let ws = pending_payment_workflows d.locale d.batch_size p.store in
    let e' = rw (g, reconcile_payments) at e in
    elim (Option-cases (get i p.store.purchases)) [
      | inl before ↦ inr (each-new gateway d.stale_workflow_ms now ws p i x before e')
      | inr (y, before) ↦
          inl (cc ((each-Turn gateway d.stale_workflow_ms now ws p).purchases i y before))
    ]
