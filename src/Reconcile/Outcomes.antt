-- ===== src/Reconcile/Outcomes.antt =====
-- What a turn of the reconciler on a payment workflow amounts to, by the record that was prepared and
-- by the answer of the gateway, and that a pass leaves no decided workflow behind.
use onlykas.Prelude.{
  ℕ, ◌+◌, ◌≤◌, String, ◌≡◌, Bool, none, some, List, [], ◌∷◌, arith, eq_iff, inl, inr, Bool-cases,
  Option-cases,
}
use onlykas.Prelude.Lists.{In}
use onlykas.Map.{get}
use onlykas.Domain.{PaymentWorkflow, PreparedPaymentRecord, PaymentSubmission, confirmed, rejected}
use onlykas.Ports.{returns, PaymentGateway}
use onlykas.Store.{Store}
use onlykas.Store.Payments.{
  get_prepared_payment, delete_payment_workflow, pending_payment_workflows,
}
use onlykas.Store.Purchases.{finalize_purchase, create_purchase}
use onlykas.Reconcile.{Reconciler, Summary, Pass, scan}
use onlykas.Reconcile.Payments.{
  abandon_payment, reject_payment, confirm_payment, retry_or_abandon_payment, settle_payment,
  reconcile_payment, reconcile_each_payment, reconcile_payments,
}
use onlykas.Reconcile.Turns.{
  Turn, IsOpen, claim_open, claim_then_delete, reconcile_payment-Turn, each-Turn,
}
use onlykas.Reconcile.Evidence.{abandon-purchases}

-- The turns that ended in one of the four ways.
abbrev pub total : Summary → ℕ
total c = c.confirmed + c.rejected + c.retried + c.abandoned

-- The workflow `w` has left the store.
abbrev pub IsGone : PaymentWorkflow → Pass → Type 0
IsGone w p = get w.prepared_payment_id p.store.payment_workflows ≡ none

module _ (w : PaymentWorkflow) (now : ℕ) (p : Pass)
    (free : IsOpen (get w.prepared_payment_id p.store.payment_workflows)) where
  abandon_open :
      (reason : String)
      → ((abandon_payment w now reason p).summary
          ≡ record p.summary { abandoned = p.summary.abandoned + 1 })
        × IsGone w (abandon_payment w now reason p)
  unfolding abandon_payment delete_payment_workflow
  abandon_open reason =
      let id = w.prepared_payment_id in
      ground (
        arith,
        eq_iff id id,
        claim_open id rejected now (some reason) p.store free,
        claim_then_delete id id rejected now (some reason) p.store,
      )

  reject_open :
      ((reject_payment w now p).summary ≡ record p.summary { rejected = p.summary.rejected + 1 })
      × IsGone w (reject_payment w now p)
  unfolding reject_payment delete_payment_workflow
  reject_open =
      let id = w.prepared_payment_id in
      ground (
        arith,
        eq_iff id id,
        claim_open id rejected now (some "RECONCILED_REJECTED") p.store free,
        claim_then_delete id id rejected now (some "RECONCILED_REJECTED") p.store,
      )

  confirm_open :
      (r : PreparedPaymentRecord) (transaction_id : String)
      → ((confirm_payment w now r transaction_id p).summary
          ≡ record p.summary { confirmed = p.summary.confirmed + 1 })
        × IsGone w (confirm_payment w now r transaction_id p)
  unfolding confirm_payment delete_payment_workflow finalize_purchase create_purchase
  confirm_open r transaction_id =
      let id = w.prepared_payment_id in
      ground (
        arith,
        eq_iff id id,
        claim_open id confirmed now none p.store free,
        claim_then_delete id id confirmed now none p.store,
      )

missing_prepared :
    (id : String) (now : ℕ) (r : PreparedPaymentRecord) (s : Store)
    → get id s.prepared_payment_records ≡ some r
    → r.expires_at ≤ now
    → get_prepared_payment id now s ≡ none
unfolding get_prepared_payment
missing_prepared id now r s e late = ground arith

-- If the record that was prepared for an open workflow has expired, its turn abandons it: the workflow
-- leaves the store, it is counted as abandoned and as nothing else, and the purchases are as before,
-- whatever the gateway would say of the transaction, also that it was accepted.
pub expired_payment_is_abandoned :
    (gateway : PaymentGateway) (stale : ℕ) (w : PaymentWorkflow) (now : ℕ) (p : Pass)
    (r : PreparedPaymentRecord)
    → get w.prepared_payment_id p.store.prepared_payment_records ≡ some r
    → r.expires_at ≤ now
    → IsOpen (get w.prepared_payment_id p.store.payment_workflows)
    → let q = reconcile_payment gateway stale w now p in
      (q.summary ≡ record p.summary { abandoned = p.summary.abandoned + 1 })
      × IsGone w q
      × (q.store.purchases ≡ p.store.purchases)
unfolding reconcile_payment
expired_payment_is_abandoned gateway stale w now p r stored late free =
    let left = abandon_open w now p free "prepared_missing" in
    rw (missing_prepared w.prepared_payment_id now r p.store stored late, reconcile_payment)
      (left.0, left.1, abandon-purchases w now p "prepared_missing")

-- The gateway knows what became of the transaction of `w`.
abbrev pub Decides : PaymentGateway → PaymentWorkflow → Type 0
Decides gateway w =
    (a : PaymentSubmission) × (b : Bool) × (gateway.status w.transaction_id ≡ returns a)
    × (a.is_accepted ≡ some b)

module _ (gateway : PaymentGateway) (stale now : ℕ) (w : PaymentWorkflow) where
  -- A turn that begins with an open workflow and in which the gateway answers adds one to the sum
  -- of the confirmed, rejected, retried and abandoned workflows, and nothing to the scanned ones.
  pub turn_is_counted :
      (p : Pass) (a : PaymentSubmission)
      → IsOpen (get w.prepared_payment_id p.store.payment_workflows)
      → gateway.status w.transaction_id ≡ returns a
      → let q = reconcile_payment gateway stale w now p in
        (total q.summary ≡ total p.summary + 1) × (q.summary.scanned ≡ p.summary.scanned)
  unfolding reconcile_payment settle_payment retry_or_abandon_payment
  turn_is_counted p a free answered =
      elim (Option-cases (get_prepared_payment w.prepared_payment_id now p.store)) [
        | inl e ↦
            rw (e, reconcile_payment) (ground (arith, abandon_open w now p free "prepared_missing"))
        | inr (r, e) ↦
            rw (e, answered, reconcile_payment)
              (ground (
                arith,
                abandon_open w now p free "unconfirmed_timeout",
                reject_open w now p free,
                confirm_open w now p free r w.transaction_id,
              ))
      ]

  turn_settles :
      (p : Pass)
      → IsOpen (get w.prepared_payment_id p.store.payment_workflows)
      → Decides gateway w
      → IsGone w (reconcile_payment gateway stale w now p)
  unfolding reconcile_payment settle_payment
  turn_settles p free (a, b, answered, decided) =
      elim (Option-cases (get_prepared_payment w.prepared_payment_id now p.store)) [
        | inl e ↦ rw (e, reconcile_payment) ((abandon_open w now p free "prepared_missing").1)
        | inr (r, e) ↦
            rw (e, answered, reconcile_payment)
              (rw (decided, settle_payment)
                (elim (Bool-cases b) [
                  | inl t ↦ rw t ((confirm_open w now p free r w.transaction_id).1)
                  | inr f ↦ rw f ((reject_open w now p free).1)
                ]))
      ]

Turn-IsGone : (w : PaymentWorkflow) {p q : Pass} → Turn p q → IsGone w p → IsGone w q
Turn-IsGone w {p} {q} t gone =
    elim (Option-cases (get w.prepared_payment_id q.store.payment_workflows)) [
      | inl e ↦ e
      | inr (x, e) ↦ absurd (cc (t.workflows w.prepared_payment_id x e))
    ]

-- Whatever is stored under the id of `w` can be claimed.
abbrev pub IsFree : PaymentWorkflow → Pass → Type 0
IsFree w p =
    (x : PaymentWorkflow)
    → get w.prepared_payment_id p.store.payment_workflows ≡ some x
    → x.finalized_at ≡ none

module _ (gateway : PaymentGateway) (stale now : ℕ) (w : PaymentWorkflow)
    (decides : Decides gateway w) where
  head_settles : (p : Pass) → IsFree w p → IsGone w (reconcile_payment gateway stale w now p)
  head_settles p free = elim (Option-cases (get w.prepared_payment_id p.store.payment_workflows)) [
    | inl gone ↦ Turn-IsGone w (reconcile_payment-Turn gateway stale w now p) gone
    | inr (x, e) ↦ turn_settles gateway stale now w p (rw e (free x e)) decides
  ]

  each_settles :
      (ws : List PaymentWorkflow) (p : Pass)
      → In w ws
      → IsFree w p
      → IsGone w (reconcile_each_payment gateway stale now ws p)
  unfolding reconcile_each_payment
  each_settles [] p i free = absurd i
  each_settles (v ∷ ws) p (inl e) free =
      Turn-IsGone w
        (each-Turn gateway stale now ws (reconcile_payment gateway stale v now (scan p)))
        (rw (← e) (head_settles (scan p) free))
  each_settles (v ∷ ws) p (inr i) free =
      each_settles ws (reconcile_payment gateway stale v now (scan p)) i (λ x e.
        free x (
          (reconcile_payment-Turn gateway stale v now (scan p)).workflows w.prepared_payment_id x
            e))

-- If no pending workflow of the id of `w` is terminal already, `w` is in the batch of the pass, and the
-- gateway says of its transaction that it was accepted or that it was not, then `w` has left the store
-- after the payments' pass.
pub reconcile_payments-IsGone :
    (d : Reconciler) (gateway : PaymentGateway) (now : ℕ) (p : Pass) (w : PaymentWorkflow)
    → d.payment_gateway ≡ some gateway
    → In w (pending_payment_workflows d.locale d.batch_size p.store)
    → IsFree w p
    → Decides gateway w
    → IsGone w (reconcile_payments d now p)
unfolding reconcile_payments
reconcile_payments-IsGone d gateway now p w g listed free decides =
    rw (g, reconcile_payments)
      (each_settles gateway d.stale_workflow_ms now w decides
        (pending_payment_workflows d.locale d.batch_size p.store) p listed free)
