-- ===== src/Reconcile/Counts.antt =====
-- The counts that a pass of the reconciler reports.
use onlykas.Prelude.{ℕ, ◌+◌, ◌≤◌, ◌≡◌, some, List, [], ◌∷◌, arith, inl, inr, Option-cases}
use onlykas.Prelude.Lists.{length}
use onlykas.Domain.{PaymentWorkflow, PaymentSubmission, PreparedPaymentRecord}
use onlykas.Ports.{Call, PaymentGateway}
use onlykas.Store.Payments.{get_prepared_payment, pending_payment_workflows}
use onlykas.Store.Pending.{length-pending}
use onlykas.Reconcile.{Reconciler, Pass, scan}
use onlykas.Reconcile.Payments.{
  abandon_payment, reject_payment, confirm_payment, retry_or_abandon_payment, settle_payment,
  reconcile_payment, reconcile_each_payment, reconcile_payments,
}
use onlykas.Reconcile.Outcomes.{total}

-- What a turn may add to the counts.
abbrev AddsOne : Pass → Pass → Type 0
AddsOne p q = (q.summary.scanned ≡ p.summary.scanned) × (total q.summary ≤ total p.summary + 1)

module _ (w : PaymentWorkflow) (now : ℕ) (p : Pass) where
  retry-AddsOne : (stale : ℕ) → AddsOne p (retry_or_abandon_payment w now stale p)
  unfolding retry_or_abandon_payment abandon_payment
  retry-AddsOne stale = ground arith

  settle-AddsOne :
      (stale : ℕ) (r : PreparedPaymentRecord) (answer : Call PaymentSubmission)
      → AddsOne p (settle_payment w now stale r answer p)
  unfolding settle_payment confirm_payment reject_payment
  settle-AddsOne stale r answer = ground (arith, retry-AddsOne stale)

turn-AddsOne :
    (gateway : PaymentGateway) (stale : ℕ) (w : PaymentWorkflow) (now : ℕ) (p : Pass)
    → AddsOne p (reconcile_payment gateway stale w now p)
unfolding reconcile_payment abandon_payment
turn-AddsOne gateway stale w now p =
    elim (Option-cases (get_prepared_payment w.prepared_payment_id now p.store)) [
      | inl e ↦ rw (e, reconcile_payment) (ground arith)
      | inr (r, e) ↦
          rw (e, reconcile_payment)
            (settle-AddsOne w now p stale r (gateway.status w.transaction_id))
    ]

each_counts :
    (gateway : PaymentGateway) (stale now : ℕ) (ws : List PaymentWorkflow) (p : Pass)
    → let q = reconcile_each_payment gateway stale now ws p in
      (q.summary.scanned ≡ p.summary.scanned + length ws)
      × (total q.summary ≤ total p.summary + length ws)
unfolding reconcile_each_payment
each_counts gateway stale now [] p = ground arith
each_counts gateway stale now (w ∷ ws) p = ground (
  arith,
  turn-AddsOne gateway stale w now (scan p),
  each_counts gateway stale now ws (reconcile_payment gateway stale w now (scan p)),
)

-- The payments' pass scans no more workflows than its batch size, and as many as are pending in its
-- batch; of the endings confirmed, rejected, retried and abandoned it counts at most one for each
-- workflow that it scans.
pub reconcile_payments_counts :
    (d : Reconciler) (gateway : PaymentGateway) (now : ℕ) (p : Pass)
    → d.payment_gateway ≡ some gateway
    → let q = reconcile_payments d now p in
      let batch = length (pending_payment_workflows d.locale d.batch_size p.store) in
      (batch ≤ d.batch_size)
      × (q.summary.scanned ≡ p.summary.scanned + batch)
      × (total q.summary + p.summary.scanned ≤ total p.summary + q.summary.scanned)
unfolding reconcile_payments
reconcile_payments_counts d gateway now p g =
    let ws = pending_payment_workflows d.locale d.batch_size p.store in
    let counts = each_counts gateway d.stale_workflow_ms now ws p in
    rw (g, reconcile_payments)
      (length-pending d.locale d.batch_size p.store, counts.0, omega (arith, counts))
