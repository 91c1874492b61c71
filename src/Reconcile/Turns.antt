-- ===== src/Reconcile/Turns.antt =====
-- One turn of the reconciler on a payment workflow: what it does to the workflows, to the prepared
-- payments and to the purchases.
use onlykas.Prelude.{
  ℕ, String, ◌≡◌, true, false, Option, none, some, List, [], ◌∷◌, arith, ◌==◌, ltb, inl, inr,
  Bool-cases, Option-cases, if◌then◌else◌,
}
use onlykas.Map.{get, set, delete}
use onlykas.Map.Laws.{get-set, get-delete}
use onlykas.Domain.{
  PaymentWorkflow, PreparedPaymentRecord, PaymentSubmission, Purchase, WorkflowState, confirmed,
  rejected,
}
use onlykas.Ports.{Call, returns, throws, PaymentGateway}
use onlykas.Store.{Store}
use onlykas.Store.Payments.{
  get_prepared_payment, claim_payment_workflow_terminal, delete_payment_workflow,
}
use onlykas.Store.Purchases.{finalize_purchase, create_purchase}
use onlykas.Store.Receipts.{create_purchase-keeps}
use onlykas.Reconcile.{Pass, workflow_age, scan}
use onlykas.Reconcile.Payments.{
  abandon_payment, reject_payment, confirm_payment, retry_or_abandon_payment, settle_payment,
  reconcile_payment, reconcile_each_payment,
}

-- The workflow of an id that can still be claimed.
abbrev pub IsOpen : Option PaymentWorkflow → Type 0
IsOpen none = ⊥
IsOpen (some w) = w.finalized_at ≡ none

-- A claim that succeeds, then the deletion.
pub claim_then_delete :
    (id i : String) (state : WorkflowState) (now : ℕ) (rejection : Option String) (s : Store)
    → get i
        (delete id (claim_payment_workflow_terminal id state now rejection s).1.payment_workflows)
      ≡ (if id == i then none else get i s.payment_workflows)
unfolding claim_payment_workflow_terminal
claim_then_delete id i state now rejection s = elim (Option-cases (get id s.payment_workflows)) [
  | inl e ↦ ground (arith, get-delete id i s.payment_workflows)
  | inr (w, e) ↦ ground (
    arith,
    get-delete id i s.payment_workflows,
    get-delete id i (
        set id (record w { state = state; rejection = rejection; finalized_at = some now })
          s.payment_workflows),
    get-set id i (record w { state = state; rejection = rejection; finalized_at = some now })
        s.payment_workflows,
  )
]

pub claim_open :
    (id : String) (state : WorkflowState) (now : ℕ) (rejection : Option String) (s : Store)
    → IsOpen (get id s.payment_workflows)
    → (claim_payment_workflow_terminal id state now rejection s).0 ≡ some now
unfolding claim_payment_workflow_terminal
claim_open id state now rejection s h = ground arith

pub claim_refused :
    (id : String) (state : WorkflowState) (now : ℕ) (rejection : Option String) (s : Store)
    → (claim_payment_workflow_terminal id state now rejection s).0 ≡ none
    → (claim_payment_workflow_terminal id state now rejection s).1 ≡ s
unfolding claim_payment_workflow_terminal
claim_refused id state now rejection s h = ground arith

pub claim_frame :
    (id : String) (state : WorkflowState) (now : ℕ) (rejection : Option String) (s : Store)
    → ((claim_payment_workflow_terminal id state now rejection s).1.purchases ≡ s.purchases)
      × ((claim_payment_workflow_terminal id state now rejection s).1.prepared_payment_records
          ≡ s.prepared_payment_records)
unfolding claim_payment_workflow_terminal
claim_frame id state now rejection s = ground arith

-- What is left of each map after a turn.
pub record Turn (p q : Pass) : Type 0 where
  -- A workflow that is stored after the turn was stored before.
  pub workflows :
      (i : String) (x : PaymentWorkflow)
      → get i q.store.payment_workflows ≡ some x
      → get i p.store.payment_workflows ≡ some x
  pub prepared :
      (i : String) (r : PreparedPaymentRecord)
      → get i q.store.prepared_payment_records ≡ some r
      → get i p.store.prepared_payment_records ≡ some r
  pub purchases :
      (i : String) (x : Purchase)
      → get i p.store.purchases ≡ some x
      → get i q.store.purchases ≡ some x

module _ (w : PaymentWorkflow) (now : ℕ) (p : Pass) where
  abandon-Turn : (reason : String) → Turn p (abandon_payment w now reason p)
  unfolding abandon_payment
  abandon-Turn reason =
      let id = w.prepared_payment_id in
      elim (Option-cases
        (claim_payment_workflow_terminal id rejected now (some reason) p.store).0) [
          | inl e ↦ record {
            workflows =
                λ i x. ground (arith, claim_refused id rejected now (some reason) p.store e);
            prepared = λ i x. ground (arith, claim_refused id rejected now (some reason) p.store e);
            purchases =
                λ i x. ground (arith, claim_refused id rejected now (some reason) p.store e);
          }
          | inr (t, e) ↦ record {
            workflows = λ i x.
                unfold delete_payment_workflow in
                ground (arith, claim_then_delete id i rejected now (some reason) p.store);
            prepared = λ i x.
                unfold delete_payment_workflow in
                ground (arith, claim_frame id rejected now (some reason) p.store);
            purchases = λ i x.
                unfold delete_payment_workflow in
                ground (arith, claim_frame id rejected now (some reason) p.store);
          }
        ]

  reject-Turn : Turn p (reject_payment w now p)
  unfolding reject_payment
  reject-Turn =
      let id = w.prepared_payment_id in
      let reason : Option String = some "RECONCILED_REJECTED" in
      elim (Option-cases (claim_payment_workflow_terminal id rejected now reason p.store).0) [
        | inl e ↦ record {
          workflows = λ i x. ground (arith, claim_refused id rejected now reason p.store e);
          prepared = λ i x. ground (arith, claim_refused id rejected now reason p.store e);
          purchases = λ i x. ground (arith, claim_refused id rejected now reason p.store e);
        }
        | inr (t, e) ↦ record {
          workflows = λ i x.
              unfold delete_payment_workflow in
              ground (arith, claim_then_delete id i rejected now reason p.store);
          prepared = λ i x.
              unfold delete_payment_workflow in
              ground (arith, claim_frame id rejected now reason p.store);
          purchases = λ i x.
              unfold delete_payment_workflow in
              ground (arith, claim_frame id rejected now reason p.store);
        }
      ]

  confirm-Turn :
      (prepared : PreparedPaymentRecord) (transaction_id : String)
      → Turn p (confirm_payment w now prepared transaction_id p)
  unfolding confirm_payment finalize_purchase
  confirm-Turn r transaction_id =
      let id = w.prepared_payment_id in
      let s' = (claim_payment_workflow_terminal id confirmed now none p.store).1 in
      let v : Purchase = record {
        post_id = r.post_id;
        buyer = r.buyer;
        transaction_id = transaction_id;
      } in
      elim (Option-cases (claim_payment_workflow_terminal id confirmed now none p.store).0) [
        | inl e ↦ record {
          workflows = λ i x. ground (arith, claim_refused id confirmed now none p.store e);
          prepared = λ i x. ground (arith, claim_refused id confirmed now none p.store e);
          purchases = λ i x. ground (arith, claim_refused id confirmed now none p.store e);
        }
        | inr (t, e) ↦ record {
          workflows = λ i x.
              unfold create_purchase delete_payment_workflow in
              ground (arith, claim_then_delete id i confirmed now none p.store);
          prepared = λ i x.
              unfold delete_payment_workflow create_purchase in
              ground (
                arith,
                claim_frame id confirmed now none p.store,
                get-delete id i s'.prepared_payment_records,
              );
          purchases = λ i x.
              unfold delete_payment_workflow in
              ground
                (arith, claim_frame id confirmed now none p.store, create_purchase-keeps i x s' v);
        }
      ]

  settle-Turn :
      (stale : ℕ) (prepared : PreparedPaymentRecord) (answer : Call PaymentSubmission)
      → Turn p (settle_payment w now stale prepared answer p)
  unfolding settle_payment retry_or_abandon_payment
  settle-Turn stale r throws = record {
    workflows = λ i x e. e;
    prepared = λ i x e. e;
    purchases = λ i x e. e;
  }
  settle-Turn stale r (returns answer) = elim (Option-cases answer.is_accepted) [
    | inl e ↦
        rw (e, settle_payment)
          (elim (Bool-cases (ltb stale (workflow_age w.submitted_at now))) [
            | inl late ↦ rw (late, retry_or_abandon_payment) (abandon-Turn "unconfirmed_timeout")
            | inr early ↦
                rw (early, retry_or_abandon_payment)
                  (record { workflows = λ i x f. f; prepared = λ i x f. f; purchases = λ i x f. f })
          ])
    | inr (true, e) ↦ rw (e, settle_payment) (confirm-Turn r w.transaction_id)
    | inr (false, e) ↦ rw (e, settle_payment) reject-Turn
  ]

pub reconcile_payment-Turn :
    (gateway : PaymentGateway) (stale : ℕ) (w : PaymentWorkflow) (now : ℕ) (p : Pass)
    → Turn p (reconcile_payment gateway stale w now p)
unfolding reconcile_payment
reconcile_payment-Turn gateway stale w now p =
    elim (Option-cases (get_prepared_payment w.prepared_payment_id now p.store)) [
      | inl e ↦ rw (e, reconcile_payment) (abandon-Turn w now p "prepared_missing")
      | inr (r, e) ↦
          rw (e, reconcile_payment) (settle-Turn w now p stale r (gateway.status w.transaction_id))
    ]

Turn-trans : {p q t : Pass} → Turn p q → Turn q t → Turn p t
Turn-trans a b = record {
  workflows = λ i x e. a.workflows i x (b.workflows i x e);
  prepared = λ i x e. a.prepared i x (b.prepared i x e);
  purchases = λ i x e. b.purchases i x (a.purchases i x e);
}

-- A whole pass relates its ends as one turn does.
pub each-Turn :
    (gateway : PaymentGateway) (stale now : ℕ) (ws : List PaymentWorkflow) (p : Pass)
    → Turn p (reconcile_each_payment gateway stale now ws p)
unfolding reconcile_each_payment
each-Turn gateway stale now [] p = record {
  workflows = λ i x e. e;
  prepared = λ i x e. e;
  purchases = λ i x e. e;
}
each-Turn gateway stale now (w ∷ ws) p =
    Turn-trans (scan-Turn)
      (each-Turn gateway stale now ws (reconcile_payment gateway stale w now (scan p)))
  where
    scan-Turn : Turn p (reconcile_payment gateway stale w now (scan p))
    scan-Turn =
        let t = reconcile_payment-Turn gateway stale w now (scan p) in
        record { workflows = t.workflows; prepared = t.prepared; purchases = t.purchases }
