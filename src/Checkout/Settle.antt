-- ===== src/Checkout/Settle.antt =====
-- backend/src/app.ts: the store after an accepted and after a refused payment.
use onlykas.Prelude.{
  ℕ, String, ◌≡◌, refl, ap, true, ◌||◌, Option, none, some, arith, ◌==◌, eq_iff, is_some, get_or,
  or_else, Bool-cases, Option-cases, ◌⊎◌, inl, inr,
}
use onlykas.Prelude.Lists.{any}
use onlykas.Map.{get, set, delete, values}
use onlykas.Map.Laws.{get-set, get-delete}
use onlykas.Domain.{
  Purchase, PreparedPaymentRecord, PaymentWorkflow, PaymentSubmission, WorkflowState,
  DuplicateOutcome,
}
use onlykas.Store.{Store}
use onlykas.Store.Purchases.{get_purchase, create_purchase, finalize_purchase, purchase_key}
use onlykas.Store.Payments.{
  delete_prepared_payment, save_payment_workflow, get_payment_workflow, delete_payment_workflow,
  earlier_submission,
}
use onlykas.Checkout.{
  FinalizeResponse, pending, confirmed, purchase_exists, accepted_transaction, known_transaction,
  refuse, accept, workflow_of,
}

abbrev pub purchase_for : PreparedPaymentRecord → String → Purchase
purchase_for r transaction = record {
  post_id = r.post_id;
  buyer = r.buyer;
  transaction_id = transaction;
}

abbrev pub Finalized : Type 0
Finalized = FinalizeResponse × Store

create-cases :
    (v : Purchase) (s : Store)
    → (create_purchase v s ≡ (
      DuplicateOutcome.created,
      record s { purchases = set (purchase_key v.post_id v.buyer) v s.purchases },
    ))
      ⊎ (create_purchase v s ≡ (DuplicateOutcome.duplicate, s))
unfolding create_purchase
create-cases v s =
    elim (Bool-cases (
      any (λ (x : Purchase). x.transaction_id == v.transaction_id) (values s.purchases)
      || is_some (get (purchase_key v.post_id v.buyer) s.purchases))) [
        | inl taken ↦ inr (rw (taken, create_purchase) refl)
        | inr free ↦ inl (rw (free, create_purchase) refl)
      ]

finalize-cases :
    (id : String) (v : Purchase) (s : Store)
    → let t = record s { prepared_payment_records = delete id s.prepared_payment_records } in
      (finalize_purchase id v s ≡ (
        DuplicateOutcome.created,
        record t { purchases = set (purchase_key v.post_id v.buyer) v s.purchases },
      ))
      ⊎ (finalize_purchase id v s ≡ (DuplicateOutcome.duplicate, t))
unfolding finalize_purchase
finalize-cases id v s = elim (create-cases v s) [
  | inl e ↦ inl (rw (e, finalize_purchase) refl)
  | inr e ↦ inr (rw (e, finalize_purchase) refl)
]

module _ (id : String) (clock : ℕ) (r : PreparedPaymentRecord) (t : String) (s : Store) where
  abbrev accepted : Finalized
  accepted = accept id clock r t s

  -- The store of an accepted payment: its workflow and its record are gone.
  abbrev settled : Store
  settled = record s {
    prepared_payment_records = delete id s.prepared_payment_records;
    payment_workflows =
        delete id
          (save_payment_workflow (workflow_of id clock WorkflowState.confirmed t) clock
            s).payment_workflows;
  }

  accept-cases :
      (accepted ≡ (
        confirmed t,
        record settled {
          purchases = set (purchase_key r.post_id r.buyer) (purchase_for r t) s.purchases;
        },
      ))
      ⊎ (accepted ≡ (purchase_exists, settled))
  unfolding accept delete_payment_workflow save_payment_workflow
  accept-cases =
      elim (finalize-cases id (purchase_for r t)
        (save_payment_workflow (workflow_of id clock WorkflowState.confirmed t) clock s)) [
          | inl e ↦ inl (rw (e, accept) refl)
          | inr e ↦ inr (rw (e, accept) refl)
        ]

  -- The purchases after an acceptance are those before it and that of the payment.
  pub accept-purchases :
      (i : String) (x : Purchase)
      → get i accepted.1.purchases ≡ some x
      → (get i s.purchases ≡ some x) ⊎ (x ≡ purchase_for r t)
  accept-purchases i x h = elim accept-cases [
    | inl e ↦
        ground (arith, e, get-set (purchase_key r.post_id r.buyer) i (purchase_for r t) s.purchases)
    | inr e ↦ ground (arith, e)
  ]

  pub accept-decided : (t' : Option String) → ¬ (accepted.0 ≡ pending t')
  accept-decided t' h = elim accept-cases [ inl e ↦ ground (arith, e) | inr e ↦ ground (arith, e) ]

  pub accept-confirmed :
      (t' : String)
      → accepted.0 ≡ confirmed t'
      → (t' ≡ t)
        × (get_purchase r.post_id r.buyer accepted.1 ≡ some (purchase_for r t))
        × (get_payment_workflow id accepted.1 ≡ none)
        × (get id accepted.1.prepared_payment_records ≡ none)
  unfolding get_purchase get_payment_workflow
  accept-confirmed t' h =
      let key = purchase_key r.post_id r.buyer in
      let workflows =
        (save_payment_workflow (workflow_of id clock WorkflowState.confirmed t) clock
          s).payment_workflows in
      elim accept-cases [
        | inl e ↦ (
          ground (arith, e),
          ground (arith, e, get-set key key (purchase_for r t) s.purchases, eq_iff key key),
          ground (arith, e, get-delete id id workflows, eq_iff id id),
          ground (arith, e, get-delete id id s.prepared_payment_records, eq_iff id id),
        )
        | inr e ↦ absurd (ground (arith, e))
      ]

module _ (id : String) (clock : ℕ) (a : PaymentSubmission) (workflow : Option PaymentWorkflow)
    (s : Store) where
  abbrev refused : Finalized
  refused = refuse id clock a workflow s

  pub refuse-purchases : refused.1.purchases ≡ s.purchases
  unfolding refuse save_payment_workflow delete_payment_workflow delete_prepared_payment
  refuse-purchases = elim (Option-cases a.is_accepted) [
    | inl e ↦ rw (e, refuse) refl
    | inr (b, e) ↦ rw (e, refuse) refl
  ]

  pub refuse-unconfirmed : (t : String) → ¬ (refused.0 ≡ confirmed t)
  unfolding refuse
  refuse-unconfirmed t h = elim (Option-cases a.is_accepted) [
    | inl e ↦ ground (arith, e)
    | inr (b, e) ↦ ground (arith, e)
  ]

  pub refuse-pending :
      (t : Option String)
      → refused.0 ≡ pending t
      → (t ≡ a.transaction_id)
        × (refused.1.prepared_payment_records ≡ s.prepared_payment_records)
        × ((w : PaymentWorkflow) × (get_payment_workflow id refused.1 ≡ some w)
            × (w.prepared_payment_id ≡ id)
            × (w.state ≡ WorkflowState.submitted)
            × (w.transaction_id
                ≡ get_or (or_else a.transaction_id (known_transaction workflow)) ""))
  unfolding refuse save_payment_workflow get_payment_workflow
  refuse-pending t h = elim (Option-cases a.is_accepted) [
    | inr (b, e) ↦ absurd (ground (arith, e))
    | inl e ↦
        let tx = get_or (or_else a.transaction_id (known_transaction workflow)) "" in
        let first = get_or (or_else (earlier_submission (get id s.payment_workflows)) none) clock in
        let w : PaymentWorkflow = record (workflow_of id clock WorkflowState.submitted tx) {
          submitted_at = some first;
        } in
        (
          ground (arith, e),
          rw (e, refuse) refl,
          (
            w,
            ground (arith, e, get-set id id w s.payment_workflows, eq_iff id id),
            refl,
            refl,
            refl,
          ),
        )
  ]

pub response : {p q : Finalized} → p ≡ q → p.0 ≡ q.0
response e = ap (λ (p : Finalized). p.0) e

pub accepted-named :
    (a : PaymentSubmission) (t : String)
    → accepted_transaction a ≡ some t
    → (a.is_accepted ≡ some true) × (a.transaction_id ≡ some t)
accepted-named a t h = elim (Option-cases a.is_accepted) [
  | inl e ↦ absurd (ground (arith, e))
  | inr (b, e) ↦ elim (Option-cases a.transaction_id) [
    | inl f ↦ absurd (ground (arith, e, f))
    | inr (u, f) ↦ ground (arith, e, f)
  ]
]
