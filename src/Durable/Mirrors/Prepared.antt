-- ===== src/Durable/Mirrors/Prepared.antt =====
-- The prepared records, the payment workflows and the membership receipts of `LibsqlStore` and of
-- `MemoryStore` under the same call.
use onlykas.Prelude.{
  ℕ, ◌≡◌, refl, String, not, Option, none, some, arith, ◌==◌, is_some, or_else, get_or, leb, ltb,
  inl, inr, Option-cases,
}
use onlykas.Map.{get}
use onlykas.Map.Laws.{get_key}
use onlykas.Domain.{
  PreparedPaymentRecord, PreparedMembershipRecord, PaymentWorkflow, WorkflowState,
  MembershipPurchase,
}
use onlykas.Ports.{returns}
use onlykas.Sql.{insert, upsert}
use onlykas.Sql.Laws.{
  rows, any-rows, update-rows, update_key-rows, remove-rows, rows-set_fresh, insert-cases,
  remove-rows-prune,
}
use onlykas.Store.{Store}
use onlykas.Store.Payments.{
  save_prepared_payment, delete_prepared_payment, prune_prepared_payments, save_payment_workflow,
  delete_payment_workflow, claim_payment_workflow_terminal,
}
use onlykas.Store.Memberships.{
  save_prepared_membership, delete_prepared_membership, prune_prepared_memberships,
}
use onlykas.Store.Purchases.{create_membership_purchase}
use onlykas.Store.Keys.{IsKeyed, payment_id, membership_id, payment_workflow_id, receipt_id}
use onlykas.Durable.{Database, PreparedMembershipRow}
use onlykas.Durable.Rows.{Json, prepared_membership_row, payment_workflow_row, state_text}
use onlykas.Durable.Payments
use onlykas.Durable.Payments.{resubmitted, claimed}
use onlykas.Durable.Memberships
use onlykas.Durable.Purchases
use onlykas.Durable.Mirrors.{same, workflow_row}

module _ (db : Database) (s : Store) (k : IsKeyed s)
    (e : db.prepared_payments ≡ rows same s.prepared_payment_records) where
  pub save_prepared_payment-rows :
      (v : PreparedPaymentRecord)
      → (Payments.save_prepared_payment v db).0 ≡ returns tt
      → (Payments.save_prepared_payment v db).1.prepared_payments
        ≡ rows same (save_prepared_payment v s).prepared_payment_records
  unfolding Payments.save_prepared_payment save_prepared_payment
  save_prepared_payment-rows v h =
      elim (insert-cases (λ w r. r.id == w.id) (λ r. ltb 0 r.expires_at) v db.prepared_payments) [
        | inl refused ↦ ground (arith, refused, h)
        | inr (free, done) ↦ ground (
          arith,
          done,
          free,
          e,
          any-rows same payment_id (λ r. r.id) (λ r. refl) v.id s.prepared_payment_records
              k.prepared_payment_records,
          rows-set_fresh same v.id v s.prepared_payment_records,
        )
      ]

  pub delete_prepared_payment-rows :
      (id : String)
      → (Payments.delete_prepared_payment id db).prepared_payments
        ≡ rows same (delete_prepared_payment id s).prepared_payment_records
  unfolding Payments.delete_prepared_payment delete_prepared_payment
  delete_prepared_payment-rows id = rw e (
      remove-rows same payment_id (λ r. r.id) (λ r. refl) id s.prepared_payment_records
        k.prepared_payment_records)

  pub prune_prepared_payments-rows :
      (now : ℕ)
      → (Payments.prune_prepared_payments now db).prepared_payments
        ≡ rows same (prune_prepared_payments now s).prepared_payment_records
  unfolding Payments.prune_prepared_payments prune_prepared_payments
  prune_prepared_payments-rows now = rw e (
      remove-rows-prune same (λ (r : PreparedPaymentRecord). leb r.expires_at now)
        s.prepared_payment_records)

module _ (json : Json) (db : Database) (s : Store) (k : IsKeyed s)
    (e : db.prepared_memberships
      ≡ rows (prepared_membership_row json) s.prepared_membership_records) where
  pub save_prepared_membership-rows :
      (v : PreparedMembershipRecord)
      → (Memberships.save_prepared_membership json v db).0 ≡ returns tt
      → (Memberships.save_prepared_membership json v db).1.prepared_memberships
        ≡ rows
            (prepared_membership_row json)
            (save_prepared_membership v s).prepared_membership_records
  unfolding Memberships.save_prepared_membership save_prepared_membership prepared_membership_row
  save_prepared_membership-rows v h =
      elim (insert-cases (λ w r. r.id == w.id) (λ r. ltb 0 r.expires_at)
        (prepared_membership_row json v) db.prepared_memberships) [
          | inl refused ↦ ground (arith, refused, h)
          | inr (free, done) ↦ ground (
            arith,
            done,
            free,
            e,
            any-rows (prepared_membership_row json) membership_id (λ r. r.id) (λ r. refl) v.id
                s.prepared_membership_records k.prepared_membership_records,
            rows-set_fresh (prepared_membership_row json) v.id v s.prepared_membership_records,
          )
        ]

  pub delete_prepared_membership-rows :
      (id : String)
      → (Memberships.delete_prepared_membership id db).prepared_memberships
        ≡ rows
            (prepared_membership_row json)
            (delete_prepared_membership id s).prepared_membership_records
  unfolding Memberships.delete_prepared_membership delete_prepared_membership
      prepared_membership_row
  delete_prepared_membership-rows id = rw e (
      remove-rows (prepared_membership_row json) membership_id (λ r. r.id) (λ r. refl) id
        s.prepared_membership_records k.prepared_membership_records)

  pub prune_prepared_memberships-rows :
      (now : ℕ)
      → (Memberships.prune_prepared_memberships now db).prepared_memberships
        ≡ rows
            (prepared_membership_row json)
            (prune_prepared_memberships now s).prepared_membership_records
  unfolding Memberships.prune_prepared_memberships prune_prepared_memberships
      prepared_membership_row
  prune_prepared_memberships-rows now = rw e (
      remove-rows-prune (prepared_membership_row json)
        (λ (r : PreparedMembershipRow). leb r.expires_at now) s.prepared_membership_records)

module _ (db : Database) (s : Store) (k : IsKeyed s)
    (e : db.payment_workflows ≡ rows workflow_row s.payment_workflows) where
  pub save_payment_workflow-rows :
      (v : PaymentWorkflow) (clock : ℕ)
      → v.finalized_at ≡ none
      → ((w : PaymentWorkflow)
          → get v.prepared_payment_id s.payment_workflows ≡ some w
          → w.finalized_at ≡ none)
      → (Payments.save_payment_workflow v clock db).payment_workflows
        ≡ rows workflow_row (save_payment_workflow v clock s).payment_workflows
  unfolding Payments.save_payment_workflow save_payment_workflow payment_workflow_row upsert
  save_payment_workflow-rows v clock opened unclaimed =
      let id = v.prepared_payment_id in
      let present =
        any-rows workflow_row payment_workflow_id (λ r. r.id) (λ r. refl) id s.payment_workflows
          k.payment_workflows in
      elim (Option-cases (get id s.payment_workflows)) [
        | inl f ↦ ground (
          arith,
          e,
          f,
          present,
          opened,
          rows-set_fresh workflow_row id
              (record v { submitted_at = some (get_or v.submitted_at clock) }) s.payment_workflows
              f,
        )
        | inr (w, f) ↦
            let next = record v {
              submitted_at = some (get_or (or_else w.submitted_at v.submitted_at) clock);
            } in
            let changed =
              update_key-rows workflow_row payment_workflow_id (λ r. r.id) (λ r. refl) id
                (resubmitted (payment_workflow_row v clock)) (λ _. next) s.payment_workflows
                (λ u g. ground (
                  arith,
                  opened,
                  f,
                  g,
                  unclaimed w f,
                  get_key payment_workflow_id id u s.payment_workflows k.payment_workflows g,
                ))
                k.payment_workflows in
            ground (arith, e, f, present, changed)
      ]

  pub delete_payment_workflow-rows :
      (id : String)
      → (Payments.delete_payment_workflow id db).payment_workflows
        ≡ rows workflow_row (delete_payment_workflow id s).payment_workflows
  unfolding Payments.delete_payment_workflow delete_payment_workflow
  delete_payment_workflow-rows id = rw e (
      remove-rows workflow_row payment_workflow_id (λ r. r.id) (λ r. refl) id s.payment_workflows
        k.payment_workflows)

  pub claim_payment_workflow-rows :
      (id : String) (state : WorkflowState) (now : ℕ) (rejection : Option String)
      → (Payments.claim_payment_workflow_terminal id state now rejection db).1.payment_workflows
        ≡ rows workflow_row
            (claim_payment_workflow_terminal id state now rejection s).1.payment_workflows
  unfolding Payments.claim_payment_workflow_terminal claim_payment_workflow_terminal
  claim_payment_workflow-rows id state now rejection =
      let step =
        update-rows workflow_row payment_workflow_id (λ r. r.id) (λ r. refl) id
          (λ r. not (is_some r.finalized_at)) (claimed (state_text state) now rejection)
          (λ w. record w { state = state; rejection = rejection; finalized_at = some now })
          s.payment_workflows (λ v. refl) k.payment_workflows in
      elim (Option-cases (get id s.payment_workflows)) [
        | inl f ↦ ground (arith, e, f, step)
        | inr (w, f) ↦ ground (arith, e, f, step)
      ]

module _ (db : Database) (s : Store) (k : IsKeyed s)
    (e : db.membership_purchases ≡ rows same s.membership_purchase_records) where
  pub create_membership_purchase-rows :
      (v : MembershipPurchase)
      → ((Purchases.create_membership_purchase v db).0 ≡ (create_membership_purchase v s).0)
        × ((Purchases.create_membership_purchase v db).1.membership_purchases
            ≡ rows same (create_membership_purchase v s).1.membership_purchase_records)
  unfolding Purchases.create_membership_purchase create_membership_purchase insert
  create_membership_purchase-rows v = ground (
    arith,
    e,
    any-rows same receipt_id (λ r. r.transaction_id) (λ r. refl) v.transaction_id
        s.membership_purchase_records k.membership_purchase_records,
    rows-set_fresh same v.transaction_id v s.membership_purchase_records,
  )
