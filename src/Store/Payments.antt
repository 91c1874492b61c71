-- ===== src/Store/Payments.antt =====
-- backend/src/memory-store.ts: the prepared payments and the payment workflows.
use onlykas.Prelude.{
  ℕ, String, Bool, Option, none, some, List, leb, ltb, is_some, or_else, get_or, if◌then◌else◌,
}
use onlykas.Prelude.Lists.{take, keep}
use onlykas.Prelude.Sort.{sort}
use onlykas.Locale.{Locale}
use onlykas.Map.{get, set, delete, values, prune}
use onlykas.Domain.{PreparedPaymentRecord, PaymentWorkflow, WorkflowState, is_submitted}
use onlykas.Store.{Store}

unfoldable pub save_prepared_payment : PreparedPaymentRecord → Store → Store
save_prepared_payment v s = record s {
  prepared_payment_records = set v.id v s.prepared_payment_records;
}

unfoldable pub get_prepared_payment : String → ℕ → Store → Option PreparedPaymentRecord
get_prepared_payment id now s = elim (get id s.prepared_payment_records) [
  | none ↦ none
  | some v ↦ if ltb now v.expires_at then some v else none
]

unfoldable pub delete_prepared_payment : String → Store → Store
delete_prepared_payment id s = record s {
  prepared_payment_records = delete id s.prepared_payment_records;
}

unfoldable pub prune_prepared_payments : ℕ → Store → Store
prune_prepared_payments now s = record s {
  prepared_payment_records =
      prune (λ (v : PreparedPaymentRecord). leb v.expires_at now) s.prepared_payment_records;
}

-- `existing?.submittedAt`
abbrev pub earlier_submission : Option PaymentWorkflow → Option ℕ
earlier_submission none = none
earlier_submission (some w) = w.submitted_at

-- `clock` is the value of `Date.now()`.
unfoldable pub save_payment_workflow : PaymentWorkflow → ℕ → Store → Store
save_payment_workflow v clock s =
    let existing = get v.prepared_payment_id s.payment_workflows in
    let first = get_or (or_else (earlier_submission existing) v.submitted_at) clock in
    record s {
      payment_workflows =
          set v.prepared_payment_id (record v { submitted_at = some first }) s.payment_workflows;
    }

unfoldable pub get_payment_workflow : String → Store → Option PaymentWorkflow
get_payment_workflow id s = get id s.payment_workflows

unfoldable pub delete_payment_workflow : String → Store → Store
delete_payment_workflow id s = record s { payment_workflows = delete id s.payment_workflows }

unfoldable pub claim_payment_workflow_terminal :
    String → WorkflowState → ℕ → Option String → Store → Option ℕ × Store
claim_payment_workflow_terminal id state now rejection s = elim (get id s.payment_workflows) [
  | none ↦ (none, s)
  | some v ↦ if is_some v.finalized_at then (none, s) else (
    some now,
    record s {
      payment_workflows =
          set id (record v { state = state; rejection = rejection; finalized_at = some now })
            s.payment_workflows;
    },
  )
]

module _ (locale : Locale) where
  abbrev pub payment_order : PaymentWorkflow → PaymentWorkflow → Bool
  payment_order a b = locale.collate a.prepared_payment_id b.prepared_payment_id

  unfoldable pub pending_payment_workflows : ℕ → Store → List PaymentWorkflow
  pending_payment_workflows limit s = take limit (
      sort payment_order
        (keep (λ (v : PaymentWorkflow). is_submitted v.state) (values s.payment_workflows)))
