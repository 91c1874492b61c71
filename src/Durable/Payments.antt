-- ===== src/Durable/Payments.antt =====
-- backend/src/libsql-store.ts: the prepared payments and the payment workflows.
use onlykas.Prelude.{
  ℕ, String, Bool, not, ◌&&◌, Option, none, some, List, leb, ltb, ◌==◌, is_some, or_else, map,
}
use onlykas.Prelude.Lists.{take, keep}
use onlykas.Prelude.Sort.{sort}
use onlykas.Sql.{first, insert, update, remove, upsert}
use onlykas.Domain.{PreparedPaymentRecord, PaymentWorkflow, WorkflowState}
use onlykas.Ports.{Call, returns, throws}
use onlykas.Durable.{Database, WorkflowRow}
use onlykas.Durable.Rows.{
  prepared_payment_from_row, payment_workflow_from_row, payment_workflow_row, state_text,
  nullable_number,
}
use onlykas.Durable.Auth.{decoded, decoded_all}

unfoldable pub save_prepared_payment : PreparedPaymentRecord → Database → Call (Unit {0}) × Database
save_prepared_payment v db =
    elim (insert (λ w r. r.id == w.id) (λ r. ltb 0 r.expires_at) v db.prepared_payments) [
      | none ↦ (throws, db)
      | some t ↦ (returns tt, record db { prepared_payments = t })
    ]

unfoldable pub get_prepared_payment : String → ℕ → Database → Call (Option PreparedPaymentRecord)
get_prepared_payment id now db =
    decoded prepared_payment_from_row
      (first (keep (λ r. (r.id == id) && ltb now r.expires_at) db.prepared_payments))

unfoldable pub delete_prepared_payment : String → Database → Database
delete_prepared_payment id db = record db {
  prepared_payments = remove (λ r. r.id == id) db.prepared_payments;
}

unfoldable pub prune_prepared_payments : ℕ → Database → Database
prune_prepared_payments now db = record db {
  prepared_payments = remove (λ r. leb r.expires_at now) db.prepared_payments;
}

-- `DO UPDATE SET state=excluded.state, ..., submitted_at=COALESCE(submitted_at, excluded.submitted_at)`
abbrev pub resubmitted : WorkflowRow → WorkflowRow → WorkflowRow
resubmitted excluded r = record r {
  state = excluded.state;
  transaction_id = excluded.transaction_id;
  rejection = excluded.rejection;
  submitted_at = or_else r.submitted_at excluded.submitted_at;
}

unfoldable pub save_payment_workflow : PaymentWorkflow → ℕ → Database → Database
save_payment_workflow v clock db =
    let row = payment_workflow_row v clock in
    record db {
      payment_workflows =
          upsert (λ r. r.id == v.prepared_payment_id) (resubmitted row) row db.payment_workflows;
    }

unfoldable pub get_payment_workflow : String → Database → Call (Option PaymentWorkflow)
get_payment_workflow id db =
    decoded payment_workflow_from_row (first (keep (λ r. r.id == id) db.payment_workflows))

unfoldable pub delete_payment_workflow : String → Database → Database
delete_payment_workflow id db = record db {
  payment_workflows = remove (λ r. r.id == id) db.payment_workflows;
}

-- `WHERE prepared_payment_id=? AND finalized_at IS NULL`
abbrev pub can_claim : String → WorkflowRow → Bool
can_claim id r = (r.id == id) && not (is_some r.finalized_at)

abbrev pub claimed : String → ℕ → Option String → WorkflowRow → WorkflowRow
claimed state now rejection r = record r {
  state = state;
  rejection = rejection;
  finalized_at = some now;
}

-- `r.rows[0] ? number(r.rows[0].finalized_at) : null`
abbrev pub claim_time : Option WorkflowRow → Call (Option ℕ)
claim_time none = returns none
claim_time (some r) = nullable_number r.finalized_at

unfoldable pub claim_payment_workflow_terminal :
    String → WorkflowState → ℕ → Option String → Database → Call (Option ℕ) × Database
claim_payment_workflow_terminal id state now rejection db =
    let set = claimed (state_text state) now rejection in
    (
      claim_time (first (map set (keep (can_claim id) db.payment_workflows))),
      record db { payment_workflows = update (can_claim id) set db.payment_workflows },
    )

-- `binary` is the order of texts that SQLite sorts by.
module _ (binary : String → String → Bool) where
  unfoldable pub pending_payment_workflows : ℕ → Database → Call (List PaymentWorkflow)
  pending_payment_workflows limit db = decoded_all payment_workflow_from_row (
      take limit (
        sort (λ a b. binary a.id b.id)
          (keep (λ (r : WorkflowRow). r.state == "SUBMITTED") db.payment_workflows)))
