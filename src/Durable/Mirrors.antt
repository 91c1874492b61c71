-- ===== src/Durable/Mirrors.antt =====
-- backend/src/libsql-store.ts against backend/src/memory-store.ts: when the tables of a database
-- hold what the maps of a `MemoryStore` hold. What the calls do to the two is in the children.
pub mod Auth
pub mod Prepared
use onlykas.Prelude.{◌≡◌}
use onlykas.Domain.{PaymentWorkflow}
use onlykas.Sql.Laws.{rows}
use onlykas.Store.{Store}
use onlykas.Durable.{Database, WorkflowRow}
use onlykas.Durable.Rows.{Json, profile_row, prepared_membership_row, state_text}

-- The row of a stored workflow.
abbrev pub workflow_row : PaymentWorkflow → WorkflowRow
workflow_row v = record {
  id = v.prepared_payment_id;
  state = state_text v.state;
  transaction_id = v.transaction_id;
  rejection = v.rejection;
  submitted_at = v.submitted_at;
  finalized_at = v.finalized_at;
}

abbrev pub same {ℓ} : {A : Type ℓ} → A → A
same v = v

-- The tables that hold what the maps hold.
pub record Mirrors (json : Json) (db : Database) (s : Store) : Type 0 where
  pub challenges : db.auth_challenges ≡ rows same s.challenges
  pub sessions : db.sessions ≡ rows same s.sessions
  pub profiles : db.profiles ≡ rows profile_row s.profiles
  pub payments : db.prepared_payments ≡ rows same s.prepared_payment_records
  pub memberships :
      db.prepared_memberships ≡ rows (prepared_membership_row json) s.prepared_membership_records
  pub workflows : db.payment_workflows ≡ rows workflow_row s.payment_workflows
  pub receipts : db.membership_purchases ≡ rows same s.membership_purchase_records
