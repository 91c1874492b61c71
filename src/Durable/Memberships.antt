-- ===== src/Durable/Memberships.antt =====
-- backend/src/libsql-store.ts: the prepared memberships and the membership workflows.
use onlykas.Prelude.{ℕ, String, ◌&&◌, none, some, Option, List, map, leb, ltb, ◌==◌}
use onlykas.Prelude.Lists.{take, keep}
use onlykas.Prelude.Sort.{sort}
use onlykas.Prelude.{Bool}
use onlykas.Sql.{first, insert, update, remove, upsert}
use onlykas.Domain.{PreparedMembershipRecord, MembershipWorkflow, WorkflowState}
use onlykas.Ports.{Call, returns, throws}
use onlykas.Durable.{Database, WorkflowRow}
use onlykas.Durable.Rows.{
  Json, prepared_membership_row, prepared_membership_from_row, membership_workflow_from_row,
  membership_workflow_row, state_text,
}
use onlykas.Durable.Auth.{decoded, decoded_all}
use onlykas.Durable.Payments.{resubmitted, can_claim, claimed, claim_time}

module _ (json : Json) where
  unfoldable pub save_prepared_membership :
      PreparedMembershipRecord → Database → Call (Unit {0}) × Database
  save_prepared_membership v db =
      elim (insert (λ w r. r.id == w.id) (λ r. ltb 0 r.expires_at) (prepared_membership_row json v)
        db.prepared_memberships) [
          | none ↦ (throws, db)
          | some t ↦ (returns tt, record db { prepared_memberships = t })
        ]

  unfoldable pub get_prepared_membership :
      String → ℕ → Database → Call (Option PreparedMembershipRecord)
  get_prepared_membership id now db =
      decoded (prepared_membership_from_row json)
        (first (keep (λ r. (r.id == id) && ltb now r.expires_at) db.prepared_memberships))

unfoldable pub delete_prepared_membership : String → Database → Database
delete_prepared_membership id db = record db {
  prepared_memberships = remove (λ r. r.id == id) db.prepared_memberships;
}

unfoldable pub prune_prepared_memberships : ℕ → Database → Database
prune_prepared_memberships now db = record db {
  prepared_memberships = remove (λ r. leb r.expires_at now) db.prepared_memberships;
}

unfoldable pub save_membership_workflow : MembershipWorkflow → ℕ → Database → Database
save_membership_workflow v clock db =
    let row = membership_workflow_row v clock in
    record db {
      membership_workflows =
          upsert (λ r. r.id == v.prepared_membership_id) (resubmitted row) row
            db.membership_workflows;
    }

unfoldable pub get_membership_workflow : String → Database → Call (Option MembershipWorkflow)
get_membership_workflow id db =
    decoded membership_workflow_from_row (first (keep (λ r. r.id == id) db.membership_workflows))

unfoldable pub delete_membership_workflow : String → Database → Database
delete_membership_workflow id db = record db {
  membership_workflows = remove (λ r. r.id == id) db.membership_workflows;
}

unfoldable pub claim_membership_workflow_terminal :
    String → WorkflowState → ℕ → Option String → Database → Call (Option ℕ) × Database
claim_membership_workflow_terminal id state now rejection db =
    let set = claimed (state_text state) now rejection in
    (
      claim_time (first (map set (keep (can_claim id) db.membership_workflows))),
      record db { membership_workflows = update (can_claim id) set db.membership_workflows },
    )

-- `binary` is the order of texts that SQLite sorts by.
module _ (binary : String → String → Bool) where
  unfoldable pub pending_membership_workflows : ℕ → Database → Call (List MembershipWorkflow)
  pending_membership_workflows limit db = decoded_all membership_workflow_from_row (
      take limit (
        sort (λ a b. binary a.id b.id)
          (keep (λ (r : WorkflowRow). r.state == "SUBMITTED") db.membership_workflows)))
