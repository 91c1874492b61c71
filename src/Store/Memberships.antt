-- ===== src/Store/Memberships.antt =====
-- backend/src/memory-store.ts: the prepared memberships and the
-- membership workflows.
use onlykas.Prelude.{
  ℕ, String, Bool, Option, none, some, List, leb, ltb, is_some, or_else, get_or, if◌then◌else◌,
}
use onlykas.Prelude.Lists.{take, keep}
use onlykas.Prelude.Sort.{sort}
use onlykas.Locale.{Locale}
use onlykas.Map.{get, set, delete, values, prune}
use onlykas.Domain.{PreparedMembershipRecord, MembershipWorkflow, WorkflowState, is_submitted}
use onlykas.Store.{Store}

unfoldable pub save_prepared_membership : PreparedMembershipRecord → Store → Store
save_prepared_membership v s = record s {
  prepared_membership_records = set v.id v s.prepared_membership_records;
}

unfoldable pub get_prepared_membership : String → ℕ → Store → Option PreparedMembershipRecord
get_prepared_membership id now s = elim (get id s.prepared_membership_records) [
  | none ↦ none
  | some v ↦ if ltb now v.expires_at then some v else none
]

unfoldable pub delete_prepared_membership : String → Store → Store
delete_prepared_membership id s = record s {
  prepared_membership_records = delete id s.prepared_membership_records;
}

unfoldable pub prune_prepared_memberships : ℕ → Store → Store
prune_prepared_memberships now s = record s {
  prepared_membership_records =
      prune (λ (v : PreparedMembershipRecord). leb v.expires_at now) s.prepared_membership_records;
}

-- `existing?.submittedAt`
abbrev pub earlier_submission : Option MembershipWorkflow → Option ℕ
earlier_submission none = none
earlier_submission (some w) = w.submitted_at

-- `clock` is the value of `Date.now()`.
unfoldable pub save_membership_workflow : MembershipWorkflow → ℕ → Store → Store
save_membership_workflow v clock s =
    let existing = get v.prepared_membership_id s.membership_workflows in
    let first = get_or (or_else (earlier_submission existing) v.submitted_at) clock in
    record s {
      membership_workflows =
          set v.prepared_membership_id (record v { submitted_at = some first })
            s.membership_workflows;
    }

unfoldable pub get_membership_workflow : String → Store → Option MembershipWorkflow
get_membership_workflow id s = get id s.membership_workflows

unfoldable pub delete_membership_workflow : String → Store → Store
delete_membership_workflow id s = record s {
  membership_workflows = delete id s.membership_workflows;
}

unfoldable pub claim_membership_workflow_terminal :
    String → WorkflowState → ℕ → Option String → Store → Option ℕ × Store
claim_membership_workflow_terminal id state now rejection s = elim (get id s.membership_workflows) [
  | none ↦ (none, s)
  | some v ↦ if is_some v.finalized_at then (none, s) else (
    some now,
    record s {
      membership_workflows =
          set id (record v { state = state; rejection = rejection; finalized_at = some now })
            s.membership_workflows;
    },
  )
]

module _ (locale : Locale) where
  abbrev pub membership_order : MembershipWorkflow → MembershipWorkflow → Bool
  membership_order a b = locale.collate a.prepared_membership_id b.prepared_membership_id

  unfoldable pub pending_membership_workflows : ℕ → Store → List MembershipWorkflow
  pending_membership_workflows limit s = take limit (
      sort membership_order
        (keep (λ (v : MembershipWorkflow). is_submitted v.state) (values s.membership_workflows)))
