-- ===== src/Durable/Claims.antt =====
-- backend/src/libsql-store.ts: a payment workflow is claimed once, also if it is saved again.
use onlykas.Prelude.{
  ℕ, String, ◌≡◌, refl, ◌≢◌, Bool, true, false, Option, none, some, List, [], ◌∷◌, arith, ◌==◌,
  eq_iff, inl, inr, Bool-cases,
}
use onlykas.Prelude.Lists.{All, any, keep}
use onlykas.Domain.{WorkflowState, PaymentWorkflow}
use onlykas.Ports.{returns}
use onlykas.Sql.{upsert}
use onlykas.Sql.Constraints.{
  any-append, any-update, none-update, none-remove, any-remove, all-update,
}
use onlykas.Store.Op.{Op}
use onlykas.Durable.{Database, WorkflowRow}
use onlykas.Durable.Rows.{Json, payment_workflow_row, state_text}
use onlykas.Durable.Auth
use onlykas.Durable.Payments
use onlykas.Durable.Memberships
use onlykas.Durable.Posts
use onlykas.Durable.Purchases
use onlykas.Durable.Covenants
use onlykas.Durable.Payments.{can_claim, claimed, claim_time, resubmitted}
use onlykas.Durable.Calls

-- The workflow has a row, and no row of it is open for a claim.
abbrev pub IsClaimed : String → List WorkflowRow → Type 0
IsClaimed id t = (any (λ r. r.id == id) t ≡ true) × (any (can_claim id) t ≡ false)

abbrev pub Deletes : String → Op → Type 0
Deletes id (Op.delete_payment_workflow other) = other ≡ id
Deletes id _ = ⊥

module _ (id : String) (db : Database) (h : IsClaimed id db.payment_workflows) where
  save-IsClaimed :
      (v : PaymentWorkflow) (clock : ℕ)
      → IsClaimed id (Payments.save_payment_workflow v clock db).payment_workflows
  unfolding Payments.save_payment_workflow upsert payment_workflow_row
  save-IsClaimed v clock =
      let row = payment_workflow_row v clock in
      let test = λ (r : WorkflowRow). r.id == v.prepared_payment_id in
      elim (Bool-cases (any test db.payment_workflows)) [
        | inl e ↦ ground (
          arith,
          h,
          e,
          any-update (λ r. r.id == id) test (resubmitted row) db.payment_workflows (λ r. refl),
          any-update (can_claim id) test (resubmitted row) db.payment_workflows (λ r. refl),
        )
        | inr e ↦ ground (
          arith,
          h,
          e,
          eq_iff v.prepared_payment_id id,
          any-append (λ r. r.id == id) db.payment_workflows row,
          any-append (can_claim id) db.payment_workflows row,
        )
      ]

  claim-IsClaimed :
      (other : String) (state : WorkflowState) (now : ℕ) (rejection : Option String)
      → IsClaimed id
          (Payments.claim_payment_workflow_terminal other state now rejection
            db).1.payment_workflows
  unfolding Payments.claim_payment_workflow_terminal
  claim-IsClaimed other state now rejection =
      let set = claimed (state_text state) now rejection in
      ground (
        arith,
        h,
        any-update (λ r. r.id == id) (can_claim other) set db.payment_workflows (λ r. refl),
        none-update (can_claim id) (can_claim other) set db.payment_workflows (λ r. ground arith),
      )

  delete-IsClaimed :
      (other : String)
      → other ≢ id
      → IsClaimed id (Payments.delete_payment_workflow other db).payment_workflows
  unfolding Payments.delete_payment_workflow
  delete-IsClaimed other ne = ground (
    arith,
    h,
    any-remove (λ r. r.id == id) (λ r. r.id == other) db.payment_workflows
        (λ r e. ground (arith, eq_iff r.id id, eq_iff r.id other, e, ne)),
    none-remove (can_claim id) (λ r. r.id == other) db.payment_workflows,
  )

module _ (json : Json) (id : String) where
  apply-IsClaimed :
      (op : Op) (db : Database)
      → ¬ (Deletes id op)
      → IsClaimed id db.payment_workflows
      → IsClaimed id (Calls.apply json op db).payment_workflows
  unfolding Calls.apply Auth.create_challenge Auth.consume_challenge Auth.prune_challenges
      Auth.create_session Auth.roll_session Auth.delete_session Auth.prune_sessions
      Auth.save_profile Payments.save_prepared_payment Payments.delete_prepared_payment
      Payments.prune_prepared_payments Memberships.save_prepared_membership
      Memberships.delete_prepared_membership Memberships.prune_prepared_memberships
      Memberships.save_membership_workflow Memberships.delete_membership_workflow
      Memberships.claim_membership_workflow_terminal Posts.publish_post Posts.reserve_publication
      Posts.commit_publication Posts.release_publication Posts.prune_pending_publications
      Posts.delete_post Purchases.create_purchase Purchases.finalize_purchase
      Purchases.create_membership_purchase Purchases.finalize_membership_purchase
      Purchases.transactional_finalize Covenants.save_creator_covenant Covenants.finalize_offer
      Covenants.change_covenant Covenants.finalize_price_update Covenants.finalize_cancellation
  apply-IsClaimed (Op.save_payment_workflow v clock) db keeps h = save-IsClaimed id db h v clock
  apply-IsClaimed (Op.delete_payment_workflow other) db keeps h =
      delete-IsClaimed id db h other keeps
  apply-IsClaimed (Op.claim_payment_workflow_terminal other state now rejection) db keeps h =
      claim-IsClaimed id db h other state now rejection
  apply-IsClaimed op db keeps h = ground (arith, h)

  run-IsClaimed :
      (ops : List Op) (db : Database)
      → All (λ op. ¬ (Deletes id op)) ops
      → IsClaimed id db.payment_workflows
      → IsClaimed id (Calls.run json ops db).payment_workflows
  unfolding Calls.run
  run-IsClaimed [] db keeps h = h
  run-IsClaimed (op ∷ ops) db keeps h =
      run-IsClaimed ops (Calls.apply json op db) keeps.1 (apply-IsClaimed op db keeps.0 h)

-- Where a row passes, one has the id.
any-claim :
    (id : String) (t : List WorkflowRow)
    → any (can_claim id) t ≡ true
    → any (λ r. r.id == id) t ≡ true
any-claim id [] h = cc
any-claim id (r ∷ t) h = ground (arith, any-claim id t)

keep_none : (p : WorkflowRow → Bool) (t : List WorkflowRow) → any p t ≡ false → keep p t ≡ []
keep_none p [] h = refl
keep_none p (r ∷ t) h = ground (arith, keep_none p t)

won-IsClaimed :
    (id : String) (state : WorkflowState) (now t : ℕ) (rejection : Option String) (db : Database)
    → (Payments.claim_payment_workflow_terminal id state now rejection db).0 ≡ returns (some t)
    → IsClaimed id
        (Payments.claim_payment_workflow_terminal id state now rejection db).1.payment_workflows
unfolding Payments.claim_payment_workflow_terminal
won-IsClaimed id state now t rejection db e =
    let set = claimed (state_text state) now rejection in
    elim (Bool-cases (any (can_claim id) db.payment_workflows)) [
      | inl h ↦ ground (
        arith,
        any-claim id db.payment_workflows h,
        any-update (λ r. r.id == id) (can_claim id) set db.payment_workflows (λ r. refl),
        all-update (can_claim id) set db.payment_workflows (λ r. ground arith),
      )
      | inr h ↦ absurd (ground (arith, e, keep_none (can_claim id) db.payment_workflows h))
    ]

-- Once `claimPaymentWorkflowTerminal` of `LibsqlStore` has returned a time for a workflow, it
-- returns null for that workflow, for any state, time and reason, after any calls of the store, also
-- calls of `savePaymentWorkflow` for it, as long as none of them deletes the workflow.
pub durable_claim_once :
    (json : Json) (id : String) (state again : WorkflowState) (now t later : ℕ)
    (rejection reason : Option String) (ops : List Op) (db : Database)
    → (Payments.claim_payment_workflow_terminal id state now rejection db).0 ≡ returns (some t)
    → All (λ op. ¬ (Deletes id op)) ops
    → (Payments.claim_payment_workflow_terminal id again later reason (
        Calls.run json ops
          (Payments.claim_payment_workflow_terminal id state now rejection db).1)).0
      ≡ returns none
unfolding Payments.claim_payment_workflow_terminal
durable_claim_once json id state again now t later rejection reason ops db e keeps =
    let db' = (Payments.claim_payment_workflow_terminal id state now rejection db).1 in
    let after = run-IsClaimed json id ops db' keeps (won-IsClaimed id state now t rejection db e) in
    ground (arith, keep_none (can_claim id) (Calls.run json ops db').payment_workflows after.1)
