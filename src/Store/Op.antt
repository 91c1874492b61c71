-- ===== src/Store/Op.antt =====
-- The operations of `MemoryStore` that change its state, as data, so that a history of calls is a
-- list. The reads leave the store as it is and are not listed.
use onlykas.Prelude.{ℕ, String, Option, List, [], ◌∷◌}
use onlykas.Domain.{
  Challenge, Session, Profile, Post, Purchase, CreatorCovenant, MembershipPurchase,
  PreparedPaymentRecord, PaymentWorkflow, MembershipWorkflow, PreparedMembershipRecord,
  WorkflowState,
}
use onlykas.Store.{Store}
use onlykas.Store.Auth
use onlykas.Store.Payments
use onlykas.Store.Memberships
use onlykas.Store.Posts
use onlykas.Store.Purchases
use onlykas.Store.Covenants

pub data Op : Type 0 where
  create_challenge : Challenge → Op
  consume_challenge : String → ℕ → Op
  prune_challenges : ℕ → Op
  create_session : Session → Op
  roll_session : String → ℕ → Op
  delete_session : String → Op
  prune_sessions : ℕ → Op
  save_profile : Profile → Op
  save_prepared_payment : PreparedPaymentRecord → Op
  delete_prepared_payment : String → Op
  prune_prepared_payments : ℕ → Op
  save_payment_workflow : PaymentWorkflow → ℕ → Op
  delete_payment_workflow : String → Op
  claim_payment_workflow_terminal : String → WorkflowState → ℕ → Option String → Op
  save_prepared_membership : PreparedMembershipRecord → Op
  delete_prepared_membership : String → Op
  prune_prepared_memberships : ℕ → Op
  save_membership_workflow : MembershipWorkflow → ℕ → Op
  delete_membership_workflow : String → Op
  claim_membership_workflow_terminal : String → WorkflowState → ℕ → Option String → Op
  publish_post : Post → Op
  reserve_publication : Post → ℕ → Op
  commit_publication : Post → Op
  release_publication : String → Op
  prune_pending_publications : ℕ → Op
  delete_post : String → Op
  create_purchase : Purchase → Op
  finalize_purchase : String → Purchase → Op
  create_membership_purchase : MembershipPurchase → Op
  finalize_membership_purchase : String → MembershipPurchase → Op
  save_creator_covenant : CreatorCovenant → Op
  finalize_offer : String → CreatorCovenant → Op
  finalize_price_update : String → CreatorCovenant → Op
  finalize_cancellation : String → String → String → Op

-- The store that a call leaves behind.
unfoldable pub apply : Op → Store → Store
apply (create_challenge v) s = Auth.create_challenge v s
apply (consume_challenge id now) s = (Auth.consume_challenge id now s).1
apply (prune_challenges now) s = Auth.prune_challenges now s
apply (create_session v) s = Auth.create_session v s
apply (roll_session id expires_at) s = Auth.roll_session id expires_at s
apply (delete_session id) s = Auth.delete_session id s
apply (prune_sessions now) s = Auth.prune_sessions now s
apply (save_profile v) s = Auth.save_profile v s
apply (save_prepared_payment v) s = Payments.save_prepared_payment v s
apply (delete_prepared_payment id) s = Payments.delete_prepared_payment id s
apply (prune_prepared_payments now) s = Payments.prune_prepared_payments now s
apply (save_payment_workflow v clock) s = Payments.save_payment_workflow v clock s
apply (delete_payment_workflow id) s = Payments.delete_payment_workflow id s
apply (claim_payment_workflow_terminal id state now rejection) s =
    (Payments.claim_payment_workflow_terminal id state now rejection s).1
apply (save_prepared_membership v) s = Memberships.save_prepared_membership v s
apply (delete_prepared_membership id) s = Memberships.delete_prepared_membership id s
apply (prune_prepared_memberships now) s = Memberships.prune_prepared_memberships now s
apply (save_membership_workflow v clock) s = Memberships.save_membership_workflow v clock s
apply (delete_membership_workflow id) s = Memberships.delete_membership_workflow id s
apply (claim_membership_workflow_terminal id state now rejection) s =
    (Memberships.claim_membership_workflow_terminal id state now rejection s).1
apply (publish_post v) s = (Posts.publish_post v s).1
apply (reserve_publication v expires_at) s = (Posts.reserve_publication v expires_at s).1
apply (commit_publication v) s = (Posts.commit_publication v s).1
apply (release_publication id) s = Posts.release_publication id s
apply (prune_pending_publications now) s = Posts.prune_pending_publications now s
apply (delete_post id) s = (Posts.delete_post id s).1
apply (create_purchase v) s = (Purchases.create_purchase v s).1
apply (finalize_purchase id v) s = (Purchases.finalize_purchase id v s).1
apply (create_membership_purchase v) s = (Purchases.create_membership_purchase v s).1
apply (finalize_membership_purchase id v) s = (Purchases.finalize_membership_purchase id v s).1
apply (save_creator_covenant v) s = (Covenants.save_creator_covenant v s).1
apply (finalize_offer id v) s = (Covenants.finalize_offer id v s).1
apply (finalize_price_update id v) s = (Covenants.finalize_price_update id v s).1
apply (finalize_cancellation id creator covenant_id) s =
    (Covenants.finalize_cancellation id creator covenant_id s).1

unfoldable pub run : List Op → Store → Store
run [] s = s
run (op ∷ ops) s = run ops (apply op s)
