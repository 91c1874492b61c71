-- ===== src/Store/Kept.antt =====
-- `MemoryStore`: the simple operations keep every map keyed by its values.
use onlykas.Prelude.{ℕ, String, ◌||◌, arith, some, leb, is_some, get_or, or_else}
use onlykas.Map.{get}
use onlykas.Map.Laws.{set-HasKeys, delete-HasKeys, prune-HasKeys}
use onlykas.Domain.{
  Challenge, Session, Profile, Post, PreparedPaymentRecord, PaymentWorkflow, MembershipWorkflow,
  PreparedMembershipRecord,
}
use onlykas.Store.{Store, PendingPost}
use onlykas.Domain
use onlykas.Store.Auth
use onlykas.Store.Payments
use onlykas.Store.Memberships
use onlykas.Store.Posts
use onlykas.Store.Purchases
use onlykas.Store.CovenantKeys.{drop_prepared-IsKeyed}
use onlykas.Store.Keys
use onlykas.Store.Keys.{
  IsKeyed, challenge_id, session_id, profile_id, post_id, pending_id, creator_id, covenant_key,
  receipt_id, payment_id, payment_workflow_id, membership_workflow_id, membership_id,
}

pub create_challenge-IsKeyed :
    (v : Challenge) (s : Store) → IsKeyed s → IsKeyed (Auth.create_challenge v s)
unfolding Auth.create_challenge
create_challenge-IsKeyed v s h =
    ground (arith, set-HasKeys challenge_id v s.challenges h.challenges)

pub prune_challenges-IsKeyed :
    (now : ℕ) (s : Store) → IsKeyed s → IsKeyed (Auth.prune_challenges now s)
unfolding Auth.prune_challenges
prune_challenges-IsKeyed now s h = ground (
  arith,
  prune-HasKeys challenge_id (λ (v : Challenge). is_some v.consumed_at || leb v.expires_at now)
      s.challenges h.challenges,
)

pub create_session-IsKeyed :
    (v : Session) (s : Store) → IsKeyed s → IsKeyed (Auth.create_session v s)
unfolding Auth.create_session
create_session-IsKeyed v s h = ground (arith, set-HasKeys session_id v s.sessions h.sessions)

pub delete_session-IsKeyed :
    (id : String) (s : Store) → IsKeyed s → IsKeyed (Auth.delete_session id s)
unfolding Auth.delete_session
delete_session-IsKeyed id s h = ground (arith, delete-HasKeys session_id id s.sessions h.sessions)

pub prune_sessions-IsKeyed : (now : ℕ) (s : Store) → IsKeyed s → IsKeyed (Auth.prune_sessions now s)
unfolding Auth.prune_sessions
prune_sessions-IsKeyed now s h =
    ground (
      arith,
      prune-HasKeys session_id (λ (v : Session). leb v.expires_at now) s.sessions h.sessions,
    )

pub save_profile-IsKeyed : (v : Profile) (s : Store) → IsKeyed s → IsKeyed (Auth.save_profile v s)
unfolding Auth.save_profile
save_profile-IsKeyed v s h = ground (arith, set-HasKeys profile_id v s.profiles h.profiles)

pub save_prepared_payment-IsKeyed :
    (v : PreparedPaymentRecord) (s : Store)
    → IsKeyed s
    → IsKeyed (Payments.save_prepared_payment v s)
unfolding Payments.save_prepared_payment
save_prepared_payment-IsKeyed v s h =
    ground (arith, set-HasKeys payment_id v s.prepared_payment_records h.prepared_payment_records)

pub delete_prepared_payment-IsKeyed :
    (id : String) (s : Store) → IsKeyed s → IsKeyed (Payments.delete_prepared_payment id s)
unfolding Payments.delete_prepared_payment
delete_prepared_payment-IsKeyed id s h =
    ground
      (arith, delete-HasKeys payment_id id s.prepared_payment_records h.prepared_payment_records)

pub prune_prepared_payments-IsKeyed :
    (now : ℕ) (s : Store) → IsKeyed s → IsKeyed (Payments.prune_prepared_payments now s)
unfolding Payments.prune_prepared_payments
prune_prepared_payments-IsKeyed now s h = ground (
  arith,
  prune-HasKeys payment_id (λ (v : PreparedPaymentRecord). leb v.expires_at now)
      s.prepared_payment_records h.prepared_payment_records,
)

pub save_payment_workflow-IsKeyed :
    (v : PaymentWorkflow) (clock : ℕ) (s : Store)
    → IsKeyed s
    → IsKeyed (Payments.save_payment_workflow v clock s)
unfolding Payments.save_payment_workflow
save_payment_workflow-IsKeyed v clock s h = ground (
  arith,
  set-HasKeys payment_workflow_id
      (record v {
        submitted_at = some (
            get_or
              (or_else (Payments.earlier_submission (get v.prepared_payment_id s.payment_workflows))
                v.submitted_at)
              clock);
      })
      s.payment_workflows h.payment_workflows,
)

pub delete_payment_workflow-IsKeyed :
    (id : String) (s : Store) → IsKeyed s → IsKeyed (Payments.delete_payment_workflow id s)
unfolding Payments.delete_payment_workflow
delete_payment_workflow-IsKeyed id s h =
    ground (arith, delete-HasKeys payment_workflow_id id s.payment_workflows h.payment_workflows)

pub save_prepared_membership-IsKeyed :
    (v : PreparedMembershipRecord) (s : Store)
    → IsKeyed s
    → IsKeyed (Memberships.save_prepared_membership v s)
unfolding Memberships.save_prepared_membership
save_prepared_membership-IsKeyed v s h =
    ground (
      arith,
      set-HasKeys membership_id v s.prepared_membership_records h.prepared_membership_records,
    )

pub delete_prepared_membership-IsKeyed :
    (id : String) (s : Store) → IsKeyed s → IsKeyed (Memberships.delete_prepared_membership id s)
unfolding Memberships.delete_prepared_membership
delete_prepared_membership-IsKeyed id s h = ground (
  arith,
  delete-HasKeys membership_id id s.prepared_membership_records h.prepared_membership_records,
)

pub prune_prepared_memberships-IsKeyed :
    (now : ℕ) (s : Store) → IsKeyed s → IsKeyed (Memberships.prune_prepared_memberships now s)
unfolding Memberships.prune_prepared_memberships
prune_prepared_memberships-IsKeyed now s h = ground (
  arith,
  prune-HasKeys membership_id (λ (v : PreparedMembershipRecord). leb v.expires_at now)
      s.prepared_membership_records h.prepared_membership_records,
)

pub save_membership_workflow-IsKeyed :
    (v : MembershipWorkflow) (clock : ℕ) (s : Store)
    → IsKeyed s
    → IsKeyed (Memberships.save_membership_workflow v clock s)
unfolding Memberships.save_membership_workflow
save_membership_workflow-IsKeyed v clock s h = ground (
  arith,
  set-HasKeys membership_workflow_id
      (record v {
        submitted_at = some (
            get_or
              (or_else
                (Memberships.earlier_submission
                  (get v.prepared_membership_id s.membership_workflows))
                v.submitted_at)
              clock);
      })
      s.membership_workflows h.membership_workflows,
)

pub delete_membership_workflow-IsKeyed :
    (id : String) (s : Store) → IsKeyed s → IsKeyed (Memberships.delete_membership_workflow id s)
unfolding Memberships.delete_membership_workflow
delete_membership_workflow-IsKeyed id s h =
    ground (
      arith,
      delete-HasKeys membership_workflow_id id s.membership_workflows h.membership_workflows,
    )

pub release_publication-IsKeyed :
    (id : String) (s : Store) → IsKeyed s → IsKeyed (Posts.release_publication id s)
unfolding Posts.release_publication
release_publication-IsKeyed id s h =
    ground (arith, delete-HasKeys pending_id id s.pending_posts h.pending_posts)

pub prune_pending_publications-IsKeyed :
    (now : ℕ) (s : Store) → IsKeyed s → IsKeyed (Posts.prune_pending_publications now s)
unfolding Posts.prune_pending_publications
prune_pending_publications-IsKeyed now s h = ground (
  arith,
  prune-HasKeys pending_id (λ (x : PendingPost). leb x.expires_at now) s.pending_posts
      h.pending_posts,
)

pub publish_post-IsKeyed : (v : Post) (s : Store) → IsKeyed s → IsKeyed (Posts.publish_post v s).1
unfolding Posts.publish_post
publish_post-IsKeyed v s h = ground (arith, set-HasKeys post_id v s.posts h.posts)

pub reserve_publication-IsKeyed :
    (v : Post) (expires_at : ℕ) (s : Store)
    → IsKeyed s
    → IsKeyed (Posts.reserve_publication v expires_at s).1
unfolding Posts.reserve_publication
reserve_publication-IsKeyed v expires_at s h = ground (
  arith,
  set-HasKeys pending_id (record { post = v; expires_at = expires_at }) s.pending_posts
      h.pending_posts,
)

pub finalize_purchase-IsKeyed :
    (id : String) (v : Domain.Purchase) (s : Store)
    → IsKeyed s
    → IsKeyed (Purchases.finalize_purchase id v s).1
unfolding Purchases.finalize_purchase Payments.delete_prepared_payment
finalize_purchase-IsKeyed id v s h =
    delete_prepared_payment-IsKeyed id (Purchases.create_purchase v s).1
      (Keys.create_purchase-IsKeyed v s h)

pub finalize_membership_purchase-IsKeyed :
    (id : String) (v : Domain.MembershipPurchase) (s : Store)
    → IsKeyed s
    → IsKeyed (Purchases.finalize_membership_purchase id v s).1
unfolding Purchases.finalize_membership_purchase
finalize_membership_purchase-IsKeyed id v s h =
    drop_prepared-IsKeyed id (Purchases.create_membership_purchase v s).1
      (Keys.create_membership_purchase-IsKeyed v s h)
