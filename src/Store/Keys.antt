-- ===== src/Store/Keys.antt =====
-- The maps of `MemoryStore` stay keyed by their values: every entry stands under the key that its
-- value names, and no key stands twice.
use onlykas.Prelude.{ℕ, ◌==◌, String, Option, some, arith, inl, inr, Option-cases}
use onlykas.Map.{get}
use onlykas.Map.Laws.{HasKeys, set-HasKeys, update-HasKeys, delete-HasKeys, prune-HasKeys}
use onlykas.Domain.{
  Challenge, Session, Profile, Post, Purchase, CreatorCovenant, MembershipPurchase,
  PreparedPaymentRecord, PaymentWorkflow, MembershipWorkflow, PreparedMembershipRecord,
  WorkflowState,
}
use onlykas.Store.{Store, PendingPost}
use onlykas.Store.Auth
use onlykas.Store.Payments
use onlykas.Store.Memberships
use onlykas.Store.Posts
use onlykas.Store.Purchases

abbrev pub purchase_id : Purchase → String
purchase_id p = Purchases.purchase_key p.post_id p.buyer

abbrev pub challenge_id : Challenge → String
challenge_id v = v.id

abbrev pub session_id : Session → String
session_id v = v.id

abbrev pub profile_id : Profile → String
profile_id v = v.address

abbrev pub post_id : Post → String
post_id v = v.id

abbrev pub pending_id : PendingPost → String
pending_id v = v.post.id

abbrev pub creator_id : CreatorCovenant → String
creator_id v = v.creator

abbrev pub covenant_key : CreatorCovenant → String
covenant_key v = v.covenant_id

abbrev pub receipt_id : MembershipPurchase → String
receipt_id v = v.transaction_id

abbrev pub payment_id : PreparedPaymentRecord → String
payment_id v = v.id

abbrev pub payment_workflow_id : PaymentWorkflow → String
payment_workflow_id v = v.prepared_payment_id

abbrev pub membership_workflow_id : MembershipWorkflow → String
membership_workflow_id v = v.prepared_membership_id

abbrev pub membership_id : PreparedMembershipRecord → String
membership_id v = v.id

pub record IsKeyed (s : Store) : Type 0 where
  pub challenges : HasKeys challenge_id s.challenges
  pub sessions : HasKeys session_id s.sessions
  pub profiles : HasKeys profile_id s.profiles
  pub posts : HasKeys post_id s.posts
  pub pending_posts : HasKeys pending_id s.pending_posts
  pub purchases : HasKeys purchase_id s.purchases
  pub creator_covenants : HasKeys creator_id s.creator_covenants
  pub creator_covenant_history : HasKeys covenant_key s.creator_covenant_history
  pub membership_purchase_records : HasKeys receipt_id s.membership_purchase_records
  pub prepared_payment_records : HasKeys payment_id s.prepared_payment_records
  pub payment_workflows : HasKeys payment_workflow_id s.payment_workflows
  pub membership_workflows : HasKeys membership_workflow_id s.membership_workflows
  pub prepared_membership_records : HasKeys membership_id s.prepared_membership_records

pub consume_challenge-IsKeyed :
    (id : String) (now : ℕ) (s : Store) → IsKeyed s → IsKeyed (Auth.consume_challenge id now s).1
unfolding Auth.consume_challenge
consume_challenge-IsKeyed id now s h = elim (Option-cases (get id s.challenges)) [
  | inl e ↦ ground arith
  | inr (v, e) ↦ ground (
    arith,
    update-HasKeys challenge_id id v (record v { consumed_at = some now }) s.challenges h.challenges
        e,
  )
]

pub roll_session-IsKeyed :
    (id : String) (expires_at : ℕ) (s : Store)
    → IsKeyed s
    → IsKeyed (Auth.roll_session id expires_at s)
unfolding Auth.roll_session
roll_session-IsKeyed id expires_at s h = elim (Option-cases (get id s.sessions)) [
  | inl e ↦ ground arith
  | inr (v, e) ↦ ground (
    arith,
    update-HasKeys session_id id v (record v { expires_at = expires_at }) s.sessions h.sessions e,
  )
]

module _ (id : String) (state : WorkflowState) (now : ℕ) (rejection : Option String)
    (s : Store) where
  pub claim_payment-IsKeyed :
      IsKeyed s → IsKeyed (Payments.claim_payment_workflow_terminal id state now rejection s).1
  unfolding Payments.claim_payment_workflow_terminal
  claim_payment-IsKeyed h = elim (Option-cases (get id s.payment_workflows)) [
    | inl e ↦ ground arith
    | inr (v, e) ↦ ground (
      arith,
      update-HasKeys payment_workflow_id id v
          (record v { state = state; rejection = rejection; finalized_at = some now })
          s.payment_workflows h.payment_workflows e,
    )
  ]

  pub claim_membership-IsKeyed :
      IsKeyed s
      → IsKeyed (Memberships.claim_membership_workflow_terminal id state now rejection s).1
  unfolding Memberships.claim_membership_workflow_terminal
  claim_membership-IsKeyed h = elim (Option-cases (get id s.membership_workflows)) [
    | inl e ↦ ground arith
    | inr (v, e) ↦ ground (
      arith,
      update-HasKeys membership_workflow_id id v
          (record v { state = state; rejection = rejection; finalized_at = some now })
          s.membership_workflows h.membership_workflows e,
    )
  ]

pub commit_publication-IsKeyed :
    (v : Post) (s : Store) → IsKeyed s → IsKeyed (Posts.commit_publication v s).1
unfolding Posts.commit_publication
commit_publication-IsKeyed v s h = ground (
  arith,
  set-HasKeys post_id v s.posts h.posts,
  delete-HasKeys pending_id v.id s.pending_posts h.pending_posts,
)

pub delete_post-IsKeyed : (id : String) (s : Store) → IsKeyed s → IsKeyed (Posts.delete_post id s).1
unfolding Posts.delete_post
delete_post-IsKeyed id s h = ground (
  arith,
  delete-HasKeys post_id id s.posts h.posts,
  prune-HasKeys purchase_id (λ (x : Purchase). x.post_id == id) s.purchases h.purchases,
)

pub create_purchase-IsKeyed :
    (v : Purchase) (s : Store) → IsKeyed s → IsKeyed (Purchases.create_purchase v s).1
unfolding Purchases.create_purchase
create_purchase-IsKeyed v s h = ground (arith, set-HasKeys purchase_id v s.purchases h.purchases)

pub create_membership_purchase-IsKeyed :
    (v : MembershipPurchase) (s : Store)
    → IsKeyed s
    → IsKeyed (Purchases.create_membership_purchase v s).1
unfolding Purchases.create_membership_purchase
create_membership_purchase-IsKeyed v s h =
    ground
      (arith, set-HasKeys receipt_id v s.membership_purchase_records h.membership_purchase_records)
