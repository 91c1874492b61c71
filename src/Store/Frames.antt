-- ===== src/Store/Frames.antt =====
-- What each operation of `MemoryStore` may write: every other map is left as it was.
use onlykas.Prelude.{◌≡◌, Bool, true, false, arith}
use onlykas.Store.{Store}
use onlykas.Store.Auth
use onlykas.Store.Payments
use onlykas.Store.Memberships
use onlykas.Store.Posts
use onlykas.Store.Purchases
use onlykas.Store.Covenants
use onlykas.Store.Op.{Op, apply}

-- The maps of the store.
pub data Field : Type 0 where
  challenges sessions profiles posts pending_posts purchases creator_covenants
        creator_covenant_history membership_purchase_records prepared_payment_records
        payment_workflows membership_workflows prepared_membership_records :
      Field

-- The maps that an operation may write.
abbrev pub writes : Op → Field → Bool
writes (Op.create_challenge _) Field.challenges = true
writes (Op.consume_challenge _ _) Field.challenges = true
writes (Op.prune_challenges _) Field.challenges = true
writes (Op.create_session _) Field.sessions = true
writes (Op.roll_session _ _) Field.sessions = true
writes (Op.delete_session _) Field.sessions = true
writes (Op.prune_sessions _) Field.sessions = true
writes (Op.save_profile _) Field.profiles = true
writes (Op.save_prepared_payment _) Field.prepared_payment_records = true
writes (Op.delete_prepared_payment _) Field.prepared_payment_records = true
writes (Op.prune_prepared_payments _) Field.prepared_payment_records = true
writes (Op.save_payment_workflow _ _) Field.payment_workflows = true
writes (Op.delete_payment_workflow _) Field.payment_workflows = true
writes (Op.claim_payment_workflow_terminal _ _ _ _) Field.payment_workflows = true
writes (Op.save_prepared_membership _) Field.prepared_membership_records = true
writes (Op.delete_prepared_membership _) Field.prepared_membership_records = true
writes (Op.prune_prepared_memberships _) Field.prepared_membership_records = true
writes (Op.save_membership_workflow _ _) Field.membership_workflows = true
writes (Op.delete_membership_workflow _) Field.membership_workflows = true
writes (Op.claim_membership_workflow_terminal _ _ _ _) Field.membership_workflows = true
writes (Op.publish_post _) Field.posts = true
writes (Op.reserve_publication _ _) Field.pending_posts = true
writes (Op.commit_publication _) Field.posts = true
writes (Op.commit_publication _) Field.pending_posts = true
writes (Op.release_publication _) Field.pending_posts = true
writes (Op.prune_pending_publications _) Field.pending_posts = true
writes (Op.delete_post _) Field.posts = true
writes (Op.delete_post _) Field.purchases = true
writes (Op.create_purchase _) Field.purchases = true
writes (Op.finalize_purchase _ _) Field.purchases = true
writes (Op.finalize_purchase _ _) Field.prepared_payment_records = true
writes (Op.create_membership_purchase _) Field.membership_purchase_records = true
writes (Op.finalize_membership_purchase _ _) Field.membership_purchase_records = true
writes (Op.finalize_membership_purchase _ _) Field.prepared_membership_records = true
writes (Op.save_creator_covenant _) Field.creator_covenants = true
writes (Op.save_creator_covenant _) Field.creator_covenant_history = true
writes (Op.finalize_offer _ _) Field.creator_covenants = true
writes (Op.finalize_offer _ _) Field.creator_covenant_history = true
writes (Op.finalize_offer _ _) Field.prepared_membership_records = true
writes (Op.finalize_price_update _ _) Field.creator_covenants = true
writes (Op.finalize_price_update _ _) Field.creator_covenant_history = true
writes (Op.finalize_price_update _ _) Field.prepared_membership_records = true
writes (Op.finalize_cancellation _ _ _) Field.creator_covenants = true
writes (Op.finalize_cancellation _ _ _) Field.creator_covenant_history = true
writes (Op.finalize_cancellation _ _ _) Field.prepared_membership_records = true
writes _ _ = false

-- `t` is `s` in every map that `op` does not write.
pub record Frame (op : Op) (s t : Store) : Type 0 where
  pub challenges : writes op Field.challenges ≡ false → t.challenges ≡ s.challenges
  pub sessions : writes op Field.sessions ≡ false → t.sessions ≡ s.sessions
  pub profiles : writes op Field.profiles ≡ false → t.profiles ≡ s.profiles
  pub posts : writes op Field.posts ≡ false → t.posts ≡ s.posts
  pub pending_posts : writes op Field.pending_posts ≡ false → t.pending_posts ≡ s.pending_posts
  pub purchases : writes op Field.purchases ≡ false → t.purchases ≡ s.purchases
  pub creator_covenants :
      writes op Field.creator_covenants ≡ false → t.creator_covenants ≡ s.creator_covenants
  pub creator_covenant_history :
      writes op Field.creator_covenant_history ≡ false
      → t.creator_covenant_history ≡ s.creator_covenant_history
  pub membership_purchase_records :
      writes op Field.membership_purchase_records ≡ false
      → t.membership_purchase_records ≡ s.membership_purchase_records
  pub prepared_payment_records :
      writes op Field.prepared_payment_records ≡ false
      → t.prepared_payment_records ≡ s.prepared_payment_records
  pub payment_workflows :
      writes op Field.payment_workflows ≡ false → t.payment_workflows ≡ s.payment_workflows
  pub membership_workflows :
      writes op Field.membership_workflows ≡ false → t.membership_workflows ≡ s.membership_workflows
  pub prepared_membership_records :
      writes op Field.prepared_membership_records ≡ false
      → t.prepared_membership_records ≡ s.prepared_membership_records

pub frame : (op : Op) (s : Store) → Frame op s (apply op s)
unfolding apply Auth.create_challenge Auth.consume_challenge Auth.prune_challenges
    Auth.create_session Auth.roll_session Auth.delete_session Auth.prune_sessions Auth.save_profile
    Payments.save_prepared_payment Payments.delete_prepared_payment Payments.prune_prepared_payments
    Payments.save_payment_workflow Payments.delete_payment_workflow
    Payments.claim_payment_workflow_terminal Memberships.save_prepared_membership
    Memberships.delete_prepared_membership Memberships.prune_prepared_memberships
    Memberships.save_membership_workflow Memberships.delete_membership_workflow
    Memberships.claim_membership_workflow_terminal Posts.publish_post Posts.reserve_publication
    Posts.commit_publication Posts.release_publication Posts.prune_pending_publications
    Posts.delete_post Purchases.create_purchase Purchases.finalize_purchase
    Purchases.create_membership_purchase Purchases.finalize_membership_purchase
    Covenants.record_covenant Covenants.save_creator_covenant Covenants.save_new_covenant
    Covenants.finalize_offer Covenants.finalize_price_update Covenants.finalize_cancellation
frame (Op.create_challenge v) s = ground arith
frame _ s = ground arith
