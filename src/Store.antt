-- ===== src/Store.antt =====
-- backend/src/memory-store.ts: the state of `MemoryStore`, one map for each kind of record. The
-- operations are in the children, by the repository of application/ports.ts that they belong to.
-- Values are cloned into and out of the maps, so no alias of a stored value is kept by a caller.
pub mod Auth
pub mod Payments
pub mod Memberships
pub mod Posts
pub mod Purchases
pub mod Covenants
pub mod Op
pub mod Keys
pub mod CovenantKeys
pub mod Kept
pub mod History
pub mod Frames
pub mod Replay
pub mod Receipts
pub mod OneEach
pub mod Media
pub mod Claims
pub mod Mirror
pub mod Pending
pub mod Offers
use onlykas.Prelude.{ℕ, String, [], ◌++◌}
use onlykas.Map.{Map}
use onlykas.Domain.{
  Challenge, Session, Profile, Post, Purchase, CreatorCovenant, MembershipPurchase,
  PreparedPaymentRecord, PaymentWorkflow, MembershipWorkflow, PreparedMembershipRecord,
}

-- A reserved publication.
pub record PendingPost : Type 0 where
  pub post : Post
  pub expires_at : ℕ

pub record Store : Type 0 where
  pub challenges : Map Challenge
  pub sessions : Map Session
  pub profiles : Map Profile
  pub posts : Map Post
  pub pending_posts : Map PendingPost
  pub purchases : Map Purchase
  pub creator_covenants : Map CreatorCovenant
  pub creator_covenant_history : Map CreatorCovenant
  pub membership_purchase_records : Map MembershipPurchase
  pub prepared_payment_records : Map PreparedPaymentRecord
  pub payment_workflows : Map PaymentWorkflow
  pub membership_workflows : Map MembershipWorkflow
  pub prepared_membership_records : Map PreparedMembershipRecord

abbrev pub empty : Store
empty = record {
  challenges = [];
  sessions = [];
  profiles = [];
  posts = [];
  pending_posts = [];
  purchases = [];
  creator_covenants = [];
  creator_covenant_history = [];
  membership_purchase_records = [];
  prepared_payment_records = [];
  payment_workflows = [];
  membership_workflows = [];
  prepared_membership_records = [];
}
