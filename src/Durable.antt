-- ===== src/Durable.antt =====
-- backend/src/libsql-store.ts: the state of `LibsqlStore`, the tables that
-- backend/src/adapters/persistence/migrations.ts creates, with the columns that the store uses. The
-- operations are in the children. The columns are read back with the decoders of `Durable.Rows`.
-- The server is taken to answer: a statement is refused for a constraint and for nothing else.
pub mod Rows
pub mod Auth
pub mod Payments
pub mod Memberships
pub mod Posts
pub mod Purchases
pub mod Covenants
pub mod Feedback
pub mod Calls
pub mod Mirrors
pub mod Refines
pub mod Reads
pub mod Roundtrip
pub mod Claims
pub mod Constraints
pub mod Offers
pub mod Leases
pub mod Migrations
use onlykas.Prelude.{ℕ, String, Option, List, []}
use onlykas.Domain.{Challenge, Session, Post, Purchase, MembershipPurchase, PreparedPaymentRecord}

-- `is_public` is 0 or 1.
pub record ProfileRow : Type 0 where
  pub address : String
  pub display_name : Option String
  pub is_public : ℕ
  pub updated_at : ℕ

-- A row of payment_workflows or of membership_workflows; `id` is its key.
pub record WorkflowRow : Type 0 where
  pub id : String
  pub state : String
  pub transaction_id : String
  pub rejection : Option String
  pub submitted_at : Option ℕ
  pub finalized_at : Option ℕ

pub record PreparedMembershipRow : Type 0 where
  pub id : String
  pub transaction_json : String
  pub fingerprint : String
  pub covenant_id : String
  pub sign_inputs : String
  pub member_output_index : Option ℕ
  pub creator : String
  pub buyer : String
  pub kind : String
  pub expires_at : ℕ
  pub price_sompi : Option String

-- A row of creator_covenants or of creator_covenant_history.
pub record CovenantRow : Type 0 where
  pub creator : String
  pub covenant_id : String
  pub price_sompi : String
  pub status : String

pub record PendingRow : Type 0 where
  pub post_id : String
  pub creator : String
  pub media_digest : String
  pub media_key : String
  pub expires_at : ℕ

pub record FeedbackRow : Type 0 where
  pub id : String
  pub message : String
  pub received_at : String
  pub attempts : ℕ
  pub lease_until : Option ℕ

-- The rows of the other tables have the fields of the records that they keep.
pub record Database : Type 0 where
  pub auth_challenges : List Challenge
  pub sessions : List Session
  pub profiles : List ProfileRow
  pub posts : List Post
  pub pending_publications : List PendingRow
  pub purchases : List Purchase
  pub creator_covenants : List CovenantRow
  pub creator_covenant_history : List CovenantRow
  pub membership_purchases : List MembershipPurchase
  pub prepared_payments : List PreparedPaymentRecord
  pub prepared_memberships : List PreparedMembershipRow
  pub payment_workflows : List WorkflowRow
  pub membership_workflows : List WorkflowRow
  pub feedback_outbox : List FeedbackRow

-- The tables after the migrations of a new database.
abbrev pub empty : Database
empty = record {
  auth_challenges = [];
  sessions = [];
  profiles = [];
  posts = [];
  pending_publications = [];
  purchases = [];
  creator_covenants = [];
  creator_covenant_history = [];
  membership_purchases = [];
  prepared_payments = [];
  prepared_memberships = [];
  payment_workflows = [];
  membership_workflows = [];
  feedback_outbox = [];
}
