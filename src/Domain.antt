-- ===== src/Domain.antt =====
-- backend/src/domain/models.ts and the media types of shared/src/index.ts: the records that the
-- stores keep and that the use cases pass on. An optional or nullable field is an `Option`; times
-- are milliseconds, amounts are the decimal texts of the source.
use onlykas.Prelude.Int.{ℤ}
use onlykas.Prelude.{ℕ, String, Bool, Option, List}

pub data MediaType : Type 0 where
  image_jpeg image_png image_webp video_mp4 video_webm : MediaType

pub record Challenge : Type 0 where
  pub id : String
  pub nonce : String
  pub address : String
  pub origin : String
  pub network : String
  pub message : String
  pub expires_at : ℕ
  pub consumed_at : Option ℕ

pub record Session : Type 0 where
  pub id : String
  pub address : String
  pub expires_at : ℕ

pub record Profile : Type 0 where
  pub address : String
  pub display_name : Option String
  pub is_public : Bool
  pub updated_at : ℕ

pub record Post : Type 0 where
  pub id : String
  pub creator : String
  pub caption : String
  pub price_sompi : String
  pub media_type : MediaType
  pub media_size : ℕ
  pub media_digest : String
  pub media_key : String
  pub published_at : ℕ

pub record Purchase : Type 0 where
  pub post_id : String
  pub buyer : String
  pub transaction_id : String

pub record PreparedPayment : Type 0 where
  pub transaction : String
  pub fingerprint : String
  pub amount_sompi : String
  pub creator : String

pub record PaymentSubmission : Type 0 where
  pub is_accepted : Option Bool
  pub transaction_id : Option String
  pub rejection : Option String

pub data CovenantStatus : Type 0 where
  active canceled : CovenantStatus

pub record CreatorCovenant : Type 0 where
  pub creator : String
  pub covenant_id : String
  pub price_sompi : String
  pub status : Option CovenantStatus

pub record MembershipPurchase : Type 0 where
  pub transaction_id : String
  pub buyer : String
  pub creator : String
  pub covenant_id : Option String

pub record PreparedPaymentRecord : Type 0 where
  pub id : String
  pub transaction : String
  pub fingerprint : String
  pub amount_sompi : String
  pub creator : String
  pub post_id : String
  pub buyer : String
  pub expires_at : ℕ

-- The state of a payment workflow and of a membership workflow.
pub data WorkflowState : Type 0 where
  submitted confirmed rejected : WorkflowState

pub record PaymentWorkflow : Type 0 where
  pub prepared_payment_id : String
  pub state : WorkflowState
  pub transaction_id : String
  pub rejection : Option String
  pub submitted_at : Option ℕ
  pub finalized_at : Option ℕ

pub data MembershipKind : Type 0 where
  offer purchase update cancel : MembershipKind

pub record PreparedMembershipRecord : Type 0 where
  pub id : String
  pub transaction : String
  pub fingerprint : String
  pub covenant_id : String
  pub sign_inputs : List ℕ
  pub member_output_index : Option ℕ
  pub creator : String
  pub buyer : String
  pub kind : MembershipKind
  pub expires_at : ℕ
  pub price_sompi : Option String

pub record MembershipWorkflow : Type 0 where
  pub prepared_membership_id : String
  pub state : WorkflowState
  pub transaction_id : String
  pub rejection : Option String
  pub submitted_at : Option ℕ
  pub finalized_at : Option ℕ

pub data MembershipCheckStatus : Type 0 where
  valid expired owner_mismatch not_membership : MembershipCheckStatus

pub data TokenKind : Type 0 where
  token absent : TokenKind

pub record MembershipCheck : Type 0 where
  pub transaction_id : String
  pub output_index : ℕ
  pub covenant_id : Option String
  pub kind : TokenKind
  pub owner : Option String
  pub content_creator : Option String
  pub platform_address : Option String
  pub created_at_daa : Option ℤ
  pub expires_at_daa : Option ℤ
  -- Dates are their time values, in milliseconds.
  pub created_at : Option ℤ
  pub valid_until : Option ℤ
  pub status : MembershipCheckStatus

pub data DuplicateOutcome : Type 0 where
  created duplicate : DuplicateOutcome

abbrev pub is_submitted : WorkflowState → Bool
is_submitted submitted = Bool.true
is_submitted _ = Bool.false

abbrev pub is_canceled : Option CovenantStatus → Bool
is_canceled (Option.some canceled) = Bool.true
is_canceled _ = Bool.false
