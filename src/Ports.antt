-- ===== src/Ports.antt =====
-- backend/src/application/ports.ts: the services outside of the process that the use cases call. A
-- call returns a value or throws. One value of such a record is what the services answer during one
-- run of a use case.
use onlykas.Prelude.{ℕ, ◌≡◌, refl, ◌⊎◌, inl, inr, String, Bool, Option}
use onlykas.Domain.{Post, PreparedPayment, PaymentSubmission, MembershipCheck}

pub data Call {ℓ} (A : Type ℓ) : Type ℓ where
  returns : A → Call A
  throws : Call A

infixl 5 ◌>>=◌
abbrev pub ◌>>=◌ {ℓ κ} : {A : Type ℓ} {B : Type κ} → Call A → (A → Call B) → Call B
returns a >>= f = f a
throws >>= f = throws

pub Call-cases {ℓ} : {A : Type ℓ} (c : Call A) → (c ≡ throws) ⊎ ((a : A) × (c ≡ returns a))
Call-cases throws = inl refl
Call-cases (returns a) = inr (a, refl)

pub record PaymentGateway : Type 0 where
  pub prepare : Post → String → Call PreparedPayment
  pub submit : PreparedPayment → String → Call PaymentSubmission
  pub status : String → Call PaymentSubmission
  -- `verifyPurchase(transactionId, buyer, creator, amountSompi, postId, mediaDigest)`
  pub verify_purchase : String → String → String → String → String → String → Call Bool

-- `status` is optional in the source.
pub record MembershipGateway : Type 0 where
  pub status : Option (String → Call PaymentSubmission)

pub record MembershipVerifier : Type 0 where
  -- `findMembership(owner, creator, expectedCovenantId)`
  pub find_membership : String → String → Option String → Call (Option MembershipCheck)
  -- `verifyUtxo(transactionId, outputIndex, expectedOwner, expectedCovenantId, expectedCreator)`
  pub verify_utxo : String → ℕ → String → String → String → Call MembershipCheck
