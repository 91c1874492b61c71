-- ===== src/Membership.antt =====
-- backend/src/app.ts, the routes that prepare memberships: `/api/membership/offers/prepare`,
-- `/api/membership/cancel/prepare`, `/api/membership/price/prepare` and
-- `/api/membership/:creator/prepare`, over the in-memory store. The address of the signed-in wallet,
-- the fresh id, the clock and the gateway's answers are arguments; metrics and logs are left out. The
-- routes that finalize are in `Membership.Finalize`.
pub mod Finalize
pub mod Prepared
pub mod Settle
pub mod Outcomes
pub mod Offers
use Prim.Native.Char.{Char}
use Prim.Native.String
use onlykas.Prelude.{
  ℕ, ◌+◌, String, Bool, not, Option, none, some, List, [], ◌∷◌, ◌==◌, eqb, if◌then◌else◌,
}
use onlykas.Price.{
  Text, codes, digits, MembershipPriceProblem, membership_price_problem, parse_membership_price,
}
use onlykas.Domain.{CreatorCovenant, MembershipKind, PreparedMembershipRecord, PaymentSubmission}
use onlykas.Checkout.{prepared_ttl}
use onlykas.Store.{Store}
use onlykas.Store.Covenants.{get_creator_covenant}
use onlykas.Store.Memberships.{save_prepared_membership, prune_prepared_memberships}

pub record PreparedMembershipTransaction : Type 0 where
  pub transaction : String
  pub fingerprint : String
  pub covenant_id : String
  pub sign_inputs : List ℕ
  pub member_output_index : Option ℕ
  pub price_sompi : Option String

-- A call of the gateway returns, or throws one of the two errors that the routes know, or another.
pub data Attempt {ℓ} (A : Type ℓ) : Type ℓ where
  succeeds : A → Attempt A
  state_changed lacks_funds fails : Attempt A

-- The methods of `MembershipGateway` that make and submit transactions.
pub record MembershipTransactions : Type 0 where
  -- `prepareOffer(creator, priceSompi)`
  pub prepare_offer : String → String → Attempt PreparedMembershipTransaction
  -- `prepareMint(creator, buyer, covenantId, priceSompi)`
  pub prepare_mint : String → String → String → String → Attempt PreparedMembershipTransaction
  -- `preparePriceUpdate(creator, covenantId, currentPriceSompi, newPriceSompi)`
  pub prepare_price_update :
      String → String → String → String → Attempt PreparedMembershipTransaction
  -- `prepareCancellation(creator, covenantId, priceSompi)`
  pub prepare_cancellation : String → String → String → Attempt PreparedMembershipTransaction
  pub submit : PreparedMembershipRecord → String → Attempt PaymentSubmission

-- The character of a decimal digit.
unfoldable pub digit_char : ℕ → Char
digit_char c =
    if eqb c 48
    then "0"
    else if eqb c 49
    then "1"
    else if eqb c 50
    then "2"
    else if eqb c 51
    then "3"
    else if eqb c 52
    then "4"
    else if eqb c 53
    then "5"
    else if eqb c 54
    then "6"
    else if eqb c 55
    then "7"
    else if eqb c 56
    then "8"
    else "9"

-- `priceSompi.toString()`, of its digits.
unfoldable pub decimal_text : Text → String
unfolding digit_char
decimal_text [] = String.[]
decimal_text (c ∷ t) = String.◌∷◌ (digit_char c) (decimal_text t)

pub data PrepareAnswer : Type 0 where
  unavailable offer_exists offer_not_found invalid_address creator_cannot_subscribe stale
        insufficient_funds failed :
      PrepareAnswer
  invalid_price : MembershipPriceProblem → PrepareAnswer
  prepared : String → PreparedMembershipTransaction → PrepareAnswer

-- What is stored of a prepared membership.
abbrev pub prepared_record :
    String
    → MembershipKind
    → String
    → String
    → ℕ
    → PreparedMembershipTransaction
    → PreparedMembershipRecord
prepared_record id kind creator buyer saved_at value = record {
  id = id;
  transaction = value.transaction;
  fingerprint = value.fingerprint;
  covenant_id = value.covenant_id;
  sign_inputs = value.sign_inputs;
  member_output_index = value.member_output_index;
  creator = creator;
  buyer = buyer;
  kind = kind;
  expires_at = saved_at + prepared_ttl;
  price_sompi = value.price_sompi;
}

-- The end of the four routes, by what the gateway answers; `pruned_at` and `saved_at` are two readings
-- of the clock.
unfoldable pub keep_prepared :
    String
    → MembershipKind
    → String
    → String
    → ℕ
    → ℕ
    → Attempt PreparedMembershipTransaction
    → Store
    → PrepareAnswer × Store
keep_prepared id kind creator buyer pruned_at saved_at attempt s = elim attempt [
  | state_changed ↦ (stale, s)
  | lacks_funds ↦ (insufficient_funds, s)
  | fails ↦ (failed, s)
  | succeeds value ↦ (
    prepared id value,
    save_prepared_membership (prepared_record id kind creator buyer saved_at value)
        (prune_prepared_memberships pruned_at s),
  )
]

module _ (id : String) (pruned_at saved_at : ℕ) where
  unfoldable pub offer_prepare :
      Option MembershipTransactions
      → (creator : String) (price : Text) → Store
      → PrepareAnswer × Store
  offer_prepare none creator price s = (unavailable, s)
  offer_prepare (some gateway) creator price s = elim (membership_price_problem price) [
    | some problem ↦ (invalid_price problem, s)
    | none ↦ elim (parse_membership_price price) [
      | none ↦ (failed, s)
      | some sompi ↦ elim (get_creator_covenant creator s) [
        | some _ ↦ (offer_exists, s)
        | none ↦
            keep_prepared id MembershipKind.offer creator creator pruned_at saved_at
              (gateway.prepare_offer creator (decimal_text (digits sompi))) s
      ]
    ]
  ]

  unfoldable pub cancel_prepare :
      Option MembershipTransactions → (creator : String) → Store → PrepareAnswer × Store
  cancel_prepare none creator s = (unavailable, s)
  cancel_prepare (some gateway) creator s = elim (get_creator_covenant creator s) [
    | none ↦ (offer_not_found, s)
    | some mapping ↦
        keep_prepared id MembershipKind.cancel creator creator pruned_at saved_at
          (gateway.prepare_cancellation creator mapping.covenant_id mapping.price_sompi) s
  ]

  unfoldable pub price_prepare :
      Option MembershipTransactions
      → (creator : String) (price : Text) → Store
      → PrepareAnswer × Store
  price_prepare none creator price s = (unavailable, s)
  price_prepare (some gateway) creator price s = elim (membership_price_problem price) [
    | some problem ↦ (invalid_price problem, s)
    | none ↦ elim (parse_membership_price price) [
      | none ↦ (failed, s)
      | some sompi ↦ elim (get_creator_covenant creator s) [
        | none ↦ (offer_not_found, s)
        | some mapping ↦
            keep_prepared id MembershipKind.update creator creator pruned_at saved_at
              (gateway.prepare_price_update creator mapping.covenant_id mapping.price_sompi
                (decimal_text (digits sompi)))
              s
      ]
    ]
  ]

  -- `is_address` is the test `addressPattern.test(creator)`.
  unfoldable pub purchase_prepare :
      Option MembershipTransactions
      → (is_address : String → Bool) (creator buyer : String) → Store
      → PrepareAnswer × Store
  purchase_prepare none is_address creator buyer s = (unavailable, s)
  purchase_prepare (some gateway) is_address creator buyer s =
      if not (is_address creator)
      then (invalid_address, s)
      else if buyer == creator
      then (creator_cannot_subscribe, s)
      else elim (get_creator_covenant creator s) [
        | none ↦ (offer_not_found, s)
        | some mapping ↦
            keep_prepared id MembershipKind.purchase creator buyer pruned_at saved_at
              (gateway.prepare_mint creator buyer mapping.covenant_id mapping.price_sompi) s
      ]
