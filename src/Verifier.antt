-- ===== src/Verifier.antt =====
-- backend/src/verifier.ts: `KaspaMembershipVerifier`. The answers of the node's REST interface are the
-- record `Node`, and the functions of backend/src/membership-contract.ts, which read and write scripts
-- of the covenant with the Kaspa SDK, the record `Contract`.
pub mod Head
pub mod Sound
pub mod Find
pub mod Answers
pub mod Complete
pub mod OnChain
use onlykas.Prelude.Int.{ℤ, pos, pos_part, neg_part, sub_ℕ, leb_ℤ, ltb_ℤ}
use onlykas.Prelude.{
  ◌+◌, ◌*◌, ℕ, zero, suc, ◌<◌, String, Bool, true, false, not, ◌&&◌, ◌||◌, Option, none, some, List,
  [], ◌∷◌, leb, ltb, eqb, ◌==◌, is_some, or_else, get_or, if◌then◌else◌,
}
use Prim.Native.String.{◌++◌}
use onlykas.Prelude.Lists.{any, keep}
use onlykas.Price.{Text, codes}
use onlykas.Domain.{
  MembershipCheck, MembershipCheckStatus, TokenKind, valid, expired, owner_mismatch, not_membership,
}
use onlykas.Ports.{Call, returns, throws, ◌>>=◌, MembershipVerifier}

-- `amount` is the number that `bigintOrNull` reads.
pub record VerifierUtxo : Type 0 where
  pub transaction_id : String
  pub index : ℕ
  pub amount : Option ℕ

-- A script is a text, or an object with one of two sets of fields.
pub data ScriptField : Type 0 where
  plain : String → ScriptField
  with_script : Option String → ScriptField
  with_key : (script_public_key script_public_key_camel : Option String) → ScriptField

-- The fields that occur in two spellings have both.
pub record ChainCovenant : Type 0 where
  pub covenant_id : Option String
  pub covenant_id_camel : Option String
  pub authorizing_input : Option ℕ
  pub authorizing_input_camel : Option ℕ

pub record ChainOutput : Type 0 where
  pub script_public_key : Option ScriptField
  pub script_public_key_camel : Option ScriptField
  pub covenant_id : Option String
  pub covenant_id_camel : Option String
  pub covenant_authorizing_input : Option ℕ
  pub authorizing_input : Option ℕ
  pub covenant : Option ChainCovenant

pub record ChainTransaction : Type 0 where
  pub version : Option ℕ
  pub is_accepted : Option Bool
  pub payload : Option String
  pub outputs : Option (List ChainOutput)

pub record MembershipState : Type 0 where
  pub creator : String
  pub platform : String
  pub owner : String
  pub expires_at_daa : ℤ
  pub price_sompi : ℤ
  pub is_minter : Bool

pub record MembershipMetadata : Type 0 where
  pub platform_address : String
  pub membership_output_index : ℕ
  pub created_at_daa : ℤ
  pub expires_at_daa : ℤ

-- The fields that have one value, `protocol` and `tokenType`, are left out.
pub record MembershipPayload : Type 0 where
  pub version : ℕ
  pub member_redeem_script : String
  pub metadata : MembershipMetadata

-- `parseMembershipPayloadDetails`, `decodeMembershipRedeemScript`, `membershipScript`,
-- `membershipAddress`, `addressPublicKey` and `keyAddress`, for one network. A state that is read can
-- hold -1 for a number with the sign bit, and its script cannot be written: `INVALID_DAA`.
pub record Contract : Type 0 where
  pub parse_payload : Option String → Option MembershipPayload
  pub decode : String → Option MembershipState
  pub script : MembershipState → Call String
  pub address : MembershipState → Call String
  pub public_key : String → Call String
  pub key_address : String → Option String

-- `now` is the time of `Date.now()` in milliseconds.
pub record Node : Type 0 where
  pub now : ℕ
  pub transaction : String → Call ChainTransaction
  pub current_daa : Call ℕ
  pub utxos : String → Call (List VerifierUtxo)

abbrev pub max_date : ℕ
max_date = 8_640_000_000_000_000

abbrev pub membership_index_value : ℕ
membership_index_value = 50_000_000

abbrev covenant_field : (ChainCovenant → Option String) → Option ChainCovenant → Option String
covenant_field f none = none
covenant_field f (some c) = f c

abbrev input_field : (ChainCovenant → Option ℕ) → Option ChainCovenant → Option ℕ
input_field f none = none
input_field f (some c) = f c

unfoldable pub output_covenant_id : Option ChainOutput → Option String
output_covenant_id none = none
output_covenant_id (some o) = or_else o.covenant_id (
    or_else o.covenant_id_camel (
      or_else (covenant_field (λ c. c.covenant_id) o.covenant)
        (covenant_field (λ c. c.covenant_id_camel) o.covenant)))

unfoldable pub output_authorizing_input : ChainOutput → Option ℕ
output_authorizing_input o = or_else o.covenant_authorizing_input (
    or_else o.authorizing_input (
      or_else (input_field (λ c. c.authorizing_input) o.covenant)
        (input_field (λ c. c.authorizing_input_camel) o.covenant)))

-- `startsWith`
unfoldable pub is_prefix : Text → Text → Bool
is_prefix [] t = true
is_prefix (c ∷ p) [] = false
is_prefix (c ∷ p) (d ∷ t) = let rest = is_prefix p t in eqb c d && rest

unfoldable pub with_version : String → String
with_version script = if is_prefix (codes "0000") (codes script) then script else "0000" ++ script

unfoldable pub output_script : ChainOutput → Option String
output_script o = elim (or_else o.script_public_key o.script_public_key_camel) [
  | none ↦ none
  | some field ↦ elim field [
    | plain script ↦ some (with_version script)
    | with_script script ↦ some (with_version (get_or script ""))
    | with_key a b ↦ some (with_version (get_or (or_else a b) ""))
  ]
]

-- `outputs?.[index]`
unfoldable pub output_at : ℕ → List ChainOutput → Option ChainOutput
output_at n [] = none
output_at zero (o ∷ os) = some o
output_at (suc n) (o ∷ os) = output_at n os

abbrev pub find_output : ChainTransaction → ℕ → Option ChainOutput
find_output t index = elim t.outputs [ none ↦ none | some os ↦ output_at index os ]

abbrev pub equals : Option String → String → Bool
equals none v = false
equals (some w) v = w == v

abbrev pub is_number : Option ℕ → ℕ → Bool
is_number none n = false
is_number (some m) n = eqb m n

-- `expected !== undefined && covenantId !== expected` does not hold.
abbrev pub matches : Option String → String → Bool
matches none id = true
matches (some expected) id = id == expected

-- What the tests at the head of `checkMemberOutput` read.
pub record Token : Type 0 where
  pub covenant_id : String
  pub payload : MembershipPayload
  pub state : MembershipState

module _ (contract : Contract) where
  -- The tests that stand before `membershipScript(state)`.
  unfoldable pub token_head : ℕ → ChainTransaction → String → MembershipState → Bool
  token_head index t id state =
      get_or t.is_accepted false
      && is_number t.version 1
      && eqb index 1
      && not (id == "")
      && not state.is_minter

  -- That of the script, and those that stand after it.
  unfoldable pub token_tail : ChainOutput → Option String → String → String → Bool
  token_tail output expected id script =
      equals (output_script output) script
      && is_number (output_authorizing_input output) 0
      && matches expected id

  unfoldable pub read_token :
      ℕ → ChainTransaction → Option String → ChainOutput → Token → Call (Option Token)
  read_token index t expected output k =
      if token_head index t k.covenant_id k.state
      then (contract.script k.state >>= λ script.
          returns (if token_tail output expected k.covenant_id script then some k else none))
      else returns none

  -- The tests at the head of `checkMemberOutput`: the output is a member token of the contract.
  unfoldable pub member_token : ℕ → ChainTransaction → Option String → Call (Option Token)
  member_token index t expected = elim (find_output t index) [
    | none ↦ returns none
    | some output ↦ elim (output_covenant_id (some output)) [
      | none ↦ returns none
      | some id ↦ elim (contract.parse_payload t.payload) [
        | none ↦ returns none
        | some payload ↦ elim (contract.decode payload.member_redeem_script) [
          | none ↦ returns none
          | some state ↦
              read_token index t expected output
                (record { covenant_id = id; payload = payload; state = state })
        ]
      ]
    ]
  ]

  unfoldable pub not_member : String → ℕ → Option String → MembershipCheck
  not_member id index covenant = record {
    transaction_id = id;
    output_index = index;
    covenant_id = covenant;
    kind = TokenKind.absent;
    owner = none;
    content_creator = none;
    platform_address = none;
    created_at_daa = none;
    expires_at_daa = none;
    created_at = none;
    valid_until = none;
    status = not_membership;
  }

  -- A name that is given, or the address of a key; an empty address counts as none.
  abbrev pub named : Option String → String → Option String
  named expected key = elim (or_else expected (contract.key_address key)) [
    | none ↦ none
    | some name ↦ if name == "" then none else some name
  ]

  module _ (node : Node) where
    unfoldable pub is_unspent : String → String → ℕ → Call Bool
    is_unspent address id index = do
      utxos ← node.utxos address
      returns (any (λ u. (u.transaction_id == id) && eqb u.index index) utxos)

    -- `new Date(now() + Number(score - currentDaa) * DAA_MILLISECONDS)`, which is no date beyond 8.64e15
    -- milliseconds on either side; `toISOString` then throws. `Number` rounds beyond 2 ^ 53 only, where
    -- the sum is no date, for a clock before 2 ^ 53 - 8.64e15.
    unfoldable pub estimate : ℕ → ℤ → Call ℤ
    estimate daa score =
        let time = sub_ℕ (node.now + 100 * pos_part score) (100 * (daa + neg_part score)) in
        if leb_ℤ (sub_ℕ 0 max_date) time && leb_ℤ time (pos max_date) then returns time else throws

    unfoldable pub membership :
        String
        → ℕ
        → Token
        → ℕ
        → String
        → String
        → String
        → MembershipCheckStatus
        → Call MembershipCheck
    membership id index k daa owner creator platform status = do
      created ← estimate daa k.payload.metadata.created_at_daa
      until ← estimate daa k.state.expires_at_daa
      returns (record {
        transaction_id = id;
        output_index = index;
        covenant_id = some k.covenant_id;
        kind = TokenKind.token;
        owner = some owner;
        content_creator = some creator;
        platform_address = some platform;
        created_at_daa = some k.payload.metadata.created_at_daa;
        expires_at_daa = some k.state.expires_at_daa;
        created_at = some created;
        valid_until = some until;
        status = status;
      })

    -- The tests of the keys, of the outputs that are left, and of the time.
    unfoldable pub check_token :
        String → ℕ → Token → ℕ → String → String → String → Call MembershipCheck
    check_token id index k daa owner creator platform = contract.public_key owner >>= λ owner_key.
        if not (k.state.owner == owner_key)
        then membership id index k daa owner creator platform owner_mismatch
        else contract.public_key creator >>= λ creator_key.
            if not (k.state.creator == creator_key)
            then returns (not_member id index (some k.covenant_id))
            else contract.address k.state >>= λ address. is_unspent address id index >>= λ unspent.
                if not unspent
                then returns (not_member id index (some k.covenant_id))
                else membership id index k daa owner creator platform
                    (if ltb_ℤ (pos daa) k.state.expires_at_daa then valid else expired)

    unfoldable pub check_member_output :
        String
        → ℕ
        → ChainTransaction
        → ℕ
        → (owner covenant creator : Option String) → Call MembershipCheck
    check_member_output id index t daa expected_owner expected_covenant expected_creator =
        let covenant = output_covenant_id (find_output t index) in
        member_token index t expected_covenant >>= λ token. elim token [
          | none ↦ returns (not_member id index covenant)
          | some k ↦ elim (named expected_owner k.state.owner) [
            | none ↦ returns (not_member id index covenant)
            | some owner ↦ elim (named expected_creator k.state.creator) [
              | none ↦ returns (not_member id index covenant)
              | some creator ↦ elim (named none k.state.platform) [
                | none ↦ returns (not_member id index covenant)
                | some platform ↦ check_token id index k daa owner creator platform
              ]
            ]
          ]
        ]

    unfoldable pub verify_utxo :
        String → ℕ → (owner covenant creator : Option String) → Call MembershipCheck
    verify_utxo id index owner covenant creator = do
      t ← node.transaction id
      daa ← node.current_daa
      check_member_output id index t daa owner covenant creator

    abbrev pub is_pointer : VerifierUtxo → Bool
    is_pointer u = is_number u.amount membership_index_value

    -- The loop of `findMembership`.
    unfoldable pub find_among :
        List VerifierUtxo
        → ℕ
        → (owner creator : String) → Option String
        → Call (Option MembershipCheck)
    find_among [] daa owner creator covenant = returns none
    find_among (u ∷ us) daa owner creator covenant =
        let rest = find_among us daa owner creator covenant in
        do
          t ← node.transaction u.transaction_id
          check ← check_member_output u.transaction_id 1 t daa (some owner) covenant (some creator)
          elim check.status [ valid ↦ returns (some check) | _ ↦ rest ]

    unfoldable pub find_membership :
        (owner creator : String) → Option String → Call (Option MembershipCheck)
    find_membership owner creator covenant = do
      utxos ← node.utxos owner
      daa ← node.current_daa
      find_among (keep is_pointer utxos) daa owner creator covenant

    -- The checks of `verifyAddress`, in the order of the outputs.
    unfoldable pub check_each :
        List VerifierUtxo
        → ℕ
        → (owner : String) → (covenant creator : Option String) → Call (List MembershipCheck)
    check_each [] daa owner covenant creator = returns []
    check_each (u ∷ us) daa owner covenant creator =
        let rest = check_each us daa owner covenant creator in
        do
          t ← node.transaction u.transaction_id
          check ← check_member_output u.transaction_id 1 t daa (some owner) covenant creator
          checks ← rest
          returns (check ∷ checks)

    unfoldable pub verify_address :
        String → (owner covenant creator : Option String) → Call (List MembershipCheck)
    verify_address address owner covenant creator = do
      utxos ← node.utxos address
      daa ← node.current_daa
      check_each (keep is_pointer utxos) daa (get_or owner address) covenant creator

    -- The verifier that the use cases are given.
    unfoldable pub chain_verifier : MembershipVerifier
    chain_verifier = record {
      find_membership = find_membership;
      verify_utxo = λ id index owner covenant creator.
          verify_utxo id index (some owner) (some covenant) (some creator);
    }
