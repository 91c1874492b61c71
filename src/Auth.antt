-- ===== src/Auth.antt =====
-- backend/src/application/auth-use-cases.ts over the in-memory store: challenges, sessions and
-- profiles. The clock, the fresh ids and nonces, the wallet's signature check and the two functions on
-- display names are arguments, as the source takes them from its dependencies.
pub mod Login
pub mod Profiles
use Prim.Native.String.{◌++◌}
use onlykas.Prelude.{
  ℕ, ◌+◌, String, Bool, true, false, not, ◌&&◌, ◌||◌, Option, none, some, ◌==◌, is_some, get_or,
  or_else, if◌then◌else◌,
}
use onlykas.Domain.{Challenge, Session, Profile}
use onlykas.Ports.{Call, returns, throws}
use onlykas.Store.{Store}
use onlykas.Store.Auth.{
  create_challenge, consume_challenge, create_session, get_session, roll_session, delete_session,
  get_profile, save_profile,
}

pub record IssueChallengeInput : Type 0 where
  pub address : String
  pub origin : String
  pub network : String
  pub prompt : String

pub record AuthenticateInput : Type 0 where
  pub challenge_id : String
  pub address : String
  pub public_key : String
  pub signature : String
  pub origin : String
  pub network : String

pub data AuthenticateResult : Type 0 where
  verification_failed : AuthenticateResult
  created : Session → AuthenticateResult

-- `verify(message, signature, publicKey, address)`
abbrev pub WalletVerifier : Type 0
WalletVerifier = String → String → String → String → Call Bool

unfoldable pub challenge_message : IssueChallengeInput → String → String
challenge_message input nonce =
    input.prompt ++ "\n\nWallet: " ++ input.address ++ "\nNetwork: " ++ input.network
    ++ "\nOrigin: " ++ input.origin ++ "\nNonce: " ++ nonce

unfoldable pub issue_challenge :
    IssueChallengeInput → (issued_at : ℕ) (nonce id : String) (ttl : ℕ) → Store → Challenge × Store
issue_challenge input issued_at nonce id ttl s =
    let challenge : Challenge = record {
      id = id;
      nonce = nonce;
      address = input.address;
      origin = input.origin;
      network = input.network;
      message = challenge_message input nonce;
      expires_at = issued_at + ttl;
      consumed_at = none;
    } in
    (challenge, create_challenge challenge s)

-- The tests on a consumed challenge that come before the signature check.
unfoldable pub matches_input : Challenge → AuthenticateInput → Bool
matches_input challenge input =
    challenge.address == input.address
    && challenge.origin == input.origin
    && challenge.network == input.network

-- `now` is the time of the consumption and `later` the time at which the session begins.
unfoldable pub authenticate :
    WalletVerifier
    → AuthenticateInput
    → (now later : ℕ) (id : String) (ttl : ℕ) → Store
    → Call AuthenticateResult × Store
authenticate verify input now later id ttl s =
    let (found, s') = consume_challenge input.challenge_id now s in
    elim found [
      | none ↦ (returns verification_failed, s')
      | some challenge ↦
          if matches_input challenge input
          then elim (verify challenge.message input.signature input.public_key input.address) [
            | throws ↦ (throws, s')
            | returns signed ↦
                let session : Session = record {
                  id = id;
                  address = input.address;
                  expires_at = later + ttl;
                } in
                if signed
                then (returns (created session), create_session session s')
                else (returns verification_failed, s')
          ]
          else (returns verification_failed, s')
    ]

unfoldable pub refresh_session : String → ℕ → ℕ → Store → Option Session × Store
refresh_session id now expires_at s = elim (get_session id now s) [
  | none ↦ (none, s)
  | some session ↦ (some (record session { expires_at = expires_at }), roll_session id expires_at s)
]

unfoldable pub logout : String → Store → Store
logout = delete_session

pub record ProfileUpdateInput : Type 0 where
  pub address : String
  pub display_name : Option String
  pub is_public : Option Bool
  pub now : ℕ

pub data ProfileUpdateResult : Type 0 where
  invalid_display_name : ProfileUpdateResult
  updated : Profile → ProfileUpdateResult

-- `displayName === "" ? null : displayName`
abbrev pub blank_to_null : Option String → Option String
blank_to_null none = none
blank_to_null (some name) = if name == "" then none else some name

abbrev pub stored_name : Option Profile → Option String
stored_name none = none
stored_name (some profile) = profile.display_name

abbrev pub stored_visibility : Option Profile → Option Bool
stored_visibility none = none
stored_visibility (some profile) = some profile.is_public

-- `validated !== null && validated !== displayName`
abbrev pub differs : Option String → Option String → Bool
differs none name = false
differs (some validated) none = true
differs (some validated) (some name) = not (validated == name)

module _ (normalize : String → String) (validate : String → Option String) where
  unfoldable pub next_name : Option String → Option Profile → Option String
  next_name none existing = stored_name existing
  next_name (some name) existing = some (normalize name)

  unfoldable pub update_profile : ProfileUpdateInput → Store → ProfileUpdateResult × Store
  unfolding next_name
  update_profile input s =
      let existing = get_profile input.address s in
      let name = next_name input.display_name existing in
      let profile : Profile = record {
        address = input.address;
        display_name = blank_to_null name;
        is_public = get_or (or_else input.is_public (stored_visibility existing)) true;
        updated_at = input.now;
      } in
      if is_some input.display_name && differs (validate (get_or name "")) name
      then (invalid_display_name, s)
      else (updated profile, save_profile profile s)
