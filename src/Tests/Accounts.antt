-- ===== src/Tests/Accounts.antt =====
-- Challenges, sessions and profiles at concrete inputs.
use onlykas.Prelude.{
  ltb, if◌then◌else◌, ◌+◌, String, ◌≡◌, ◌↔◌, refl, true, Option, none, some, [], ◌∷◌, ◌<◌,
}
use onlykas.Domain.{Challenge}
use onlykas.Map.{get}
use onlykas.Ports.{returns}
use onlykas.Store.Op.{Op, run}
use onlykas.Store.Auth.{consume_challenge, get_session}
use onlykas.Auth.{
  WalletVerifier, AuthenticateInput, IssueChallengeInput, authenticate, created,
  verification_failed, ProfileUpdateInput,
}
use onlykas.Auth.Login.{authenticate_iff, authenticate_once, session_for}
use onlykas.Tests.Fixtures.{shop, shop-IsKeyed, challenge}

abbrev honest : WalletVerifier
honest = λ message signature key address. returns true

abbrev attempt : AuthenticateInput
attempt = record {
  challenge_id = "c1";
  address = "bob";
  public_key = "k";
  signature = "z";
  origin = "https://only.kas";
  network = "testnet-10";
}

abbrev used : Challenge
used = record challenge { consumed_at = some 20 }

found : (consume_challenge "c1" 20 shop).0 ≡ some used
unfolding consume_challenge get
found = refl

authenticate_iff_example :
    ((authenticate honest attempt 20 21 "s2" 30 shop).0
      ≡ returns (created (session_for attempt 21 "s2" 30)))
    ↔ ((c : Challenge) × ((get "c1" shop.challenges ≡ some c)
          × (c.consumed_at ≡ none)
          × (20 < c.expires_at)
          × ((c.address ≡ "bob") × (c.origin ≡ "https://only.kas") × (c.network ≡ "testnet-10"))
          × (honest c.message "z" "k" "bob" ≡ returns true))
        × (session_for attempt 21 "s2" 30 ≡ session_for attempt 21 "s2" 30)
        × (get_session "s2" 40 (authenticate honest attempt 20 21 "s2" 30 shop).1
            ≡ (if ltb 40 (21 + 30) then some (session_for attempt 21 "s2" 30) else none)))
authenticate_iff_example =
    authenticate_iff honest attempt 20 21 "s2" 30 shop (session_for attempt 21 "s2" 30) 40

authenticate_once_example :
    (authenticate honest attempt 22 23 "s3" 30
      (run (Op.prune_sessions 22 ∷ []) (authenticate honest attempt 20 21 "s2" 30 shop).1)).0
    ≡ returns verification_failed
authenticate_once_example =
    authenticate_once honest honest attempt attempt 20 21 22 23 "s2" "s3" 30
      (Op.prune_sessions 22 ∷ []) shop used shop-IsKeyed found refl (λ x. x, tt)

abbrev request : IssueChallengeInput
request = record { address = "bob"; origin = "o"; network = "mainnet"; prompt = "Sign in" }

abbrev unchecked : String → Option String
unchecked name = none

abbrev rename : ProfileUpdateInput
rename = record { address = "alice"; display_name = some "Al"; is_public = none; now = 70 }
