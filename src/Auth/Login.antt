-- ===== src/Auth/Login.antt =====
-- backend/src/application/auth-use-cases.ts: when a login succeeds, and that a challenge serves one
-- attempt.
use onlykas.Prelude.{
  ltb, if◌then◌else◌, ℕ, ◌+◌, ◌<◌, String, ◌≡◌, refl, true, none, some, List, ◌∷◌, arith, eq_iff,
  ◌↔◌, ◌⊎◌, inl, inr, Bool-cases, Option-cases,
}
use onlykas.Prelude.Lists.{All}
use onlykas.Map.{get}
use onlykas.Map.Laws.{get-set}
use onlykas.Domain.{Challenge, Session}
use onlykas.Ports.{returns, Call-cases}
use onlykas.Store.{Store}
use onlykas.Store.Auth.{create_challenge, consume_challenge, create_session, get_session}
use onlykas.Store.Keys.{IsKeyed}
use onlykas.Store.Replay.{Reissues, consume_challenge_once, consume_challenge_iff}
use onlykas.Store.Op.{Op, apply, run}
use onlykas.Auth.{
  WalletVerifier, IssueChallengeInput, AuthenticateInput, verification_failed, created,
  issue_challenge, challenge_message, matches_input, authenticate,
}

-- The challenge is for the wallet, the origin and the network of the attempt.
abbrev pub IsFor : Challenge → AuthenticateInput → Type 0
IsFor c input =
    (c.address ≡ input.address) × (c.origin ≡ input.origin) × (c.network ≡ input.network)

matches_input_iff :
    (c : Challenge) (input : AuthenticateInput) → (matches_input c input ≡ true) ↔ IsFor c input
unfolding matches_input
matches_input_iff c input = ground (
  arith,
  eq_iff c.address input.address,
  eq_iff c.origin input.origin,
  eq_iff c.network input.network,
)

abbrev pub session_for : AuthenticateInput → ℕ → String → ℕ → Session
session_for input later id ttl = record {
  id = id;
  address = input.address;
  expires_at = later + ttl;
}

module _ (verify : WalletVerifier) (input : AuthenticateInput) (now later : ℕ) (id : String)
    (ttl : ℕ) (s : Store) where
  consumed-created :
      (c : Challenge) (x : Session)
      → (consume_challenge input.challenge_id now s).0 ≡ some c
      → ((authenticate verify input now later id ttl s).0 ≡ returns (created x)) ↔ (
          IsFor c input
          × (verify c.message input.signature input.public_key input.address ≡ returns true)
          × (x ≡ session_for input later id ttl))
  unfolding authenticate
  consumed-created c x e = rw (e, authenticate) (ground (arith, matches_input_iff c input))

  unconsumed-failed :
      (consume_challenge input.challenge_id now s).0 ≡ none
      → (authenticate verify input now later id ttl s).0 ≡ returns verification_failed
  unfolding authenticate
  unconsumed-failed e = rw (e, authenticate) refl

  -- An attempt changes the store by the consumption, and by the session that it may create.
  store-authenticate :
      let s' = (consume_challenge input.challenge_id now s).1 in
      ((authenticate verify input now later id ttl s).1 ≡ s')
      ⊎ ((authenticate verify input now later id ttl s).1
          ≡ create_session (session_for input later id ttl) s')
  unfolding authenticate
  store-authenticate = elim (Option-cases (consume_challenge input.challenge_id now s).0) [
    | inl e ↦ inl (rw (e, authenticate) refl)
    | inr (c, e) ↦ elim (Bool-cases (matches_input c input)) [
      | inl fits ↦
          elim (Call-cases (verify c.message input.signature input.public_key input.address)) [
            | inl thrown ↦ inl (rw (e, authenticate) (rw (fits, thrown) refl))
            | inr (b, answered) ↦ elim (Bool-cases b) [
              | inl t ↦ inr (rw (e, authenticate) (rw (fits, answered) (rw t refl)))
              | inr f ↦ inl (rw (e, authenticate) (rw (fits, answered) (rw f refl)))
            ]
          ]
      | inr other ↦ inl (rw (e, authenticate) (rw other refl))
    ]
  ]

  -- The stored challenge that the attempt names is unused, unexpired, for this attempt and signed.
  abbrev pub Qualifies : Challenge → Type 0
  Qualifies c =
      (get input.challenge_id s.challenges ≡ some c)
      × (c.consumed_at ≡ none)
      × (now < c.expires_at)
      × IsFor c input
      × (verify c.message input.signature input.public_key input.address ≡ returns true)

  marked : Challenge → Challenge
  marked c = record c { consumed_at = some now }

  created-Qualifies :
      (x : Session)
      → (authenticate verify input now later id ttl s).0 ≡ returns (created x)
      → (c : Challenge) × Qualifies c × (x ≡ session_for input later id ttl)
  created-Qualifies x h = elim (Option-cases (consume_challenge input.challenge_id now s).0) [
    | inl e ↦ absurd (cc (unconsumed-failed e))
    | inr (v, e) ↦
        let (c, stored, fresh, early, same) =
          (consume_challenge_iff input.challenge_id now s v).0 e in
        let (fits, signed, new) = (consumed-created v x e).0 h in
        (c, (stored, fresh, early, ground arith, ground arith), new)
  ]

  Qualifies-created :
      (c : Challenge)
      → Qualifies c
      → (authenticate verify input now later id ttl s).0
        ≡ returns (created (session_for input later id ttl))
  Qualifies-created c (stored, fresh, early, fits, signed) =
      let v : Challenge = record c { consumed_at = some now } in
      (consumed-created v (session_for input later id ttl)
          ((consume_challenge_iff input.challenge_id now s v).1 (c, stored, fresh, early, refl))).1
        (fits, signed, refl)

  created-stored :
      (x : Session) (t : ℕ)
      → (authenticate verify input now later id ttl s).0 ≡ returns (created x)
      → get_session id t (authenticate verify input now later id ttl s).1
        ≡ (if ltb t (later + ttl) then some x else none)
  unfolding authenticate create_session get_session
  created-stored x t h =
      let s' = (consume_challenge input.challenge_id now s).1 in
      ground (arith, eq_iff id id, get-set id id (session_for input later id ttl) s'.sessions)

  -- A login succeeds exactly if the named challenge is stored, unused and unexpired, was issued for the
  -- wallet, the origin and the network of the attempt, and the wallet's signature of the challenge's
  -- message checks. The session is the attempt's wallet's and expires after the time to live, and
  -- `getSession` finds it until then and not from then on.
  pub authenticate_iff :
      (x : Session) (t : ℕ)
      → ((authenticate verify input now later id ttl s).0 ≡ returns (created x)) ↔ (
          (c : Challenge) × Qualifies c
          × (x ≡ session_for input later id ttl)
          × (get_session id t (authenticate verify input now later id ttl s).1
              ≡ (if ltb t (later + ttl) then some x else none)))
  authenticate_iff x t = (
    λ h. let (c, q, e) = created-Qualifies x h in (c, q, e, created-stored x t h),
    λ (c, q, e, found). rw e (Qualifies-created c q),
  )

-- In a store whose maps are keyed by their values: once an attempt has consumed a challenge, whether it
-- succeeded or not, every later attempt that names the challenge fails, whoever makes it and whatever
-- the signature check says, after any calls of the store of which none creates a challenge of that id.
pub authenticate_once :
    (verify verify' : WalletVerifier) (input again : AuthenticateInput) (now later now' later' : ℕ)
    (id id' : String) (ttl : ℕ) (ops : List Op) (s : Store) (c : Challenge)
    → IsKeyed s
    → (consume_challenge input.challenge_id now s).0 ≡ some c
    → again.challenge_id ≡ input.challenge_id
    → All (λ op. ¬ (Reissues input.challenge_id op)) ops
    → (authenticate verify' again now' later' id' ttl
        (run ops (authenticate verify input now later id ttl s).1)).0
      ≡ returns verification_failed
authenticate_once verify verify' input again now later now' later' id id' ttl ops s c k e same
      fresh =
    unconsumed-failed verify' again now' later' id' ttl
      (run ops (authenticate verify input now later id ttl s).1)
      (rw same (elim (store-authenticate verify input now later id ttl s) [
        | inl e' ↦ rw e' (consume_challenge_once input.challenge_id now now' ops s c k e fresh)
        | inr e' ↦ rw e' (
            unfold run apply in
            consume_challenge_once input.challenge_id now now'
              (Op.create_session (session_for input later id ttl) ∷ ops) s c k e ((λ h. h), fresh))
      ]))

-- A challenge that was just issued lets its wallet log in: an attempt that names it, for the same
-- wallet, origin and network, before it expires and with a signature of its message that checks,
-- creates the session.
pub login_after_issue :
    (verify : WalletVerifier) (request : IssueChallengeInput) (issued_at : ℕ)
    (nonce challenge_id public_key signature : String) (challenge_ttl now later : ℕ) (id : String)
    (ttl : ℕ) (s : Store)
    → now < issued_at + challenge_ttl
    → verify (challenge_message request nonce) signature public_key request.address ≡ returns true
    → let input : AuthenticateInput = record {
      challenge_id = challenge_id;
      address = request.address;
      public_key = public_key;
      signature = signature;
      origin = request.origin;
      network = request.network;
    } in
      (authenticate verify input now later id ttl
        (issue_challenge request issued_at nonce challenge_id challenge_ttl s).1).0
      ≡ returns (created (session_for input later id ttl))
unfolding issue_challenge create_challenge
login_after_issue verify request issued_at nonce challenge_id public_key signature challenge_ttl now
      later id ttl s early signed =
    let input : AuthenticateInput = record {
      challenge_id = challenge_id;
      address = request.address;
      public_key = public_key;
      signature = signature;
      origin = request.origin;
      network = request.network;
    } in
    let c : Challenge = record {
      id = challenge_id;
      nonce = nonce;
      address = request.address;
      origin = request.origin;
      network = request.network;
      message = challenge_message request nonce;
      expires_at = issued_at + challenge_ttl;
      consumed_at = none;
    } in
    Qualifies-created verify input now later id ttl
      (issue_challenge request issued_at nonce challenge_id challenge_ttl s).1 c
      (
        ground (
          arith,
          eq_iff challenge_id challenge_id,
          get-set challenge_id challenge_id c s.challenges,
        ),
        refl,
        early,
        (refl, refl, refl),
        signed,
      )
