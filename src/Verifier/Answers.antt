-- ===== src/Verifier/Answers.antt =====
-- backend/src/verifier.ts: when `findMembership` throws nothing.
use onlykas.Prelude.Int.{ℤ, pos, ltb_ℤ}
use onlykas.Prelude.{
  ℕ, String, ◌≡◌, refl, Bool, Option, none, some, List, [], ◌∷◌, arith, ◌==◌, inl, inr, Bool-cases,
  Option-cases,
}
use onlykas.Prelude.Lists.{In}
use onlykas.Domain.{MembershipCheckStatus, valid, expired, owner_mismatch}
use onlykas.Ports.{returns, throws, Call-cases}
use onlykas.Verifier.{
  Contract, Node, VerifierUtxo, ChainTransaction, MembershipState, MembershipPayload, Token,
  token_head, read_token, member_token, membership, estimate, is_unspent, check_token,
  check_member_output, named, find_output, output_covenant_id, find_among,
}
use onlykas.Verifier.Head.{member_token-IsToken}
use onlykas.Verifier.Find.{Status-cases}

-- If the payload of the transaction holds a state, the script and the address of the state can be
-- written, and the scores of its beginning and its end are dates.
abbrev pub IsReadable : Contract → Node → ℕ → ChainTransaction → Type 0
IsReadable contract node daa t =
    (p : MembershipPayload) (s : MembershipState)
    → contract.parse_payload t.payload ≡ some p
    → contract.decode p.member_redeem_script ≡ some s
    → ((script : String) × (contract.script s ≡ returns script))
      × ((address : String) × (contract.address s ≡ returns address))
      × ((a : ℤ) × (estimate contract node daa p.metadata.created_at_daa ≡ returns a))
      × ((b : ℤ) × (estimate contract node daa s.expires_at_daa ≡ returns b))

-- The node tells the outputs of every address.
abbrev pub TellsOutputs : Node → Type 0
TellsOutputs node = (a : String) → (us : List VerifierUtxo) × (node.utxos a ≡ returns us)

-- The node tells the transaction of each of the outputs, and it is readable.
abbrev pub AreReadable : Contract → Node → ℕ → List VerifierUtxo → Type 0
AreReadable contract node daa us =
    (u : VerifierUtxo)
    → In u us
    → (t : ChainTransaction) × (node.transaction u.transaction_id ≡ returns t)
      × IsReadable contract node daa t

module _ (contract : Contract) where
  member_token_returns :
      (node : Node) (daa index : ℕ) (t : ChainTransaction) (expected : Option String)
      → IsReadable contract node daa t
      → ¬ (member_token contract index t expected ≡ throws)
  unfolding member_token read_token
  member_token_returns node daa index t expected readable h =
      elim (Option-cases (find_output t index)) [
        | inl e ↦ ground (arith, e, h)
        | inr (output, e) ↦ elim (Option-cases (output_covenant_id (some output))) [
          | inl f ↦ ground (arith, e, f, h)
          | inr (id, f) ↦ elim (Option-cases (contract.parse_payload t.payload)) [
            | inl g ↦ ground (arith, e, f, g, h)
            | inr (payload, g) ↦
                elim (Option-cases (contract.decode payload.member_redeem_script)) [
                  | inl d ↦ ground (arith, e, f, g, d, h)
                  | inr (state, d) ↦
                      let ((script, c), at, created, until) = readable payload state g d in
                      elim (Bool-cases (token_head contract index t id state)) [
                        | inl y ↦ ground (arith, e, f, g, d, c, y, h)
                        | inr y ↦ ground (arith, e, f, g, d, y, h)
                      ]
                ]
          ]
        ]
      ]

  module _ (node : Node) where
    -- The dates and the address of the token.
    module _ (daa : ℕ) (k : Token) (a b : ℤ) (address : String)
        (created : estimate contract node daa k.payload.metadata.created_at_daa ≡ returns a)
        (until : estimate contract node daa k.state.expires_at_daa ≡ returns b)
        (at : contract.address k.state ≡ returns address) where
      membership_returns :
          (id : String) (index : ℕ) (owner creator platform : String)
          (status : MembershipCheckStatus)
          → ¬ (membership contract node id index k daa owner creator platform status ≡ throws)
      unfolding membership
      membership_returns id index owner creator platform status h =
          ground (arith, created, until, h)

      check_token_returns :
          (id : String) (index : ℕ) (owner creator platform owner_key creator_key : String)
          (b : Bool)
          → contract.public_key owner ≡ returns owner_key
          → contract.public_key creator ≡ returns creator_key
          → is_unspent contract node address id index ≡ returns b
          → ¬ (check_token contract node id index k daa owner creator platform ≡ throws)
      unfolding check_token
      check_token_returns id index owner creator platform owner_key creator_key b p q u h =
          let m = membership_returns id index owner creator platform in
          elim (Bool-cases (k.state.owner == owner_key)) [
            | inr s ↦ m owner_mismatch (ground (arith, p, s, h))
            | inl s ↦ elim (Bool-cases (k.state.creator == creator_key)) [
              | inr r ↦ ground (arith, p, q, s, r, h)
              | inl r ↦ elim (Bool-cases b) [
                | inr x ↦ ground (arith, p, q, s, r, at, u, x, h)
                | inl x ↦ elim (Bool-cases (ltb_ℤ (pos daa) k.state.expires_at_daa)) [
                  | inl d ↦ m valid (ground (arith, p, q, s, r, at, u, x, d, h))
                  | inr d ↦ m expired (ground (arith, p, q, s, r, at, u, x, d, h))
                ]
              ]
            ]
          ]

    module _ (telling : TellsOutputs node) where
      is_unspent_answers :
          (address id : String) (index : ℕ)
          → (b : Bool) × (is_unspent contract node address id index ≡ returns b)
      unfolding is_unspent
      is_unspent_answers address id index =
          let (us, e) = telling address in
          elim (Call-cases (is_unspent contract node address id index)) [
            | inl f ↦ absurd (ground (arith, e, f))
            | inr (b, f) ↦ (b, f)
          ]

      -- The keys of the addresses are read.
      module _ (owner creator : String) (owner_key creator_key : String)
          (has_owner : contract.public_key owner ≡ returns owner_key)
          (has_creator : contract.public_key creator ≡ returns creator_key) where
        check_member_output_returns :
            (id : String) (index : ℕ) (t : ChainTransaction) (daa : ℕ) (covenant : Option String)
            → IsReadable contract node daa t
            → ¬ (
                check_member_output contract node id index t daa
                  (some owner)
                  covenant
                  (some creator)
                ≡ throws)
        unfolding check_member_output
        check_member_output_returns id index t daa covenant readable h =
            elim (Call-cases (member_token contract index t covenant)) [
              | inl e ↦ member_token_returns node daa index t covenant readable e
              | inr (none, e) ↦ ground (arith, e, h)
              | inr (some k, e) ↦ elim (Option-cases (named contract (some owner) k.state.owner)) [
                | inl x ↦ ground (arith, e, x, h)
                | inr (o, x) ↦ elim (Option-cases (named contract (some creator) k.state.creator)) [
                  | inl y ↦ ground (arith, e, x, y, h)
                  | inr (w, y) ↦ elim (Option-cases (named contract none k.state.platform)) [
                    | inl q ↦ ground (arith, e, x, y, q, h)
                    | inr (p, q) ↦
                        let i = (member_token-IsToken contract index t covenant k e).0 in
                        let (s, (address, at), (a, created), (b, until)) =
                          readable k.payload k.state i.payload i.state in
                        let (unspent, u) = is_unspent_answers address id index in
                        let o_is : owner ≡ o = ground (arith, x) in
                        let w_is : creator ≡ w = ground (arith, y) in
                        check_token_returns daa k a b address created until at id index o w p
                          owner_key creator_key unspent (ground (arith, has_owner, o_is))
                          (ground (arith, has_creator, w_is)) u (ground (arith, e, x, y, q, h))
                  ]
                ]
              ]
            ]

        pub find_among_returns :
            (us : List VerifierUtxo) (daa : ℕ) (covenant : Option String)
            → AreReadable contract node daa us
            → ¬ (find_among contract node us daa owner creator covenant ≡ throws)
        unfolding find_among
        find_among_returns [] daa covenant r h = cc
        find_among_returns (u ∷ us) daa covenant r h =
            let (t, e, readable) = r u (inl refl) in
            elim (Call-cases (
              check_member_output contract node u.transaction_id 1 t daa (some owner) covenant
                (some creator))) [
                  | inl f ↦ check_member_output_returns u.transaction_id 1 t daa covenant readable f
                  | inr (c, f) ↦ elim (Status-cases c.status) [
                    | inl v ↦ ground (arith, e, f, v, h)
                    | inr v ↦
                        find_among_returns us daa covenant (λ w i. r w (inr i))
                          (ground (arith, e, f, v, h))
                  ]
                ]
