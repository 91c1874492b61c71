-- ===== src/Verifier/Sound.antt =====
-- backend/src/verifier.ts: what a valid membership says of the chain.
use onlykas.Prelude.Int.{ℤ, pos, negsuc, ltb_ℤ}
use onlykas.Prelude.{
  ℕ, ◌<◌, String, ◌≡◌, refl, true, false, Option, none, some, arith, ◌==◌, eq_iff, inl, inr,
  Bool-cases, Option-cases,
}
use onlykas.Domain.{MembershipCheck, MembershipCheckStatus, valid, expired, owner_mismatch}
use onlykas.Ports.{returns, Call-cases}
use onlykas.Verifier.{
  Contract, Node, ChainTransaction, Token, matches, member_token, not_member, estimate, membership,
  named, is_unspent, check_token, check_member_output, verify_utxo,
}
use onlykas.Verifier.Head.{IsToken, member_token-IsToken}

-- The check is that of a token of the transaction: it names the owner, the creator and the platform,
-- whose keys the token holds, its output is unspent, it lasts longer than now, and its covenant is the
-- expected one.
pub record IsMembership (contract : Contract) (node : Node) (id : String) (index : ℕ)
    (t : ChainTransaction) (daa : ℕ) (owner covenant creator : Option String) (c : MembershipCheck)
    : Type 0 where
  pub token : Token
  pub is_token : IsToken contract index t token
  pub owner_name : String
  pub creator_name : String
  pub platform_name : String
  pub is_owner : named contract owner token.state.owner ≡ some owner_name
  pub is_creator : named contract creator token.state.creator ≡ some creator_name
  pub is_platform : named contract none token.state.platform ≡ some platform_name
  pub owner_key : contract.public_key owner_name ≡ returns token.state.owner
  pub creator_key : contract.public_key creator_name ≡ returns token.state.creator
  pub address : String
  pub has_address : contract.address token.state ≡ returns address
  pub unspent : is_unspent contract node address id index ≡ returns true
  pub expiry : ℕ
  pub expires : token.state.expires_at_daa ≡ pos expiry
  pub unexpired : daa < expiry
  pub expected_covenant : matches covenant token.covenant_id ≡ true
  pub checked :
      membership contract node id index token daa owner_name creator_name platform_name valid
      ≡ returns c

module _ (contract : Contract) where
  later-pos : (n : ℕ) (e : ℤ) → ltb_ℤ (pos n) e ≡ true → (m : ℕ) × (e ≡ pos m) × (n < m)
  later-pos n (pos m) h = (m, refl, ground (arith, h))
  later-pos n (negsuc m) h = absurd (ground (arith, h))

  module _ (node : Node) where
    pub membership-status :
        (id : String) (index : ℕ) (k : Token) (daa : ℕ) (owner creator platform : String)
        (status : MembershipCheckStatus) (c : MembershipCheck)
        → membership contract node id index k daa owner creator platform status ≡ returns c
        → c.status ≡ status
    unfolding membership
    membership-status id index k daa owner creator platform status c h =
        elim (Call-cases (estimate contract node daa k.payload.metadata.created_at_daa)) [
          | inl e ↦ absurd (ground (arith, e, h))
          | inr (a, e) ↦ elim (Call-cases (estimate contract node daa k.state.expires_at_daa)) [
            | inl f ↦ absurd (ground (arith, e, f, h))
            | inr (b, f) ↦ ground (arith, e, f, h)
          ]
        ]

    check_token_lem :
        (id : String) (index : ℕ) (k : Token) (daa : ℕ) (owner creator platform : String)
        (c : MembershipCheck)
        → check_token contract node id index k daa owner creator platform ≡ returns c
        → c.status ≡ valid
        → (contract.public_key owner ≡ returns k.state.owner)
          × (contract.public_key creator ≡ returns k.state.creator)
          × ((address : String) × (contract.address k.state ≡ returns address)
              × (is_unspent contract node address id index ≡ returns true))
          × ((expiry : ℕ) × (k.state.expires_at_daa ≡ pos expiry) × (daa < expiry))
          × (membership contract node id index k daa owner creator platform valid ≡ returns c)
    unfolding check_token not_member
    check_token_lem id index k daa owner creator platform c h v =
        let status = membership-status id index k daa owner creator platform in
        elim (Call-cases (contract.public_key owner)) [
          | inl p ↦ absurd (ground (arith, p, h))
          | inr (key, p) ↦ elim (Bool-cases (k.state.owner == key)) [
            | inr s ↦ absurd (ground (arith, p, s, h, v, status owner_mismatch c))
            | inl s ↦ elim (Call-cases (contract.public_key creator)) [
              | inl q ↦ absurd (ground (arith, p, s, q, h))
              | inr (other, q) ↦ elim (Bool-cases (k.state.creator == other)) [
                | inr r ↦ absurd (ground (arith, p, s, q, r, h, v))
                | inl r ↦ elim (Call-cases (contract.address k.state)) [
                  | inl a ↦ absurd (ground (arith, p, s, q, r, a, h))
                  | inr (address, a) ↦
                      elim (Call-cases (is_unspent contract node address id index)) [
                        | inl u ↦ absurd (ground (arith, p, s, q, r, a, u, h))
                        | inr (false, u) ↦ absurd (ground (arith, p, s, q, r, a, u, h, v))
                        | inr (true, u) ↦
                            elim (Bool-cases (ltb_ℤ (pos daa) k.state.expires_at_daa)) [
                              | inr d ↦
                                  absurd
                                    (ground (arith, p, s, q, r, a, u, d, h, v, status expired c))
                              | inl d ↦ (
                                ground (arith, p, s, eq_iff k.state.owner key),
                                ground (arith, q, r, eq_iff k.state.creator other),
                                (address, a, u),
                                later-pos daa k.state.expires_at_daa d,
                                ground (arith, p, s, q, r, a, u, d, h),
                              )
                            ]
                      ]
                ]
              ]
            ]
          ]
        ]

    pub check_member_output-IsMembership :
        (id : String) (index : ℕ) (t : ChainTransaction) (daa : ℕ)
        (owner covenant creator : Option String) (c : MembershipCheck)
        → check_member_output contract node id index t daa owner covenant creator ≡ returns c
        → c.status ≡ valid
        → IsMembership contract node id index t daa owner covenant creator c
    unfolding check_member_output not_member
    check_member_output-IsMembership id index t daa owner covenant creator c h v =
        elim (Call-cases (member_token contract index t covenant)) [
          | inl e ↦ absurd (ground (arith, e, h))
          | inr (none, e) ↦ absurd (ground (arith, e, h, v))
          | inr (some k, e) ↦ elim (Option-cases (named contract owner k.state.owner)) [
            | inl f ↦ absurd (ground (arith, e, f, h, v))
            | inr (o, f) ↦ elim (Option-cases (named contract creator k.state.creator)) [
              | inl g ↦ absurd (ground (arith, e, f, g, h, v))
              | inr (w, g) ↦ elim (Option-cases (named contract none k.state.platform)) [
                | inl q ↦ absurd (ground (arith, e, f, g, q, h, v))
                | inr (p, q) ↦
                    let (a, b, (address, at, u), (expiry, x, d), m) =
                      check_token_lem id index k daa o w p c (ground (arith, e, f, g, q, h)) v in
                    let (i, y) = member_token-IsToken contract index t covenant k e in
                    record {
                      token = k;
                      is_token = i;
                      owner_name = o;
                      creator_name = w;
                      platform_name = p;
                      is_owner = f;
                      is_creator = g;
                      is_platform = q;
                      owner_key = a;
                      creator_key = b;
                      address = address;
                      has_address = at;
                      unspent = u;
                      expiry = expiry;
                      expires = x;
                      unexpired = d;
                      expected_covenant = y;
                      checked = m;
                    }
              ]
            ]
          ]
        ]

    pub verify_utxo-IsMembership :
        (id : String) (index : ℕ) (owner covenant creator : Option String) (c : MembershipCheck)
        → verify_utxo contract node id index owner covenant creator ≡ returns c
        → c.status ≡ valid
        → (t : ChainTransaction) × (daa : ℕ) × (node.transaction id ≡ returns t)
          × (node.current_daa ≡ returns daa)
          × IsMembership contract node id index t daa owner covenant creator c
    unfolding verify_utxo
    verify_utxo-IsMembership id index owner covenant creator c h v =
        elim (Call-cases (node.transaction id)) [
          | inl e ↦ absurd (ground (arith, e, h))
          | inr (t, e) ↦ elim (Call-cases node.current_daa) [
            | inl f ↦ absurd (ground (arith, e, f, h))
            | inr (daa, f) ↦ (
              t,
              daa,
              e,
              f,
              check_member_output-IsMembership id index t daa owner covenant creator c
                  (ground (arith, e, f, h)) v,
            )
          ]
        ]
