-- ===== src/Verifier/OnChain.antt =====
-- backend/src/verifier.ts with backend/src/membership-access.ts and the end of a purchase in
-- backend/src/app.ts: what the node shows when a membership gives access and when one is sold.
use mathlib.Core.Path.{subst}
use onlykas.Prelude.{
  ℕ, String, ◌≡◌, refl, true, Option, some, List, [], ◌∷◌, arith, get_or, inl, inr,
}
use onlykas.Prelude.Lists.{In}
use onlykas.Domain.{MembershipCheck, PreparedMembershipRecord, valid}
use onlykas.Ports.{returns, Call-cases}
use onlykas.Store.{Store}
use onlykas.Access.{is_active}
use onlykas.Access.Evidence.{HasOutput, HasToken, is_active-HasEvidence}
use onlykas.Membership.{MembershipTransactions}
use onlykas.Membership.Finalize.{confirmed, purchase_finalize}
use onlykas.Membership.Outcomes.{purchase_finalize_confirmed}
use onlykas.Verifier.{
  Contract, Node, VerifierUtxo, ChainTransaction, chain_verifier, check_each, check_member_output,
}
use onlykas.Verifier.Sound.{
  IsMembership, verify_utxo-IsMembership, check_member_output-IsMembership,
}
use onlykas.Verifier.Find.{find_membership_lem}

-- The node shows a transaction of that name whose second output is a membership of the buyer by the
-- creator.
pub record IsOnChain (contract : Contract) (node : Node) (buyer creator : String) : Type 0 where
  pub transaction_id : String
  pub transaction : ChainTransaction
  pub read : node.transaction transaction_id ≡ returns transaction
  pub daa : ℕ
  pub clock : node.current_daa ≡ returns daa
  pub covenant : Option String
  pub check : MembershipCheck
  pub membership :
      IsMembership contract node transaction_id 1 transaction daa
        (some buyer)
        covenant
        (some creator)
        check

In-move : (c : MembershipCheck) (cs ds : List MembershipCheck) → cs ≡ ds → In c cs → In c ds
In-move c cs ds e i = subst (λ cs. In c cs) e i

module _ (contract : Contract) (node : Node) where
  module _ (buyer creator : String) where
    HasOutput-IsOnChain :
        (transaction : String) (ids : List String)
        → HasOutput (chain_verifier contract node) buyer creator transaction ids
        → IsOnChain contract node buyer creator
    unfolding chain_verifier
    HasOutput-IsOnChain transaction ids o =
        let (t, daa, e, f, m) =
          verify_utxo-IsMembership contract node transaction 1 (some buyer) (some o.covenant_id)
            (some creator) o.check o.answered o.valid in
        record {
          transaction_id = transaction;
          transaction = t;
          read = e;
          daa = daa;
          clock = f;
          covenant = some o.covenant_id;
          check = o.check;
          membership = m;
        }

    HasToken-IsOnChain :
        (ids : List (Option String))
        → HasToken (chain_verifier contract node) buyer creator ids
        → IsOnChain contract node buyer creator
    unfolding chain_verifier
    HasToken-IsOnChain ids o =
        let (us, daa, e, f, found) =
          find_membership_lem contract node buyer creator o.covenant_id (some o.check) o.answered in
        elim found [
          | inl (n, g) ↦ absurd (cc n)
          | inr (c, q, (u, i, p, (t, g, m))) ↦ record {
            transaction_id = u.transaction_id;
            transaction = t;
            read = g;
            daa = daa;
            clock = f;
            covenant = o.covenant_id;
            check = c;
            membership = m;
          }
        ]

    -- `isActive` says yes only where the node shows the buyer's membership by the creator: an accepted
    -- transaction whose second output has the script of an unexpired member token with the keys of both
    -- and is unspent. The node answers as one snapshot during the call.
    pub is_active-IsOnChain :
        (s : Store)
        → (is_active (some (chain_verifier contract node)) buyer creator s).0 ≡ returns true
        → IsOnChain contract node buyer creator
    is_active-IsOnChain s h =
        elim (is_active-HasEvidence (chain_verifier contract node) buyer creator s h) [
          | inl o ↦ HasOutput-IsOnChain o.receipt.transaction_id _ o.output
          | inr o ↦ HasToken-IsOnChain _ o
        ]

  -- A purchase is reported as confirmed only for a record whose buyer is the signed-in wallet and whose
  -- output index is 1, under a transaction that the node shows to be a membership of the buyer by the
  -- creator of the record under the record's covenant.
  pub bought-IsMembership :
      (id : String) (clock : ℕ) (gateway : MembershipTransactions) (address : String)
      (signed : Option String) (now : ℕ) (s : Store) (t : String)
      → (purchase_finalize id clock
          (some gateway)
          address
          signed
          now
          (some (chain_verifier contract node))
          s).0
        ≡ confirmed t
      → (v : PreparedMembershipRecord) × (v.buyer ≡ address)
        × (get_or v.member_output_index 0 ≡ 1)
        × ((w : ChainTransaction) × (daa : ℕ) × (c : MembershipCheck) × (node.transaction t
              ≡ returns w)
            × IsMembership contract node t 1 w daa
                (some v.buyer)
                (some v.covenant_id)
                (some v.creator)
                c)
  unfolding chain_verifier
  bought-IsMembership id clock gateway address signed now s t h =
      let (v, b, stored, gone, dropped) =
        purchase_finalize_confirmed id clock gateway (chain_verifier contract node) address signed
          now s t h in
      let ((found, kind, buyer), q, (c, e, ok)) = b in
      let (w, daa, f, g, m) =
        verify_utxo-IsMembership contract node t (get_or v.member_output_index 0) (some v.buyer)
          (some v.covenant_id) (some v.creator) c e ok in
      (
        v,
        buyer,
        m.is_token.is_second,
        (
          w,
          daa,
          c,
          f,
          subst
              (λ i.
                IsMembership contract node t i w daa (some v.buyer) (some v.covenant_id)
                  (some v.creator) c)
              m.is_token.is_second m,
        ),
      )

  check_each-IsMembership :
      (us : List VerifierUtxo) (daa : ℕ) (owner : String) (covenant creator : Option String)
      (cs : List MembershipCheck) (c : MembershipCheck)
      → check_each contract node us daa owner covenant creator ≡ returns cs
      → In c cs
      → c.status ≡ valid
      → (u : VerifierUtxo) × In u us
        × ((t : ChainTransaction) × (node.transaction u.transaction_id ≡ returns t)
            × IsMembership contract node u.transaction_id 1 t daa (some owner) covenant creator c)
  unfolding check_each
  check_each-IsMembership [] daa owner covenant creator cs c h i v =
      absurd (In-move c cs [] (ground (arith, h)) i)
  check_each-IsMembership (u ∷ us) daa owner covenant creator cs c h i v =
      elim (Call-cases (node.transaction u.transaction_id)) [
        | inl e ↦ absurd (ground (arith, e, h))
        | inr (t, e) ↦
            elim (Call-cases (
              check_member_output contract node u.transaction_id 1 t daa (some owner) covenant
                creator)) [
                  | inl f ↦ absurd (ground (arith, e, f, h))
                  | inr (d, f) ↦
                      elim (Call-cases (check_each contract node us daa owner covenant creator)) [
                        | inl g ↦ absurd (ground (arith, e, f, g, h))
                        | inr (ds, g) ↦
                            elim (In-move c cs (d ∷ ds) (ground (arith, e, f, g, h)) i) [
                              | inl x ↦ (
                                u,
                                inl refl,
                                (
                                  t,
                                  e,
                                  check_member_output-IsMembership contract node u.transaction_id 1
                                      t daa (some owner) covenant creator c (ground (arith, f, x))
                                      v,
                                ),
                              )
                              | inr j ↦
                                  let (w, k, rest) =
                                    check_each-IsMembership us daa owner covenant creator ds c g j
                                      v in
                                  (w, inr k, rest)
                            ]
                      ]
                ]
      ]
