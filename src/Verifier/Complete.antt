-- ===== src/Verifier/Complete.antt =====
-- backend/src/verifier.ts: a membership that the chain shows is found, when the node answers and no index
-- output of the owner makes a check throw.
use mathlib.Core.Path.{subst}
use onlykas.Prelude.Int.{ℤ, pos, negsuc, ltb_ℤ}
use onlykas.Prelude.{ℕ, ◌<◌, String, ◌≡◌, true, Option, some, List, arith, eq_iff, inl, inr}
use onlykas.Prelude.Lists.{In, keep}
use onlykas.Domain.{MembershipCheck, valid}
use onlykas.Ports.{returns, Call-cases}
use onlykas.Verifier.{
  Contract, Node, VerifierUtxo, ChainTransaction, check_token, check_member_output, find_membership,
  is_pointer,
}
use onlykas.Verifier.Head.{IsToken-member_token}
use onlykas.Verifier.Sound.{IsMembership, membership-status}
use onlykas.Verifier.Answers.{TellsOutputs, AreReadable, find_among_returns}
use onlykas.Verifier.Find.{find_membership_lem}

later_test : (n m : ℕ) (e : ℤ) → e ≡ pos m → n < m → ltb_ℤ (pos n) e ≡ true
later_test n m (pos k) f h = ground (arith, f, h)
later_test n m (negsuc k) f h = absurd (cc f)

module _ (contract : Contract) (node : Node) where
  IsMembership-check :
      (id : String) (index : ℕ) (t : ChainTransaction) (daa : ℕ)
      (owner covenant creator : Option String) (c : MembershipCheck)
      → IsMembership contract node id index t daa owner covenant creator c
      → check_member_output contract node id index t daa owner covenant creator ≡ returns c
  unfolding check_member_output check_token
  IsMembership-check id index t daa owner covenant creator c i = ground (
    arith,
    IsToken-member_token contract index t covenant i.token i.is_token i.expected_covenant,
    i.is_owner,
    i.is_creator,
    i.is_platform,
    i.owner_key,
    i.creator_key,
    i.has_address,
    i.unspent,
    later_test daa i.expiry i.token.state.expires_at_daa i.expires i.unexpired,
    i.checked,
    eq_iff i.token.state.owner i.token.state.owner,
    eq_iff i.token.state.creator i.token.state.creator,
  )

  -- The keys of the addresses are read.
  module _ (telling : TellsOutputs node) (owner creator : String) (owner_key creator_key : String)
      (has_owner : contract.public_key owner ≡ returns owner_key)
      (has_creator : contract.public_key creator ≡ returns creator_key) where
    -- The index outputs of the owner, at the time of the node.
    module _ (covenant : Option String) (us : List VerifierUtxo) (daa : ℕ)
        (listed : node.utxos owner ≡ returns us) (clock : node.current_daa ≡ returns daa)
        (readable : AreReadable contract node daa (keep (is_pointer contract node) us)) where
      find_membership_answers :
          (r : Option MembershipCheck) × (find_membership contract node owner creator covenant
            ≡ returns r)
      unfolding find_membership
      find_membership_answers =
          elim (Call-cases (find_membership contract node owner creator covenant)) [
            | inr (r, g) ↦ (r, g)
            | inl g ↦ absurd (
                find_among_returns contract node telling owner creator owner_key creator_key
                  has_owner has_creator (keep (is_pointer contract node) us) daa covenant readable
                  (ground (arith, listed, clock, g)))
          ]

      status_valid :
          (id : String) (t w : ChainTransaction) (now : ℕ) (c d : MembershipCheck)
          → IsMembership contract node id 1 t daa (some owner) covenant (some creator) c
          → t ≡ w
          → daa ≡ now
          → check_member_output contract node id 1 w now (some owner) covenant (some creator)
            ≡ returns d
          → d.status ≡ valid
      status_valid id t w now c d m e f h =
          let same : c ≡ d = ground (
            arith,
            e,
            f,
            h,
            IsMembership-check id 1 t daa (some owner) covenant (some creator) c m,
          ) in
          ground (
            arith,
            same,
            membership-status contract node id 1 m.token daa m.owner_name m.creator_name
                m.platform_name valid c m.checked,
          )

      -- `findMembership` finds a membership for an owner, one of whose index outputs names a
      -- transaction that is a membership of the owner by the creator under the expected
      -- covenant, if the node answers, the two addresses have keys, and of each transaction
      -- that an index output of the owner names it holds that, if its payload has a state, the
      -- script and the address of this state can be written and its scores are dates.
      pub find_membership_complete :
          (u : VerifierUtxo) (t : ChainTransaction) (c : MembershipCheck)
          → In u us
          → is_pointer contract node u ≡ true
          → node.transaction u.transaction_id ≡ returns t
          → IsMembership contract node u.transaction_id 1 t daa
              (some owner)
              covenant
              (some creator)
              c
          → (d : MembershipCheck) × (find_membership contract node owner creator covenant
              ≡ returns (some d))
      find_membership_complete u t c i p g m =
          let (r, h) = find_membership_answers in
          let (vs, now, e2, f2, found) =
            find_membership_lem contract node owner creator covenant r h in
          elim found [
            | inr (d, q, x) ↦ (d, ground (arith, h, q))
            | inl (n, all) ↦
                let (c2, k, v) = all u (subst (λ us. In u us) (ground (arith, listed, e2)) i) p in
                absurd (
                  v (
                    status_valid u.transaction_id t k.transaction now c c2 m
                      (ground (arith, g, k.read)) (ground (arith, clock, f2)) k.answer))
          ]
