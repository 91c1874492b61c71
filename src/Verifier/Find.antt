-- ===== src/Verifier/Find.antt =====
-- backend/src/verifier.ts: `findMembership` against all memberships that the node's outputs name.
use mathlib.Core.Path.{subst, sym}
use onlykas.Prelude.{
  ℕ, String, ◌≡◌, refl, true, Option, none, some, List, [], ◌∷◌, arith, inl, inr, ◌⊎◌,
}
use onlykas.Prelude.Lists.{In, keep, In-keep, keep-In}
use onlykas.Domain.{
  MembershipCheck, MembershipCheckStatus, valid, expired, owner_mismatch, not_membership,
}
use onlykas.Ports.{returns, Call-cases}
use onlykas.Verifier.{
  Contract, Node, VerifierUtxo, ChainTransaction, check_member_output, find_among, find_membership,
  is_pointer,
}
use onlykas.Verifier.Sound.{IsMembership, check_member_output-IsMembership}

pub Status-cases : (s : MembershipCheckStatus) → (s ≡ valid) ⊎ ¬ (s ≡ valid)
Status-cases valid = inl refl
Status-cases expired = inr (λ e. cc)
Status-cases owner_mismatch = inr (λ e. cc)
Status-cases not_membership = inr (λ e. cc)

-- The output's transaction was read, and the check is the answer for its second output.
pub record IsChecked (contract : Contract) (node : Node) (daa : ℕ) (owner creator : String)
    (covenant : Option String) (u : VerifierUtxo) (c : MembershipCheck) : Type 0 where
  pub transaction : ChainTransaction
  pub read : node.transaction u.transaction_id ≡ returns transaction
  pub answer :
      check_member_output contract node u.transaction_id 1 transaction daa
        (some owner)
        covenant
        (some creator)
      ≡ returns c

-- Each of the outputs was checked without an answer that is valid.
abbrev pub FindsNone :
    Contract → Node → ℕ → (owner creator : String) → Option String → List VerifierUtxo → Type 0
FindsNone contract node daa owner creator covenant us =
    (u : VerifierUtxo)
    → In u us
    → (c : MembershipCheck) × IsChecked contract node daa owner creator covenant u c
      × ¬ (c.status ≡ valid)

-- One of the outputs was checked with this valid answer.
abbrev pub Finds :
    Contract
    → Node
    → ℕ
    → (owner creator : String) → Option String
    → List VerifierUtxo
    → MembershipCheck
    → Type 0
Finds contract node daa owner creator covenant us c =
    (u : VerifierUtxo) × In u us
    × IsChecked contract node daa owner creator covenant u c
    × (c.status ≡ valid)

module _ (contract : Contract) (node : Node) where
  FindsNone-cons :
      (daa : ℕ) (owner creator : String) (covenant : Option String) (u : VerifierUtxo)
      (us : List VerifierUtxo) (c : MembershipCheck)
      → IsChecked contract node daa owner creator covenant u c
      → ¬ (c.status ≡ valid)
      → FindsNone contract node daa owner creator covenant us
      → FindsNone contract node daa owner creator covenant (u ∷ us)
  FindsNone-cons daa owner creator covenant u us c k v g = λ w i. elim i [
    | inl e ↦
        subst
          (λ w.
            (c : MembershipCheck) × IsChecked contract node daa owner creator covenant w c
            × ¬ (c.status ≡ valid))
          (sym e) (c, k, v)
    | inr j ↦ g w j
  ]

  find_among-tail :
      (us : List VerifierUtxo) (daa : ℕ) (owner creator : String) (covenant : Option String)
      (r : Option MembershipCheck) (u : VerifierUtxo) (t : ChainTransaction) (c : MembershipCheck)
      → node.transaction u.transaction_id ≡ returns t
      → check_member_output contract node u.transaction_id 1 t daa
          (some owner)
          covenant
          (some creator)
        ≡ returns c
      → ¬ (c.status ≡ valid)
      → find_among contract node (u ∷ us) daa owner creator covenant ≡ returns r
      → find_among contract node us daa owner creator covenant ≡ returns r
  unfolding find_among
  find_among-tail us daa owner creator covenant r u t c e f v h = ground (arith, e, f, v, h)

  find_among_lem :
      (us : List VerifierUtxo) (daa : ℕ) (owner creator : String) (covenant : Option String)
      (r : Option MembershipCheck)
      → find_among contract node us daa owner creator covenant ≡ returns r
      → ((r ≡ none) × FindsNone contract node daa owner creator covenant us)
        ⊎ ((c : MembershipCheck) × (r ≡ some c)
            × Finds contract node daa owner creator covenant us c)
  unfolding find_among
  find_among_lem [] daa owner creator covenant r h = inl (ground (arith, h), λ u i. absurd i)
  find_among_lem (u ∷ us) daa owner creator covenant r h =
      let rest = find_among_lem us daa owner creator covenant r in
      elim (Call-cases (node.transaction u.transaction_id)) [
        | inl e ↦ absurd (ground (arith, e, h))
        | inr (t, e) ↦
            elim (Call-cases (
              check_member_output contract node u.transaction_id 1 t daa (some owner) covenant
                (some creator))) [
                  | inl f ↦ absurd (ground (arith, e, f, h))
                  | inr (c, f) ↦ elim (Status-cases c.status) [
                    | inl v ↦ inr (
                      c,
                      ground (arith, e, f, v, h),
                      (u, inl refl, record { transaction = t; read = e; answer = f }, v),
                    )
                    | inr v ↦
                        elim (rest
                          (find_among-tail us daa owner creator covenant r u t c e f v h)) [
                            | inl (n, g) ↦ inl (
                              n,
                              FindsNone-cons daa owner creator covenant u us c
                                  (record { transaction = t; read = e; answer = f }) v g,
                            )
                            | inr (d, q, (w, i, x, y)) ↦ inr (d, q, (w, inr i, x, y))
                          ]
                  ]
                ]
      ]

  -- An answer of `findMembership` is a membership of the owner by the creator in the second output of a
  -- transaction that one of the owner's index outputs names; and no answer means that each transaction
  -- so named was read and checked, and its check was not valid.
  pub find_membership_lem :
      (owner creator : String) (covenant : Option String) (r : Option MembershipCheck)
      → find_membership contract node owner creator covenant ≡ returns r
      → (us : List VerifierUtxo) × (daa : ℕ) × (node.utxos owner ≡ returns us)
        × (node.current_daa ≡ returns daa)
        × (((r ≡ none)
              × ((u : VerifierUtxo)
                  → In u us
                  → is_pointer contract node u ≡ true
                  → (c : MembershipCheck) × IsChecked contract node daa owner creator covenant u c
                    × ¬ (c.status ≡ valid)))
            ⊎ ((c : MembershipCheck) × (r ≡ some c)
                × ((u : VerifierUtxo) × In u us
                    × (is_pointer contract node u ≡ true)
                    × ((t : ChainTransaction) × (node.transaction u.transaction_id ≡ returns t)
                        × IsMembership contract node u.transaction_id 1 t daa
                            (some owner)
                            covenant
                            (some creator)
                            c))))
  unfolding find_membership
  find_membership_lem owner creator covenant r h = elim (Call-cases (node.utxos owner)) [
    | inl e ↦ absurd (ground (arith, e, h))
    | inr (us, e) ↦ elim (Call-cases node.current_daa) [
      | inl f ↦ absurd (ground (arith, e, f, h))
      | inr (daa, f) ↦
          let found =
            find_among_lem (keep (is_pointer contract node) us) daa owner creator covenant r
              (ground (arith, e, f, h)) in
          (
            us,
            daa,
            e,
            f,
            elim found [
              | inl (n, g) ↦ inl (n, λ u i p. g u (keep-In (is_pointer contract node) u us i p))
              | inr (c, q, (u, i, x, v)) ↦
                  let (j, p) = In-keep (is_pointer contract node) u us i in
                  inr (
                    c,
                    q,
                    (
                      u,
                      j,
                      p,
                      (
                        x.transaction,
                        x.read,
                        check_member_output-IsMembership contract node u.transaction_id 1
                            x.transaction daa (some owner) covenant (some creator) c x.answer v,
                      ),
                    ),
                  )
            ],
          )
    ]
  ]
