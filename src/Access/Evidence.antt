-- ===== src/Access/Evidence.antt =====
-- backend/src/application/membership-access.ts: what an answer of `isActive` rests on.
use mathlib.Core.Path.{subst}
use onlykas.Prelude.{
  String, ◌≡◌, refl, ap, ◌∙◌, Bool, true, false, Option, some, List, [], ◌∷◌, arith, ◌⊎◌, inl, inr,
  Bool-cases, Option-cases, if◌then◌else◌,
}
use onlykas.Prelude.Lists.{In}
use onlykas.Domain.{MembershipPurchase, MembershipCheck, MembershipCheckStatus}
use onlykas.Ports.{returns, Call-cases, MembershipVerifier}
use onlykas.Store.{Store}
use onlykas.Store.Purchases.{membership_receipts}
use onlykas.Access.{
  any_valid, any_receipt, discover, is_active, covenant_ids, receipt_ids, or_undefined, is_valid,
}

valid-status : (c : MembershipCheck) → is_valid c ≡ true → c.status ≡ MembershipCheckStatus.valid
valid-status c h = ground arith

module _ (verifier : MembershipVerifier) (buyer creator : String) where
  -- The verifier finds a valid member output of the transaction for one of the covenants.
  pub record HasOutput (transaction : String) (ids : List String) : Type 0 where
    pub covenant_id : String
    pub check : MembershipCheck
    pub listed : In covenant_id ids
    pub answered : verifier.verify_utxo transaction 1 buyer covenant_id creator ≡ returns check
    pub valid : check.status ≡ MembershipCheckStatus.valid

  pub record HasReceipt (ids : List String) (rs : List MembershipPurchase) : Type 0 where
    pub receipt : MembershipPurchase
    pub listed : In receipt rs
    pub output : HasOutput receipt.transaction_id (receipt_ids ids receipt)

  -- The verifier finds a membership of the buyer under one of the covenants.
  pub record HasToken (ids : List (Option String)) : Type 0 where
    pub covenant_id : Option String
    pub check : MembershipCheck
    pub listed : In covenant_id ids
    pub answered : verifier.find_membership buyer creator covenant_id ≡ returns (some check)

  valid-HasOutput :
      (transaction : String) (ids : List String)
      → any_valid verifier buyer creator transaction ids ≡ returns true
      → HasOutput transaction ids
  unfolding any_valid
  valid-HasOutput transaction [] h = absurd (ground arith)
  valid-HasOutput transaction (id ∷ ids) h =
      elim (Call-cases (verifier.verify_utxo transaction 1 buyer id creator)) [
        | inl e ↦ absurd (ground arith)
        | inr (c, e) ↦ elim (Bool-cases (is_valid c)) [
          | inl ok ↦ record {
            covenant_id = id;
            check = c;
            listed = inl refl;
            answered = e;
            valid = valid-status c ok;
          }
          | inr bad ↦
              let o = valid-HasOutput transaction ids (ground arith) in
              record {
                covenant_id = o.covenant_id;
                check = o.check;
                listed = inr o.listed;
                answered = o.answered;
                valid = o.valid;
              }
        ]
      ]

  receipt-HasReceipt :
      (ids : List String) (rs : List MembershipPurchase)
      → any_receipt verifier buyer creator ids rs ≡ returns true
      → HasReceipt ids rs
  unfolding any_receipt
  receipt-HasReceipt ids [] h = absurd (ground arith)
  receipt-HasReceipt ids (r ∷ rs) h =
      elim (Call-cases (any_valid verifier buyer creator r.transaction_id (receipt_ids ids r))) [
        | inl e ↦ absurd (ground arith)
        | inr (b, e) ↦ elim (Bool-cases b) [
          | inl ok ↦ record {
            receipt = r;
            listed = inl refl;
            output = valid-HasOutput r.transaction_id (receipt_ids ids r) (e ∙ ap returns ok);
          }
          | inr bad ↦
              let o = receipt-HasReceipt ids rs (ground arith) in
              record { receipt = o.receipt; listed = inr o.listed; output = o.output }
        ]
      ]

  discover-HasToken :
      (ids : List (Option String)) (s : Store)
      → (discover verifier buyer creator ids s).0 ≡ returns true
      → HasToken ids
  unfolding discover
  discover-HasToken [] s h = absurd (ground arith)
  discover-HasToken (id ∷ ids) s h = elim (Call-cases (verifier.find_membership buyer creator id)) [
    | inl e ↦ absurd (ground arith)
    | inr (found, e) ↦ elim (Option-cases found) [
      | inl missing ↦
          let o = discover-HasToken ids s (ground arith) in
          record {
            covenant_id = o.covenant_id;
            check = o.check;
            listed = inr o.listed;
            answered = o.answered;
          }
      | inr (c, ok) ↦ record {
        covenant_id = id;
        check = c;
        listed = inl refl;
        answered = e ∙ ap returns ok;
      }
    ]
  ]

  -- `isActive` answers yes only on evidence from the chain: a stored receipt of the buyer for the
  -- creator, for which the verifier finds a valid member output of its transaction under the
  -- receipt's covenant, or under one of the creator's if it names none; or a membership of the buyer
  -- that the verifier finds under one of the creator's covenants, or under any if there are none.
  pub is_active-HasEvidence :
      (s : Store)
      → (is_active (some verifier) buyer creator s).0 ≡ returns true
      → HasReceipt (covenant_ids creator s) (membership_receipts buyer creator s)
        ⊎ HasToken (or_undefined (covenant_ids creator s))
  unfolding is_active
  is_active-HasEvidence s h =
      let ids = covenant_ids creator s in
      let rs = membership_receipts buyer creator s in
      elim (Call-cases (any_receipt verifier buyer creator ids rs)) [
        | inl e ↦ absurd (ground arith)
        | inr (b, e) ↦ elim (Bool-cases b) [
          | inl ok ↦ inl (receipt-HasReceipt ids rs (e ∙ ap returns ok))
          | inr bad ↦ inr (discover-HasToken (or_undefined ids) s (ground arith))
        ]
      ]

  -- Every call of the verifier is answered.
  pub record Answers : Type 0 where
    pub utxo :
        (transaction id : String)
        → (c : MembershipCheck) × (verifier.verify_utxo transaction 1 buyer id creator ≡ returns c)
    pub membership :
        (id : Option String)
        → (c : Option MembershipCheck) × (verifier.find_membership buyer creator id ≡ returns c)

  module _ (a : Answers) where
    answered-valid :
        (transaction : String) (ids : List String)
        → (b : Bool) × (any_valid verifier buyer creator transaction ids ≡ returns b)
    unfolding any_valid
    answered-valid transaction [] = (false, refl)
    answered-valid transaction (id ∷ ids) =
        let (c, e) = a.utxo transaction id in
        let (b, f) = answered-valid transaction ids in
        (if is_valid c then true else b, ground arith)

    HasOutput-valid :
        (transaction : String) (ids : List String)
        → HasOutput transaction ids
        → any_valid verifier buyer creator transaction ids ≡ returns true
    unfolding any_valid
    HasOutput-valid transaction [] o = absurd o.listed
    HasOutput-valid transaction (id ∷ ids) o = elim o.listed [
      | inl e ↦ ground (arith, o.answered, o.valid, e)
      | inr i ↦
          let (c, e) = a.utxo transaction id in
          let rest = HasOutput-valid transaction ids (record {
            covenant_id = o.covenant_id;
            check = o.check;
            listed = i;
            answered = o.answered;
            valid = o.valid;
          }) in
          ground arith
    ]

    HasReceipt-receipt :
        (ids : List String) (rs : List MembershipPurchase)
        → HasReceipt ids rs
        → any_receipt verifier buyer creator ids rs ≡ returns true
    unfolding any_receipt
    HasReceipt-receipt ids [] o = absurd o.listed
    HasReceipt-receipt ids (r ∷ rs) o = elim o.listed [
      | inl e ↦
          let output : HasOutput r.transaction_id (receipt_ids ids r) =
            subst (λ (x : MembershipPurchase). HasOutput x.transaction_id (receipt_ids ids x)) e
              o.output in
          ground (arith, HasOutput-valid r.transaction_id (receipt_ids ids r) output)
      | inr i ↦
          let (b, e) = answered-valid r.transaction_id (receipt_ids ids r) in
          let rest =
            HasReceipt-receipt ids rs
              (record { receipt = o.receipt; listed = i; output = o.output }) in
          ground arith
    ]

    answered-receipt :
        (ids : List String) (rs : List MembershipPurchase)
        → (b : Bool) × (any_receipt verifier buyer creator ids rs ≡ returns b)
    unfolding any_receipt
    answered-receipt ids [] = (false, refl)
    answered-receipt ids (r ∷ rs) =
        let (c, e) = answered-valid r.transaction_id (receipt_ids ids r) in
        let (b, f) = answered-receipt ids rs in (if c then true else b, ground arith)

    HasToken-discover :
        (ids : List (Option String)) (s : Store)
        → HasToken ids
        → (discover verifier buyer creator ids s).0 ≡ returns true
    unfolding discover
    HasToken-discover [] s o = absurd o.listed
    HasToken-discover (id ∷ ids) s o = elim o.listed [
      | inl e ↦ ground (arith, o.answered, e)
      | inr i ↦
          let (c, e) = a.membership id in
          let rest = HasToken-discover ids s (record {
            covenant_id = o.covenant_id;
            check = o.check;
            listed = i;
            answered = o.answered;
          }) in
          ground arith
    ]

    -- When every call of the verifier is answered, `isActive` says yes whenever there is evidence:
    -- a stored receipt of the buyer for the creator with a valid member output of its transaction,
    -- or a membership of the buyer that the verifier finds under one of the covenants that
    -- `isActive` asks for.
    pub HasEvidence-is_active :
        (s : Store)
        → HasReceipt (covenant_ids creator s) (membership_receipts buyer creator s)
          ⊎ HasToken (or_undefined (covenant_ids creator s))
        → (is_active (some verifier) buyer creator s).0 ≡ returns true
    unfolding is_active
    HasEvidence-is_active s (inl receipt) = ground (
      arith,
      HasReceipt-receipt (covenant_ids creator s) (membership_receipts buyer creator s) receipt,
    )
    HasEvidence-is_active s (inr t) =
        let ids = covenant_ids creator s in
        let (b, e) = answered-receipt ids (membership_receipts buyer creator s) in
        ground (arith, e, HasToken-discover (or_undefined ids) s t)
