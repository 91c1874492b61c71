-- ===== src/Membership/Outcomes.antt =====
-- backend/src/app.ts: what the end of a membership leaves in the store, by its response.
use onlykas.Prelude.{
  ℕ, String, ◌≡◌, refl, true, Option, none, some, arith, ◌==◌, eq_iff, is_some, get_or, ◌⊎◌, inl,
  inr, Bool-cases,
}
use onlykas.Map.{get, set}
use onlykas.Map.Laws.{get-set, get-delete}
use onlykas.Domain.{
  MembershipKind, MembershipPurchase, MembershipCheck, MembershipCheckStatus,
  PreparedMembershipRecord, PaymentSubmission, WorkflowState,
}
use onlykas.Ports.{Call, returns, Call-cases, MembershipVerifier}
use onlykas.Checkout.Settle.{accepted-named}
use onlykas.Store.{Store}
use onlykas.Store.Purchases.{create_membership_purchase, finalize_membership_purchase}
use onlykas.Store.Memberships.{
  get_membership_workflow, delete_prepared_membership, save_membership_workflow,
  delete_membership_workflow,
}
use onlykas.Membership.{Attempt, MembershipTransactions}
use onlykas.Membership.Finalize.{
  not_found, failed, stale, confirmed, forget, undecided, workflow_of, receipt_of, is_valid,
  accept_purchase, purchase_finalize,
}
use onlykas.Membership.Settle.{IsPreparedFor, Settled, settle-cases}

module _ (id : String) (clock : ℕ) (a : PaymentSubmission) (s : Store) where
  undecided-receipts :
      (undecided id clock a s).1.membership_purchase_records ≡ s.membership_purchase_records
  unfolding undecided delete_prepared_membership delete_membership_workflow save_membership_workflow
  undecided-receipts = ground arith

  undecided-unconfirmed : (t : String) → (undecided id clock a s).0 ≡ confirmed t → ⊥
  unfolding undecided
  undecided-unconfirmed t h = ground (arith, h)

-- What the verifier says of the output of a purchase.
abbrev pub verified : MembershipVerifier → PreparedMembershipRecord → String → Call MembershipCheck
verified verifier v t =
    verifier.verify_utxo t (get_or v.member_output_index 0) v.buyer v.covenant_id v.creator

module _ (id : String) (clock : ℕ) (verifier : MembershipVerifier) (v : PreparedMembershipRecord)
    (t : String) (s : Store) where
  -- The purchase is stored, unless the transaction has a receipt already, and nothing is left of the
  -- workflow; or it is not confirmed.
  accept-cases :
      (((accept_purchase id clock verifier v t s).1.membership_purchase_records
          ≡ s.membership_purchase_records)
        × ((u : String) → (accept_purchase id clock verifier v t s).0 ≡ confirmed u → ⊥))
      ⊎ ((c : MembershipCheck) × (verified verifier v t ≡ returns c)
          × (c.status ≡ MembershipCheckStatus.valid)
          × ((accept_purchase id clock verifier v t s).0 ≡ confirmed t)
          × ((accept_purchase id clock verifier v t s).1.membership_purchase_records
              ≡ set t (receipt_of v t) s.membership_purchase_records)
          × (get_membership_workflow id (accept_purchase id clock verifier v t s).1 ≡ none)
          × (get id (accept_purchase id clock verifier v t s).1.prepared_membership_records ≡ none))
  unfolding accept_purchase finalize_membership_purchase create_membership_purchase
      delete_prepared_membership delete_membership_workflow save_membership_workflow
      get_membership_workflow
  accept-cases = elim (Call-cases (verified verifier v t)) [
    | inl e ↦ inl (ground (arith, e), λ u h. ground (arith, e, h))
    | inr (c, e) ↦ elim (Bool-cases (is_valid c.status)) [
      | inr f ↦ inl (ground (arith, e, f), λ u h. ground (arith, e, f, h))
      | inl f ↦ elim (Bool-cases (is_some (get t s.membership_purchase_records))) [
        | inl g ↦ inl (ground (arith, e, f, g), λ u h. ground (arith, e, f, g, h))
        | inr g ↦ inr (
          c,
          e,
          is_valid_lem c.status f,
          ground (arith, e, f, g),
          ground (arith, e, f, g),
          ground (
            arith,
            e,
            f,
            g,
            eq_iff id id,
            get-delete id id
                (save_membership_workflow (workflow_of id clock WorkflowState.confirmed t) clock
                  s).membership_workflows,
          ),
          ground (arith, e, f, g, get-delete id id s.prepared_membership_records, eq_iff id id),
        )
      ]
    ]
  ]
    where
      is_valid_lem :
          (c : MembershipCheckStatus) → is_valid c ≡ true → c ≡ MembershipCheckStatus.valid
      is_valid_lem MembershipCheckStatus.valid h = refl
      is_valid_lem _ h = cc

module _ (id : String) (clock : ℕ) (gateway : MembershipTransactions)
    (verifier : MembershipVerifier) (address : String) (signed : Option String) (now : ℕ)
    (s : Store) where
  abbrev pub bought : Settled
  bought = purchase_finalize id clock (some gateway) address signed now (some verifier) s

  -- The record of the purchase was prepared for the wallet and is unexpired, the gateway accepted its
  -- transaction, and the verifier finds a valid membership in that transaction.
  abbrev pub IsBought : PreparedMembershipRecord → String → Type 0
  IsBought v t =
      IsPreparedFor MembershipKind.purchase id address now s v
      × ((a : PaymentSubmission) × (body : String) × (gateway.submit v body ≡ Attempt.succeeds a)
          × (a.is_accepted ≡ some true)
          × (a.transaction_id ≡ some t))
      × ((c : MembershipCheck) × (verified verifier v t ≡ returns c)
          × (c.status ≡ MembershipCheckStatus.valid))

  -- No receipt is written and nothing is confirmed, or the receipt of a bought membership is.
  abbrev Ends : Settled → Type 0
  Ends r =
      ((r.1.membership_purchase_records ≡ s.membership_purchase_records)
        × ((u : String) → r.0 ≡ confirmed u → ⊥))
      ⊎ ((v : PreparedMembershipRecord) × (t : String) × IsBought v t
          × (r.0 ≡ confirmed t)
          × (r.1.membership_purchase_records ≡ set t (receipt_of v t) s.membership_purchase_records)
          × (get_membership_workflow id r.1 ≡ none)
          × (get id r.1.prepared_membership_records ≡ none))

  move : (r q : Settled) → r ≡ q → Ends q → Ends r
  move r q e h = rw e h

  purchase_finalize-cases : Ends bought
  unfolding purchase_finalize delete_prepared_membership delete_membership_workflow
  purchase_finalize-cases =
      elim (settle-cases id clock gateway MembershipKind.purchase address signed now
        (accept_purchase id clock verifier) s) [
          | inl e ↦ move bought (not_found, s) e (inl (refl, λ u h. cc))
          | inr (inl e) ↦ move bought (failed, s) e (inl (refl, λ u h. cc))
          | inr (inr (inl e)) ↦ move bought (stale, forget id s) e (inl (refl, λ u h. cc))
          | inr (inr (inr w)) ↦ elim w.outcome [
            | inl (k, e) ↦
                move bought (undecided id clock w.a s) e
                  (inl (undecided-receipts id clock w.a s, undecided-unconfirmed id clock w.a s))
            | inr (t, k, e) ↦
                move bought (accept_purchase id clock verifier w.v t s) e
                  (elim (accept-cases id clock verifier w.v t s) [
                    | inl unbought ↦ inl unbought
                    | inr (c, f, valid, answer, stored, gone, dropped) ↦ inr (
                      w.v,
                      t,
                      (
                        w.prepared,
                        (
                          w.a,
                          w.body,
                          w.submitted,
                          (accepted-named w.a t k).0,
                          (accepted-named w.a t k).1,
                        ),
                        (c, f, valid),
                      ),
                      answer,
                      stored,
                      gone,
                      dropped,
                    )
                  ])
          ]
        ]

  -- A membership that is reported as confirmed was prepared for the signed-in wallet as its buyer and
  -- is unexpired, its transaction was accepted, and the verifier found a valid membership in it; the
  -- receipt of that transaction is stored, and neither the workflow nor the prepared record is left.
  pub purchase_finalize_confirmed :
      (t : String)
      → bought.0 ≡ confirmed t
      → (v : PreparedMembershipRecord) × IsBought v t
        × (get t bought.1.membership_purchase_records ≡ some (receipt_of v t))
        × (get_membership_workflow id bought.1 ≡ none)
        × (get id bought.1.prepared_membership_records ≡ none)
  purchase_finalize_confirmed t h = elim purchase_finalize-cases [
    | inl (same, unconfirmed) ↦ absurd (unconfirmed t h)
    | inr (v, u, b, answer, stored, gone, dropped) ↦
        let same : u ≡ t = cc (answer, h) in
        rw (← same) (
          v,
          b,
          ground (
            arith,
            stored,
            eq_iff u u,
            get-set u u (receipt_of v u) s.membership_purchase_records,
          ),
          gone,
          dropped,
        )
  ]

  -- Every membership receipt that is stored after the request was stored before, under the same
  -- transaction, or it is that of a record that was prepared for the signed-in wallet as its buyer and
  -- has not expired, for an accepted transaction in which the verifier found a valid membership.
  pub purchase_finalize-HasEvidence :
      (i : String) (x : MembershipPurchase)
      → get i bought.1.membership_purchase_records ≡ some x
      → (get i s.membership_purchase_records ≡ some x)
        ⊎ ((v : PreparedMembershipRecord) × (t : String) × IsBought v t × (x ≡ receipt_of v t))
  purchase_finalize-HasEvidence i x h = elim purchase_finalize-cases [
    | inl (same, unconfirmed) ↦ inl (ground (arith, same, h))
    | inr (v, t, b, answer, stored, gone, dropped) ↦ elim (Bool-cases (t == i)) [
      | inl e ↦ inr (
        v,
        t,
        b,
        ground (
          arith,
          e,
          stored,
          h,
          eq_iff t i,
          get-set t i (receipt_of v t) s.membership_purchase_records,
        ),
      )
      | inr e ↦
          inl (
            ground
              (arith, e, stored, h, get-set t i (receipt_of v t) s.membership_purchase_records))
    ]
  ]
