-- ===== src/Checkout/Finalize.antt =====
-- backend/src/app.ts: what the end of a payment leaves in the store, by its response.
use onlykas.Prelude.{
  ℕ, String, ◌≡◌, refl, sym, ◌∙◌, true, Option, none, some, arith, ◌==◌, eq_iff, Bool-cases,
  Option-cases, ◌⊎◌, inl, inr,
}
use onlykas.Map.{get}
use onlykas.Domain.{
  Purchase, PreparedPaymentRecord, PaymentWorkflow, PaymentSubmission, WorkflowState,
}
use onlykas.Ports.{returns, Call-cases, PaymentGateway}
use onlykas.Store.{Store}
use onlykas.Store.Purchases.{get_purchase}
use onlykas.Store.Payments.{get_prepared_payment, get_payment_workflow}
use onlykas.Checkout.Settle.{
  purchase_for, Finalized, response, accepted-named, accept-purchases, accept-decided,
  accept-confirmed, refuse-purchases, refuse-unconfirmed, refuse-pending,
}
use onlykas.Checkout.{
  pending, confirmed, payment_not_found, failed, finalize_payment, find_submission,
  accepted_transaction, refuse, accept,
}

module _ (id : String) (clock : ℕ) (gateway : PaymentGateway) (address : String)
    (signed : Option String) (now : ℕ) (s : Store) where
  abbrev pub finalized : Finalized
  finalized = finalize_payment id clock (some gateway) address signed now s

  -- The ways that a request can go: it finds nothing of its own, the gateway throws, or the gateway
  -- answers, and then the answer is refused or accepted.
  pub finalize_payment-cases :
      ((finalized.1 ≡ s) × ((finalized.0 ≡ payment_not_found) ⊎ (finalized.0 ≡ failed)))
      ⊎ ((r : PreparedPaymentRecord) × (a : PaymentSubmission) × (get_prepared_payment id now s
            ≡ some r)
          × (r.buyer ≡ address)
          × (find_submission gateway r (get_payment_workflow id s) signed ≡ returns a)
          × (((accepted_transaction a ≡ none)
                × (finalized ≡ refuse id clock a (get_payment_workflow id s) s))
              ⊎ ((t : String) × (accepted_transaction a ≡ some t)
                  × (finalized ≡ accept id clock r t s))))
  unfolding finalize_payment
  finalize_payment-cases = elim (Option-cases (get_prepared_payment id now s)) [
    | inl e ↦ inl (rw (e, finalize_payment) (refl, inl refl))
    | inr (r, e) ↦ elim (Bool-cases (r.buyer == address)) [
      | inr other ↦ inl (rw (e, other, finalize_payment) (refl, inl refl))
      | inl own ↦ elim (Call-cases (find_submission gateway r (get_payment_workflow id s) signed)) [
        | inl f ↦ inl (rw (e, own, f, finalize_payment) (refl, inr refl))
        | inr (a, f) ↦ inr (
          r,
          a,
          e,
          (eq_iff r.buyer address).0 own,
          f,
          elim (Option-cases (accepted_transaction a)) [
            | inl g ↦ inl (g, rw (e, own, f, g, finalize_payment) refl)
            | inr (t, g) ↦ inr (t, g, rw (e, own, f, g, finalize_payment) refl)
          ],
        )
      ]
    ]
  ]

  -- A payment that is reported as confirmed was prepared for the signed-in wallet and is unexpired; the
  -- wallet's receipt for the post names the transaction, and the workflow and the record are gone.
  pub finalize_payment_confirmed :
      (t : String)
      → finalized.0 ≡ confirmed t
      → (r : PreparedPaymentRecord) × (get_prepared_payment id now s ≡ some r)
        × (r.buyer ≡ address)
        × (get_purchase r.post_id address finalized.1 ≡ some (purchase_for r t))
        × (get_payment_workflow id finalized.1 ≡ none)
        × (get id finalized.1.prepared_payment_records ≡ none)
  finalize_payment_confirmed t h = elim finalize_payment-cases [
    | inl (same, inl e) ↦ absurd (cc (h, e))
    | inl (same, inr e) ↦ absurd (cc (h, e))
    | inr (r, a, e, own, f, inl (g, refusal)) ↦
        absurd (
          refuse-unconfirmed id clock a (get_payment_workflow id s) s t
            (response (sym refusal) ∙ h))
    | inr (r, a, e, own, f, inr (t', g, acceptance)) ↦
        let (same, bought, gone, dropped) =
          accept-confirmed id clock r t' s t (response (sym acceptance) ∙ h) in
        (
          r,
          e,
          own,
          ground (arith, acceptance, own, same, bought),
          ground (arith, acceptance, gone),
          ground (arith, acceptance, dropped),
        )
  ]

  -- A payment that is reported as pending has a stored workflow of its id in the state of a
  -- submitted one, the records of prepared payments are kept, and nothing is bought.
  pub finalize_payment_pending :
      (t : Option String)
      → finalized.0 ≡ pending t
      → (finalized.1.purchases ≡ s.purchases)
        × (finalized.1.prepared_payment_records ≡ s.prepared_payment_records)
        × ((w : PaymentWorkflow) × (get_payment_workflow id finalized.1 ≡ some w)
            × (w.prepared_payment_id ≡ id)
            × (w.state ≡ WorkflowState.submitted))
  finalize_payment_pending t h = elim finalize_payment-cases [
    | inl (same, inl e) ↦ absurd (cc (h, e))
    | inl (same, inr e) ↦ absurd (cc (h, e))
    | inr (r, a, e, own, f, inl (g, refusal)) ↦
        let (named, kept, (w, stored, key, state, transaction)) =
          refuse-pending id clock a (get_payment_workflow id s) s t (response (sym refusal) ∙ h) in
        (
          ground (arith, refusal, refuse-purchases id clock a (get_payment_workflow id s) s),
          ground (arith, refusal, kept),
          (w, ground (arith, refusal, stored), key, state),
        )
    | inr (r, a, e, own, f, inr (t', g, acceptance)) ↦
        absurd (accept-decided id clock r t' s t (response (sym acceptance) ∙ h))
  ]

  -- Every purchase that is stored after the request was stored before, under the same key, or it is the
  -- one of the record that was prepared for the signed-in wallet and has not expired, for a transaction
  -- that the gateway reports as accepted, or that a confirmed workflow of the payment names.
  pub finalize_payment-HasEvidence :
      (i : String) (x : Purchase)
      → get i finalized.1.purchases ≡ some x
      → (get i s.purchases ≡ some x)
        ⊎ ((r : PreparedPaymentRecord) × (a : PaymentSubmission) × (t : String)
            × (get_prepared_payment id now s ≡ some r)
            × (r.buyer ≡ address)
            × (find_submission gateway r (get_payment_workflow id s) signed ≡ returns a)
            × (a.is_accepted ≡ some true)
            × (a.transaction_id ≡ some t)
            × (x ≡ purchase_for r t))
  finalize_payment-HasEvidence i x h = elim finalize_payment-cases [
    | inl (same, response) ↦ inl (ground (arith, same, h))
    | inr (r, a, e, own, f, inl (g, refusal)) ↦
        inl (ground (arith, h, refusal, refuse-purchases id clock a (get_payment_workflow id s) s))
    | inr (r, a, e, own, f, inr (t, g, acceptance)) ↦
        elim (accept-purchases id clock r t s i x (ground (arith, h, acceptance))) [
          | inl before ↦ inl before
          | inr new ↦
              inr (r, a, t, e, own, f, (accepted-named a t g).0, (accepted-named a t g).1, new)
        ]
  ]

find-same :
    (gateway gateway' : PaymentGateway) (r : PreparedPaymentRecord) (signed signed' : Option String)
    (w : PaymentWorkflow)
    → gateway.status w.transaction_id ≡ gateway'.status w.transaction_id
    → find_submission gateway r (some w) signed ≡ find_submission gateway' r (some w) signed'
unfolding find_submission
find-same gateway gateway' r signed signed' w same = ground (arith, same)

-- A payment with a workflow is not submitted again: the request goes the same way whatever the gateway
-- would answer to a submission, and whatever the body holds.
pub finalize_payment_submits_once :
    (id : String) (clock : ℕ) (gateway gateway' : PaymentGateway) (address : String)
    (signed signed' : Option String) (now : ℕ) (s : Store) (w : PaymentWorkflow)
    → get_payment_workflow id s ≡ some w
    → gateway.status w.transaction_id ≡ gateway'.status w.transaction_id
    → finalize_payment id clock (some gateway) address signed now s
      ≡ finalize_payment id clock (some gateway') address signed' now s
unfolding finalize_payment
finalize_payment_submits_once id clock gateway gateway' address signed signed' now s w known same =
    elim (Option-cases (get_prepared_payment id now s)) [
      | inl e ↦ ground (arith, e)
      | inr (r, e) ↦ elim (Bool-cases (r.buyer == address)) [
        | inr other ↦ ground (arith, e, other)
        | inl own ↦
            rw (e, own, known, find-same gateway gateway' r signed signed' w same, finalize_payment)
              refl
      ]
    ]
