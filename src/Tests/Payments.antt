-- ===== src/Tests/Payments.antt =====
-- Receipts, claims and the reconciler's pass at concrete inputs.
use onlykas.Prelude.{◌≡◌, ◌⊎◌, refl, true, none, some, List, [], ◌∷◌, arith}
use onlykas.Prelude.Lists.{In}
use onlykas.Prelude.Sort.{sort, insert_sorted}
use onlykas.Domain.{Purchase, PaymentSubmission, confirmed, rejected}
use onlykas.Map.{get, set, delete, values}
use onlykas.Store.{empty}
use onlykas.Store.Op.{Op, run}
use onlykas.Store.Purchases.{get_purchase, purchase_key, create_purchase, finalize_purchase}
use onlykas.Store.Payments.{
  claim_payment_workflow_terminal, pending_payment_workflows, get_prepared_payment,
  delete_payment_workflow, delete_prepared_payment,
}
use onlykas.Store.Receipts.{PaysOnce, purchase_is_permanent, history-PaysOnce}
use onlykas.Store.Claims.{claim_payment_workflow_once}
use onlykas.Store.Pending.{pending_payment_workflows_iff}
use onlykas.Reconcile.Payments.{
  reconcile_payment, reconcile_payments, reconcile_each_payment, settle_payment, confirm_payment,
}
use onlykas.Reconcile.Evidence.{HasEvidence, reconcile_payments-HasEvidence}
use onlykas.Reconcile.Outcomes.{
  IsGone, expired_payment_is_abandoned, IsFree, reconcile_payments-IsGone,
}
use onlykas.Tests.Fixtures.{
  shop, shop-IsKeyed, receipt, prepared, workflow, any_locale, accepting, reconciler, begun,
}

purchase_is_permanent_example :
    get_purchase "p1" "carol" (run (Op.delete_session "s1" ∷ Op.prune_challenges 99 ∷ []) shop)
    ≡ some receipt
unfolding get_purchase purchase_key get
purchase_is_permanent_example =
    purchase_is_permanent "p1" "carol" receipt
      (Op.delete_session "s1" ∷ Op.prune_challenges 99 ∷ []) shop shop-IsKeyed refl
      (λ x. x, (λ x. x, tt))

abbrev bought_twice : List Op
bought_twice =
    Op.create_purchase receipt ∷ Op.create_purchase (record receipt { buyer = "bob" }) ∷ []

history-PaysOnce_example : PaysOnce (run bought_twice empty)
history-PaysOnce_example = history-PaysOnce bought_twice

claim_payment_workflow_once_example :
    let t =
      run
        (Op.delete_post "p1" ∷ [])
        (claim_payment_workflow_terminal "pay1" confirmed 20 none shop).1 in
    claim_payment_workflow_terminal "pay1" rejected 30 none t ≡ (none, t)
claim_payment_workflow_once_example =
    claim_payment_workflow_once "pay1" confirmed 20 none shop rejected 30 none
      (Op.delete_post "p1" ∷ []) (λ x. x, tt)

abbrev bought : Purchase
bought = record { post_id = "p1"; buyer = "bob"; transaction_id = "t1" }

bought_by_pass : get "p1:bob" (reconcile_payments reconciler 40 begun).store.purchases ≡ some bought
unfolding reconcile_payments reconcile_each_payment reconcile_payment settle_payment confirm_payment
    get_prepared_payment pending_payment_workflows claim_payment_workflow_terminal finalize_purchase
    create_purchase purchase_key delete_payment_workflow delete_prepared_payment get set delete
    values sort insert_sorted
bought_by_pass = refl

reconcile_payments-HasEvidence_example :
    (get "p1:bob" begun.store.purchases ≡ some bought)
    ⊎ HasEvidence accepting 40 shop (pending_payment_workflows any_locale 100 shop) bought
reconcile_payments-HasEvidence_example =
    reconcile_payments-HasEvidence reconciler accepting 40 begun "p1:bob" bought refl bought_by_pass

abbrev answer : PaymentSubmission
answer = record { is_accepted = some true; transaction_id = some "t1"; rejection = none }

listed : In workflow (pending_payment_workflows any_locale 100 shop)
unfolding values get
listed =
    (pending_payment_workflows_iff any_locale 100 shop workflow shop-IsKeyed (omega arith)).1
      (refl, refl)

free : IsFree workflow begun
unfolding get
free x e = ground arith

reconcile_payments-IsGone_example : IsGone workflow (reconcile_payments reconciler 40 begun)
reconcile_payments-IsGone_example =
    reconcile_payments-IsGone reconciler accepting 40 begun workflow refl listed free
      (answer, true, refl, refl)

expired_payment_is_abandoned_example :
    let q = reconcile_payment accepting 1000 workflow 61 begun in
    (q.summary ≡ record begun.summary { abandoned = 1 })
    × IsGone workflow q
    × (q.store.purchases ≡ shop.purchases)
unfolding get
expired_payment_is_abandoned_example =
    expired_payment_is_abandoned accepting 1000 workflow 61 begun prepared refl (omega arith) refl
