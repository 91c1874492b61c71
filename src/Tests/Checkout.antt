-- ===== src/Tests/Checkout.antt =====
-- Payments through the routes at concrete inputs.
use onlykas.Prelude.{String, ◌≡◌, refl, true, false, none, some, ◌⊎◌}
use onlykas.Domain.{Purchase, PreparedPayment, PreparedPaymentRecord, PaymentSubmission}
use onlykas.Map.{get, set, delete, values}
use onlykas.Ports.{returns, throws, PaymentGateway}
use onlykas.Store.{Store}
use onlykas.Store.Posts.{get_post}
use onlykas.Store.Purchases.{get_purchase, purchase_key, finalize_purchase, create_purchase}
use onlykas.Store.Payments.{
  get_prepared_payment, get_payment_workflow, save_payment_workflow, delete_payment_workflow,
}
use onlykas.Checkout.{
  prepared, confirmed, pending, prepare_payment, is_free_post, is_unlocked, finalize_payment,
  find_submission, accept, refuse,
}
use onlykas.Checkout.Settle.{purchase_for}
use onlykas.Checkout.Finalize.{
  finalize_payment_confirmed, finalize_payment-HasEvidence, finalize_payment_submits_once,
}
use onlykas.Tests.Fixtures.{shop, workflow, accepting}

abbrev quote : PreparedPayment
quote = record { transaction = "tx"; fingerprint = "f"; amount_sompi = "100"; creator = "alice" }

-- A node that builds the quote and does not know yet of any transaction.
abbrev slow : PaymentGateway
slow = record {
  prepare = λ post buyer. returns quote;
  submit = λ payment signed. throws;
  status = λ transaction.
      returns (record { is_accepted = none; transaction_id = some transaction; rejection = none });
  verify_purchase = λ transaction buyer creator amount post digest. returns false;
}

dan_prepares :
    (prepare_payment (some slow) false "p1" "dan" "pay9" 20 21 shop).0 ≡ prepared "pay9" quote
unfolding prepare_payment is_unlocked is_free_post get_post get_purchase purchase_key get
dan_prepares = refl

abbrev done : Store
done = (finalize_payment "pay1" 41 (some accepting) "bob" none 40 shop).1

bob_pays : (finalize_payment "pay1" 41 (some accepting) "bob" none 40 shop).0 ≡ confirmed "t1"
unfolding finalize_payment find_submission accept finalize_purchase create_purchase purchase_key
    save_payment_workflow delete_payment_workflow get_prepared_payment get_payment_workflow get set
    delete values
bob_pays = refl

finalize_payment_confirmed_example :
    (r : PreparedPaymentRecord) × (get_prepared_payment "pay1" 40 shop ≡ some r)
    × (r.buyer ≡ "bob")
    × (get_purchase r.post_id "bob" done ≡ some (purchase_for r "t1"))
    × (get_payment_workflow "pay1" done ≡ none)
    × (get "pay1" done.prepared_payment_records ≡ none)
finalize_payment_confirmed_example =
    finalize_payment_confirmed "pay1" 41 accepting "bob" none 40 shop "t1" bob_pays

bob_waits : (finalize_payment "pay1" 41 (some slow) "bob" none 40 shop).0 ≡ pending (some "t1")
unfolding finalize_payment find_submission refuse save_payment_workflow get_prepared_payment
    get_payment_workflow get set
bob_waits = refl

abbrev bought : Purchase
bought = record { post_id = "p1"; buyer = "bob"; transaction_id = "t1" }

bob_has_bought : get "p1:bob" done.purchases ≡ some bought
unfolding finalize_payment find_submission accept finalize_purchase create_purchase purchase_key
    save_payment_workflow delete_payment_workflow get_prepared_payment get_payment_workflow get set
    delete values
bob_has_bought = refl

finalize_payment-HasEvidence_example :
    (get "p1:bob" shop.purchases ≡ some bought)
    ⊎ ((r : PreparedPaymentRecord) × (a : PaymentSubmission) × (t : String) × (get_prepared_payment
            "pay1" 40 shop
          ≡ some r)
        × (r.buyer ≡ "bob")
        × (find_submission accepting r (get_payment_workflow "pay1" shop) none ≡ returns a)
        × (a.is_accepted ≡ some true)
        × (a.transaction_id ≡ some t)
        × (bought ≡ purchase_for r t))
finalize_payment-HasEvidence_example =
    finalize_payment-HasEvidence "pay1" 41 accepting "bob" none 40 shop "p1:bob" bought
      bob_has_bought

finalize_payment_submits_once_example :
    finalize_payment "pay1" 41 (some accepting) "bob" none 40 shop
    ≡ finalize_payment "pay1" 41
        (some (record accepting {
          submit = λ payment signed.
              returns
                (record { is_accepted = some true; transaction_id = some "t2"; rejection = none });
        }))
        "bob"
        (some "signed")
        40
        shop
unfolding get_payment_workflow get
finalize_payment_submits_once_example =
    finalize_payment_submits_once "pay1" 41 accepting
      (record accepting {
        submit = λ payment signed.
            returns
              (record { is_accepted = some true; transaction_id = some "t2"; rejection = none });
      })
      "bob" none (some "signed") 40 shop workflow refl refl
