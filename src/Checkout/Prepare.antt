-- ===== src/Checkout/Prepare.antt =====
-- backend/src/app.ts: what the preparation of a payment requires and records.
use onlykas.Prelude.{
  ℕ, ◌+◌, String, ◌≡◌, ◌≢◌, Bool, false, none, some, arith, eq_iff, ltb, Bool-cases, Option-cases,
  inl, inr, if◌then◌else◌,
}
use onlykas.Map.Laws.{get-set}
use onlykas.Domain.{Post, PreparedPayment, PreparedPaymentRecord}
use onlykas.Ports.{Call-cases, PaymentGateway}
use onlykas.Store.{Store}
use onlykas.Store.Posts.{get_post}
use onlykas.Store.Purchases.{get_purchase}
use onlykas.Store.Payments.{get_prepared_payment, save_prepared_payment, prune_prepared_payments}
use onlykas.Checkout.{
  PrepareResponse, prepared, prepare_payment, is_unlocked, is_free_post, prepared_ttl,
}

-- A record that was saved is read until it expires.
saved_reads :
    (v : PreparedPaymentRecord) (t : ℕ) (s : Store)
    → get_prepared_payment v.id t (save_prepared_payment v s)
      ≡ (if ltb t v.expires_at then some v else none)
unfolding get_prepared_payment save_prepared_payment
saved_reads v t s = ground (arith, get-set v.id v.id v s.prepared_payment_records, eq_iff v.id v.id)

abbrev record_of : String → PreparedPayment → String → String → ℕ → PreparedPaymentRecord
record_of id payment post_id buyer expires_at = record {
  id = id;
  transaction = payment.transaction;
  fingerprint = payment.fingerprint;
  amount_sompi = payment.amount_sompi;
  creator = payment.creator;
  post_id = post_id;
  buyer = buyer;
  expires_at = expires_at;
}

module _ (gateway : PaymentGateway) (is_insufficient : Bool) (post_id buyer id : String)
    (pruned_at saved_at : ℕ) (s : Store) where
  abbrev prepare : PrepareResponse × Store
  prepare = prepare_payment (some gateway) is_insufficient post_id buyer id pruned_at saved_at s

  -- A payment is prepared only of a stored post that costs something, for a buyer who is not its creator
  -- and has not bought it, and only if the gateway's transaction pays the creator the price. The
  -- record that was prepared can then be read under the id for five minutes, and not from then on.
  pub prepare_payment_prepared :
      (payment : PreparedPayment) (t : ℕ)
      → prepare.0 ≡ prepared id payment
      → (post : Post) × (get_post post_id s ≡ some post)
        × (post.creator ≢ buyer)
        × (is_free_post post.price_sompi ≡ false)
        × (get_purchase post.id buyer s ≡ none)
        × (payment.amount_sompi ≡ post.price_sompi)
        × (payment.creator ≡ post.creator)
        × (get_prepared_payment id t prepare.1 ≡ (
            if ltb t (saved_at + prepared_ttl)
            then some (record {
              id = id;
              transaction = payment.transaction;
              fingerprint = payment.fingerprint;
              amount_sompi = payment.amount_sompi;
              creator = payment.creator;
              post_id = post.id;
              buyer = buyer;
              expires_at = saved_at + prepared_ttl;
            })
            else none))
  unfolding prepare_payment is_unlocked
  prepare_payment_prepared payment t h = elim (Option-cases (get_post post_id s)) [
    | inl e ↦ absurd (ground arith)
    | inr (post, e) ↦ elim (Bool-cases (is_unlocked post buyer s)) [
      | inl free ↦ absurd (ground arith)
      | inr locked ↦ elim (Call-cases (gateway.prepare post buyer)) [
        | inl f ↦ absurd (ground arith)
        | inr (p, f) ↦
            let same : p ≡ payment = ground arith in
            (
              post,
              e,
              ground (arith, eq_iff buyer post.creator),
              ground arith,
              ground arith,
              ground (arith, eq_iff p.amount_sompi post.price_sompi),
              ground (arith, eq_iff p.creator post.creator),
              ground (
                arith,
                saved_reads (record_of id p post.id buyer (saved_at + prepared_ttl)) t
                    (prune_prepared_payments pruned_at s),
              ),
            )
      ]
    ]
  ]
