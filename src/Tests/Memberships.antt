-- ===== src/Tests/Memberships.antt =====
-- Memberships, from the preparation to the receipt, and prices, at concrete inputs.
use onlykas.Prelude.Int.{pos}
use onlykas.Prelude.{
  ℕ, ◌+◌, ◌≤◌, String, ◌≡◌, refl, ◌≢◌, ◌⊎◌, ◌↔◌, true, none, some, [], ◌∷◌, arith, ltb, eq_iff,
  if◌then◌else◌,
}
use onlykas.Map.{get, set, values}
use onlykas.Domain.{
  PreparedMembershipRecord, MembershipCheck, MembershipCheckStatus, MembershipKind, CreatorCovenant,
  TokenKind, PaymentSubmission,
}
use onlykas.Ports.{returns, MembershipVerifier}
use onlykas.Price.{
  Text, format_kas, parse_post_price, parse_kas_to_sompi, parse_membership_price,
  membership_price_problem, min_membership_price, max_membership_price, digits, match_price, trim,
  trim_start, trim_end, is_space, span_digits, sompi_of, value_from, pad_end,
}
use onlykas.Price.Roundtrip.{parse-format_kas, parse_membership_price_iff}
use onlykas.Checkout.{prepared_ttl}
use onlykas.Store.{Store}
use onlykas.Store.Covenants.{
  get_creator_covenant, finalize_offer, save_creator_covenant, save_new_covenant, record_covenant,
}
use onlykas.Store.Purchases.{finalize_membership_purchase, create_membership_purchase}
use onlykas.Store.Memberships.{
  get_prepared_membership, get_membership_workflow, save_membership_workflow,
  delete_membership_workflow,
}
use onlykas.Store.Offers.{shown}
use onlykas.Membership.{
  Attempt, MembershipTransactions, PreparedMembershipTransaction, prepared_record, keep_prepared,
  decimal_text, offer_prepare, purchase_prepare,
}
use onlykas.Membership.Finalize.{
  not_found, pending, mapping_of, receipt_of, find_prepared, settle, accept_offer, accept_purchase,
  offer_finalize, cancel_finalize, price_finalize, purchase_finalize,
}
use onlykas.Membership.Settle.{IsPreparedFor}
use onlykas.Membership.Outcomes.{
  IsBought, purchase_finalize_confirmed, purchase_finalize-HasEvidence,
}
use onlykas.Membership.Prepared.{
  purchase_prepare_prepared, offer_prepare_prepared, finalize_by_others,
  pending_without_transaction,
}
use onlykas.Membership.Offers.{offer_finalize_confirmed}
use onlykas.Tests.Fixtures.{shop}

abbrev transaction : PreparedMembershipTransaction
transaction = record {
  transaction = "{}";
  fingerprint = "f";
  covenant_id = "cov1";
  sign_inputs = 0 ∷ [];
  member_output_index = some 1;
  price_sompi = some "5";
}

-- A gateway that makes that transaction, and of which the answer to a submission is given.
abbrev pub gateway_of : PaymentSubmission → MembershipTransactions
gateway_of a = record {
  prepare_offer = λ creator price. Attempt.succeeds transaction;
  prepare_mint = λ creator buyer covenant price. Attempt.succeeds transaction;
  prepare_price_update = λ creator covenant current new. Attempt.succeeds transaction;
  prepare_cancellation = λ creator covenant price. Attempt.succeeds transaction;
  submit = λ v body. Attempt.succeeds a;
}

abbrev pub accepted : PaymentSubmission
accepted = record { is_accepted = some true; transaction_id = some "t9"; rejection = none }

abbrev unknown : PaymentSubmission
unknown = record { is_accepted = none; transaction_id = none; rejection = none }

abbrev valid_check : MembershipCheck
valid_check = record {
  transaction_id = "t9";
  output_index = 1;
  covenant_id = some "cov1";
  kind = TokenKind.token;
  owner = some "bob";
  content_creator = some "alice";
  platform_address = none;
  created_at_daa = some (pos 1);
  expires_at_daa = some (pos 9);
  created_at = none;
  valid_until = none;
  status = MembershipCheckStatus.valid;
}

abbrev convinced : MembershipVerifier
convinced = record {
  find_membership = λ owner creator covenant. returns none;
  verify_utxo = λ t index owner covenant creator. returns valid_check;
}

abbrev order : PreparedMembershipRecord
order = prepared_record "m1" MembershipKind.purchase "alice" "bob" 10 transaction

abbrev offering : PreparedMembershipRecord
offering = record (prepared_record "m2" MembershipKind.offer "erin" "erin" 10 transaction) {
  covenant_id = "cov3";
}

abbrev pub counter : Store
counter = record shop { prepared_membership_records = ("m1", order) ∷ ("m2", offering) ∷ [] }

purchase_prepare_prepared_example :
    let gateway = gateway_of accepted in
    let (answer, t) = purchase_prepare "m3" 10 10 (some gateway) (λ a. true) "alice" "bob" shop in
    ((λ (a : String). true) "alice" ≡ true)
    × (◌≢◌ {A = String} "bob" "alice")
    × ((c : CreatorCovenant) × (get_creator_covenant "alice" shop ≡ some c)
        × (gateway.prepare_mint "alice" "bob" c.covenant_id c.price_sompi
            ≡ Attempt.succeeds transaction))
    × (get_prepared_membership "m3" 20 t ≡ (
        if ltb 20 (10 + prepared_ttl)
        then some (prepared_record "m3" MembershipKind.purchase "alice" "bob" 10 transaction)
        else none))
unfolding purchase_prepare keep_prepared get_creator_covenant get
purchase_prepare_prepared_example =
    purchase_prepare_prepared "m3" 10 10 (gateway_of accepted) (λ a. true) "alice" "bob" shop
      transaction 20 refl

abbrev two_kas : Text
two_kas = 50 ∷ 46 ∷ 53 ∷ []

parses : parse_membership_price two_kas ≡ some 250_000_000
unfolding parse_membership_price parse_kas_to_sompi membership_price_problem match_price trim
    trim_start trim_end is_space span_digits sompi_of value_from pad_end
parses = refl

parse_membership_price_iff_example : (parse_membership_price two_kas ≡ some 250_000_000) ↔ (
    (parse_post_price two_kas ≡ some 250_000_000)
    × (min_membership_price ≤ 250_000_000)
    × (250_000_000 ≤ max_membership_price))
parse_membership_price_iff_example = parse_membership_price_iff two_kas 250_000_000

parse-format_kas_example :
    (parse_post_price (format_kas 250_000_000) ≡ some 250_000_000)
    × (parse_kas_to_sompi (format_kas 250_000_000) ≡ some 250_000_000)
    × (parse_membership_price (format_kas 250_000_000) ≡ some 250_000_000)
parse-format_kas_example = parse-format_kas 250_000_000

offer_prepare_prepared_example :
    let gateway = gateway_of accepted in
    let (answer, t) = offer_prepare "m3" 10 10 (some gateway) "erin" two_kas shop in
    (get_creator_covenant "erin" shop ≡ none)
    × ((n : ℕ) × (parse_post_price two_kas ≡ some n)
        × (min_membership_price ≤ n)
        × (n ≤ max_membership_price)
        × (gateway.prepare_offer "erin" (decimal_text (digits n)) ≡ Attempt.succeeds transaction))
    × (get_prepared_membership "m3" 20 t ≡ (
        if ltb 20 (10 + prepared_ttl)
        then some (prepared_record "m3" MembershipKind.offer "erin" "erin" 10 transaction)
        else none))
unfolding offer_prepare keep_prepared get_creator_covenant get membership_price_problem
    parse_membership_price parse_kas_to_sompi match_price trim trim_start trim_end is_space
    span_digits sompi_of value_from pad_end
offer_prepare_prepared_example =
    offer_prepare_prepared "m3" 10 10 (gateway_of accepted) "erin" two_kas shop transaction 20 refl

finalize_by_others_example :
    let gateway = some (gateway_of accepted) in
    (offer_finalize "m1" 20 gateway "mallory" (some "signed") 20 counter ≡ (not_found, counter))
    × (cancel_finalize "m1" 20 gateway "mallory" (some "signed") 20 counter ≡ (not_found, counter))
    × (price_finalize "m1" 20 gateway "mallory" (some "signed") 20 counter ≡ (not_found, counter))
    × (purchase_finalize "m1" 20 gateway "mallory" (some "signed") 20 (some convinced) counter
        ≡ (not_found, counter))
unfolding get_prepared_membership get
finalize_by_others_example =
    finalize_by_others "m1" 20 (gateway_of accepted) convinced "mallory" (some "signed") 20 counter
      order refl (ground (arith, eq_iff "alice" "mallory")) (ground (arith, eq_iff "bob" "mallory"))

pending_without_transaction_example :
    let gateway = gateway_of unknown in
    let (answer, t) =
      purchase_finalize "m1" 20 (some gateway) "bob" (some "signed") 20 (some convinced) counter in
    (answer ≡ pending none)
    × (purchase_finalize "m1" 30
          (some (gateway_of accepted))
          "bob"
          (some "signed")
          30
          (some convinced)
          t
        ≡ (not_found, t))
unfolding find_prepared get_prepared_membership get
pending_without_transaction_example =
    pending_without_transaction "m1" 20 30 (gateway_of unknown) (gateway_of accepted) convinced
      "bob" "signed" (some "signed") 20 30 counter order unknown refl refl refl refl

abbrev sale : Store
sale =
    (purchase_finalize "m1" 20 (some (gateway_of accepted)) "bob" (some "signed") 20
      (some convinced) counter).1

purchase_finalize_confirmed_example :
    (v : PreparedMembershipRecord) × IsBought "m1" 20
      (gateway_of accepted)
      convinced
      "bob"
      (some "signed")
      20
      counter
      v
      "t9"
    × (get "t9" sale.membership_purchase_records ≡ some (receipt_of v "t9"))
    × (get_membership_workflow "m1" sale ≡ none)
    × (get "m1" sale.prepared_membership_records ≡ none)
unfolding purchase_finalize settle find_prepared get_prepared_membership get accept_purchase
    finalize_membership_purchase create_membership_purchase
purchase_finalize_confirmed_example =
    purchase_finalize_confirmed "m1" 20 (gateway_of accepted) convinced "bob" (some "signed") 20
      counter "t9" refl

purchase_finalize-HasEvidence_example :
    (get "t9" counter.membership_purchase_records ≡ some (receipt_of order "t9"))
    ⊎ ((v : PreparedMembershipRecord) × (t : String) × IsBought "m1" 20
          (gateway_of accepted)
          convinced
          "bob"
          (some "signed")
          20
          counter
          v
          t
        × (receipt_of order "t9" ≡ receipt_of v t))
unfolding purchase_finalize settle find_prepared get_prepared_membership get accept_purchase
    finalize_membership_purchase create_membership_purchase save_membership_workflow
    delete_membership_workflow set
purchase_finalize-HasEvidence_example =
    purchase_finalize-HasEvidence "m1" 20 (gateway_of accepted) convinced "bob" (some "signed") 20
      counter "t9" (receipt_of order "t9") refl

offer_finalize_confirmed_example :
    (v : PreparedMembershipRecord) × IsPreparedFor MembershipKind.offer "m2" "erin" 20 counter v
    × (get_creator_covenant "erin" counter ≡ none)
    × (get_creator_covenant "erin"
          (offer_finalize "m2" 20 (some (gateway_of accepted)) "erin" (some "signed") 20 counter).1
        ≡ some (shown (mapping_of v)))
unfolding offer_finalize settle find_prepared get_prepared_membership get accept_offer
    finalize_offer save_creator_covenant save_new_covenant record_covenant values
offer_finalize_confirmed_example =
    offer_finalize_confirmed "m2" 20 (gateway_of accepted) "erin" (some "signed") 20 counter "t9"
      refl
