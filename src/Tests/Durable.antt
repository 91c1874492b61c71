-- ===== src/Tests/Durable.antt =====
-- The durable store at concrete inputs.
use onlykas.Prelude.{
  ℕ, ◌≡◌, refl, true, ◌==◌, none, some, List, [], ◌∷◌, ◌++◌, arith, if◌then◌else◌,
}
use onlykas.Prelude.Int.{pos}
use onlykas.Prelude.Lists.{any}
use onlykas.Domain.{
  PreparedMembershipRecord, MembershipKind, confirmed, rejected, created, duplicate,
}
use onlykas.Ports.{returns}
use onlykas.Sql.{insert, update, upsert}
use onlykas.Map.{get, set, delete}
use onlykas.Store
use onlykas.Store.Op
use onlykas.Store.Op.{Op}
use onlykas.Store.Auth.{
  create_challenge, create_session, save_profile, get_session, consume_challenge,
}
use onlykas.Store.Purchases.{finalize_purchase, create_purchase, purchase_key}
use onlykas.Store.Payments.{
  save_prepared_payment, save_payment_workflow, get_prepared_payment, get_payment_workflow,
}
use onlykas.Durable.{Database, CovenantRow, empty}
use onlykas.Durable.Rows.{
  Json, array, no_array, integer, covenant_row, number, nullable_number, prepared_membership_row,
  prepared_membership_from_row,
}
use onlykas.Durable.Auth
use onlykas.Durable.Payments
use onlykas.Durable.Calls
use onlykas.Durable.Mirrors.{Mirrors, workflow_row}
use onlykas.Durable.Refines.{AcceptsAll, AreUnfinal, history-Mirrors}
use onlykas.Durable.Reads.{IsSafeStore, history_answers}
use onlykas.Durable.Roundtrip.{prepared_membership_roundtrip}
use onlykas.Durable.Claims.{durable_claim_once}
use onlykas.Durable.Constraints.Unique.{IsUnique, durable_history-IsUnique}
use onlykas.Durable.Covenants.{finalize_offer, get_creator_covenant}
use onlykas.Durable.Offers.{shown, durable_offer_outcome}
use onlykas.Durable.Feedback.{FeedbackEntry, claim_feedback}
use onlykas.Durable.Leases.{lease_is_exclusive}
use onlykas.Durable.Feedback.{due_feedback}
use onlykas.Prelude.Sort.{sort, insert_sorted}
use onlykas.Prelude.{false}
use onlykas.Durable.Migrations.{
  Migration, Schema, AllApplied, apply_migration, apply_each, apply_migrations, migrations_once,
}
use onlykas.Tests.Fixtures.{challenge, session, profile, receipt, prepared, workflow, ended}

-- JSON that knows one array and an object.
abbrev any_json : Json
any_json = record {
  stringify = λ inputs. "[0]";
  parse = λ t. returns (if t == "[0]" then array (integer (pos 0) ∷ []) else no_array);
}

abbrev calls : List Op
calls =
    Op.create_challenge challenge
    ∷ Op.create_session session
    ∷ Op.save_profile profile
    ∷ Op.save_prepared_payment prepared
    ∷ Op.save_payment_workflow workflow 10
    ∷ Op.consume_challenge "c1" 20
    ∷ Op.finalize_purchase "pay2" receipt
    ∷ []

accepts_calls : AcceptsAll any_json calls empty
unfolding Calls.apply Auth.create_challenge Auth.create_session Auth.save_profile
    Auth.consume_challenge Payments.save_prepared_payment Payments.save_payment_workflow insert
    update upsert
accepts_calls = (refl, (refl, (refl, (refl, (tt, (tt, (tt, tt)))))))

are_unfinal : AreUnfinal calls Store.empty
unfolding Op.apply get create_challenge create_session save_profile save_prepared_payment
are_unfinal = (tt, (tt, (tt, (tt, ((refl, λ w e. ground (arith, e)), (tt, (tt, tt)))))))

history-Mirrors_example :
    Mirrors any_json (Calls.run any_json calls empty) (Op.run calls Store.empty)
history-Mirrors_example = history-Mirrors any_json calls accepts_calls are_unfinal

durable_history-IsUnique_example : IsUnique (Calls.run any_json calls empty)
durable_history-IsUnique_example = durable_history-IsUnique any_json calls

calls_are_safe : IsSafeStore (Op.run calls Store.empty)
unfolding Op.run Op.apply get set create_challenge create_session save_profile save_prepared_payment
    save_payment_workflow consume_challenge finalize_purchase create_purchase purchase_key delete
calls_are_safe = record {
  challenges = λ i v e. ground (arith, e);
  sessions = λ i v e. ground (arith, e);
  payments = λ i v e. ground (arith, e);
  workflows = λ i v e. ground (arith, e);
}

history_answers_example :
    let db = Calls.run any_json calls empty in
    let s = Op.run calls Store.empty in
    (Auth.get_session "s1" 30 db ≡ returns (get_session "s1" 30 s))
    × (Payments.get_prepared_payment "s1" 30 db ≡ returns (get_prepared_payment "s1" 30 s))
    × (Payments.get_payment_workflow "s1" db ≡ returns (get_payment_workflow "s1" s))
    × ((Auth.consume_challenge "s1" 30 db).0 ≡ returns (consume_challenge "s1" 30 s).0)
history_answers_example =
    history_answers any_json calls "s1" 30 accepts_calls are_unfinal calls_are_safe (omega arith)

-- The database after the calls on payments.
abbrev started : Database
started = record empty {
  payment_workflows = workflow_row workflow ∷ [];
  creator_covenants = record (covenant_row ended) { status = "CANCELED" } ∷ [];
  creator_covenant_history = record (covenant_row ended) { status = "CANCELED" } ∷ [];
}

durable_claim_once_example :
    (Payments.claim_payment_workflow_terminal "pay1" rejected 30 none (
      Calls.run any_json
        (Op.save_payment_workflow workflow 25 ∷ [])
        (Payments.claim_payment_workflow_terminal "pay1" confirmed 20 none started).1)).0
    ≡ returns none
unfolding Payments.claim_payment_workflow_terminal nullable_number number
durable_claim_once_example =
    durable_claim_once any_json "pay1" confirmed rejected 20 20 30 none none
      (Op.save_payment_workflow workflow 25 ∷ []) started refl (λ x. x, tt)

durable_offer_outcome_example :
    ((finalize_offer "m1" ended started).0 ≡ (
      if any (λ (r : CovenantRow). r.covenant_id == "cov2") started.creator_covenant_history
      then duplicate
      else created))
    × (get_creator_covenant "dora" (finalize_offer "m1" ended started).1 ≡ some (shown ended))
    × ((finalize_offer "m1" ended started).1.creator_covenant_history ≡ (
        if any (λ (r : CovenantRow). r.covenant_id == "cov2") started.creator_covenant_history
        then started.creator_covenant_history
        else started.creator_covenant_history ++ (covenant_row ended ∷ [])))
unfolding covenant_row
durable_offer_outcome_example = durable_offer_outcome "m1" ended started refl refl

abbrev reported : Database
reported = record empty {
  feedback_outbox =
      record {
        id = "f1";
        message = "thanks";
        received_at = "2026";
        attempts = 0;
        lease_until = none;
      }
      ∷ [];
}

lease_is_exclusive_example :
    any
      (λ (e : FeedbackEntry). e.id == "f1")
      (claim_feedback (λ a b. true) 5 60 130 (claim_feedback (λ a b. true) 5 60 100 reported).1).0
    ≡ false
unfolding claim_feedback due_feedback sort insert_sorted
lease_is_exclusive_example =
    lease_is_exclusive (λ a b. true) 5 60 100 5 60 130 "f1" reported refl (omega arith)

abbrev membership : PreparedMembershipRecord
membership = record {
  id = "m1";
  transaction = "{}";
  fingerprint = "f";
  covenant_id = "cov1";
  sign_inputs = 0 ∷ [];
  member_output_index = some 1;
  creator = "alice";
  buyer = "bob";
  kind = MembershipKind.purchase;
  expires_at = 60;
  price_sompi = some "5";
}

prepared_membership_roundtrip_example :
    prepared_membership_from_row any_json (prepared_membership_row any_json membership)
    ≡ returns membership
prepared_membership_roundtrip_example =
    prepared_membership_roundtrip any_json membership no_array refl refl (omega arith, tt)
      (omega arith) (omega arith)

abbrev new_schema : Schema ℕ
new_schema = record { applied = []; content = 0 }

abbrev first_migration : List Migration
first_migration = record { version = 1; name = "canonical_schema"; statements = [] } ∷ []

migrations_once_example :
    let (b, s) = apply_migrations (λ _ d. returns d) first_migration new_schema in
    AllApplied s first_migration
    × (apply_migrations (λ _ d. returns d) first_migration s ≡ (true, s))
unfolding apply_migrations apply_each apply_migration
migrations_once_example = migrations_once (λ _ d. returns d) first_migration new_schema refl
