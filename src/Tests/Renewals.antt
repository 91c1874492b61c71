-- ===== src/Tests/Renewals.antt =====
-- The reconciler's pass over membership workflows at a concrete store.
use onlykas.Prelude.{◌≡◌, ◌⊎◌, refl, true, none, some, [], ◌∷◌}
use onlykas.Prelude.Sort.{sort, insert_sorted}
use onlykas.Domain.{
  PreparedMembershipRecord, MembershipWorkflow, MembershipPurchase, purchase, submitted,
}
use onlykas.Map.{get, set, delete, values}
use onlykas.Ports.{returns}
use onlykas.Store.Memberships.{
  get_prepared_membership, pending_membership_workflows, claim_membership_workflow_terminal,
  delete_membership_workflow,
}
use onlykas.Store.Purchases.{create_membership_purchase, finalize_membership_purchase}
use onlykas.Reconcile.{Reconciler, Pass}
use onlykas.Reconcile.Memberships.{
  confirm_membership, settle_membership, reconcile_membership, reconcile_each_membership,
  reconcile_memberships, membership_accepted, finalize_membership_record, gateway_accepted,
}
use onlykas.Reconcile.Receipts.{HasAcceptance, reconcile_memberships-HasAcceptance}
use onlykas.Tests.Fixtures.{shop, any_locale, begun}

abbrev mint : PreparedMembershipRecord
mint = record {
  id = "mem1";
  transaction = "tx";
  fingerprint = "f";
  covenant_id = "cov1";
  sign_inputs = [];
  member_output_index = none;
  creator = "alice";
  buyer = "bob";
  kind = purchase;
  expires_at = 60;
  price_sompi = some "5";
}

abbrev minting : MembershipWorkflow
minting = record {
  prepared_membership_id = "mem1";
  state = submitted;
  transaction_id = "m7";
  rejection = none;
  submitted_at = some 10;
  finalized_at = none;
}

abbrev pass : Pass
pass = record begun {
  store = record shop {
    membership_workflows = ("mem1", minting) ∷ [];
    prepared_membership_records = ("mem1", mint) ∷ [];
  };
}

abbrev accepts_all : Reconciler
accepts_all = record {
  locale = any_locale;
  payment_gateway = none;
  membership_gateway = some (record {
    status = some (λ transaction.
        returns (record {
          is_accepted = some true;
          transaction_id = some transaction;
          rejection = none;
        }));
  });
  membership_verifier = none;
  batch_size = 100;
  stale_workflow_ms = 1000;
}

abbrev receipt : MembershipPurchase
receipt = record {
  transaction_id = "m7";
  buyer = "bob";
  creator = "alice";
  covenant_id = some "cov1";
}

written :
    get "m7" (reconcile_memberships accepts_all 40 pass).store.membership_purchase_records
    ≡ some receipt
unfolding reconcile_memberships reconcile_each_membership reconcile_membership settle_membership
    confirm_membership membership_accepted gateway_accepted finalize_membership_record
    finalize_membership_purchase create_membership_purchase get_prepared_membership
    pending_membership_workflows claim_membership_workflow_terminal delete_membership_workflow get
    set delete values sort insert_sorted
written = refl

reconcile_memberships-HasAcceptance_example :
    (get "m7" pass.store.membership_purchase_records ≡ some receipt)
    ⊎ HasAcceptance accepts_all 40 pass.store
        (pending_membership_workflows any_locale 100 pass.store)
        receipt
reconcile_memberships-HasAcceptance_example =
    reconcile_memberships-HasAcceptance accepts_all 40 pass "m7" receipt written
