-- ===== src/Reconcile/Memberships.antt =====
-- backend/src/application/reconcile-workflows.ts: the pass over the membership workflows.
use onlykas.Prelude.{
  ℕ, ◌+◌, String, Bool, true, ◌||◌, Option, none, some, List, [], ◌∷◌, ltb, is_some, get_or,
  if◌then◌else◌,
}
use onlykas.Domain.{
  MembershipWorkflow, PreparedMembershipRecord, MembershipCheckStatus, valid, expired, confirmed,
  rejected, offer, purchase, update, cancel,
}
use onlykas.Ports.{Call, returns, throws, ◌>>=◌, MembershipGateway}
use onlykas.Store.{Store}
use onlykas.Store.Memberships.{
  get_prepared_membership, pending_membership_workflows, claim_membership_workflow_terminal,
  delete_membership_workflow,
}
use onlykas.Store.Purchases.{finalize_membership_purchase}
use onlykas.Store.Covenants.{finalize_offer, finalize_price_update, finalize_cancellation}
use onlykas.Reconcile.{Reconciler, Pass, workflow_age, scan}

unfoldable pub gateway_accepted : Option MembershipGateway → String → Call (Option Bool)
gateway_accepted none transaction_id = returns none
gateway_accepted (some gateway) transaction_id = elim gateway.status [
  | none ↦ returns none
  | some status ↦ do submission ← status transaction_id; returns submission.is_accepted
]

-- `check.status === "VALID" || check.status === "EXPIRED"` is true, anything else unknown.
abbrev pub check_accepted : MembershipCheckStatus → Option Bool
check_accepted valid = some true
check_accepted expired = some true
check_accepted _ = none

unfoldable pub membership_accepted :
    Reconciler → String → PreparedMembershipRecord → Call (Option Bool)
unfolding gateway_accepted
membership_accepted d transaction_id prepared = elim d.membership_verifier [
  | none ↦ gateway_accepted d.membership_gateway transaction_id
  | some verifier ↦ elim prepared.kind [
    | purchase ↦ elim prepared.member_output_index [
      | none ↦ gateway_accepted d.membership_gateway transaction_id
      | some index ↦ do
        check ←
            verifier.verify_utxo transaction_id index prepared.buyer prepared.covenant_id
              prepared.creator
        returns (check_accepted check.status)
    ]
    | _ ↦ gateway_accepted d.membership_gateway transaction_id
  ]
]

unfoldable pub finalize_membership_record : PreparedMembershipRecord → String → Store → Store
finalize_membership_record prepared transaction_id s = elim prepared.kind [
  | offer ↦
      (finalize_offer prepared.id
        (record {
          creator = prepared.creator;
          covenant_id = prepared.covenant_id;
          price_sompi = get_or prepared.price_sompi "0";
          status = none;
        })
        s).1
  | update ↦
      (finalize_price_update prepared.id
        (record {
          creator = prepared.creator;
          covenant_id = prepared.covenant_id;
          price_sompi = get_or prepared.price_sompi "0";
          status = none;
        })
        s).1
  | cancel ↦ (finalize_cancellation prepared.id prepared.creator prepared.covenant_id s).1
  | purchase ↦
      (finalize_membership_purchase prepared.id
        (record {
          transaction_id = transaction_id;
          buyer = prepared.buyer;
          creator = prepared.creator;
          covenant_id = some prepared.covenant_id;
        })
        s).1
]

module _ (w : MembershipWorkflow) (now : ℕ) where
  unfoldable pub abandon_membership : String → Pass → Pass
  abandon_membership reason p =
      let (claimed, s) =
        claim_membership_workflow_terminal w.prepared_membership_id rejected now (some reason)
          p.store in
      if is_some claimed
      then record {
        summary = record p.summary { abandoned = p.summary.abandoned + 1 };
        store = delete_membership_workflow w.prepared_membership_id s;
      }
      else record p { store = s }

  unfoldable pub reject_membership : Pass → Pass
  reject_membership p =
      let (claimed, s) =
        claim_membership_workflow_terminal w.prepared_membership_id rejected now
          (some "RECONCILED_REJECTED") p.store in
      if is_some claimed
      then record {
        summary = record p.summary { rejected = p.summary.rejected + 1 };
        store = delete_membership_workflow w.prepared_membership_id s;
      }
      else record p { store = s }

  unfoldable pub confirm_membership : PreparedMembershipRecord → Pass → Pass
  confirm_membership prepared p =
      let (claimed, s) =
        claim_membership_workflow_terminal w.prepared_membership_id confirmed now none p.store in
      if is_some claimed
      then record {
        summary = record p.summary { confirmed = p.summary.confirmed + 1 };
        store =
            delete_membership_workflow w.prepared_membership_id
              (finalize_membership_record prepared w.transaction_id s);
      }
      else record p { store = s }

  unfoldable pub retry_or_abandon_membership : ℕ → Pass → Pass
  retry_or_abandon_membership stale p =
      if ltb stale (workflow_age w.submitted_at now)
      then abandon_membership "unconfirmed_timeout" p
      else record p { summary = record p.summary { retried = p.summary.retried + 1 } }

  unfoldable pub settle_membership : ℕ → PreparedMembershipRecord → Call (Option Bool) → Pass → Pass
  settle_membership stale prepared throws p = p
  settle_membership stale prepared (returns accepted) p = elim accepted [
    | none ↦ retry_or_abandon_membership stale p
    | some decided ↦ if decided then confirm_membership prepared p else reject_membership p
  ]

unfoldable pub reconcile_membership : Reconciler → MembershipWorkflow → ℕ → Pass → Pass
reconcile_membership d w now p =
    elim (get_prepared_membership w.prepared_membership_id now p.store) [
      | none ↦ abandon_membership w now "prepared_missing" p
      | some prepared ↦
          settle_membership w now d.stale_workflow_ms prepared
            (membership_accepted d w.transaction_id prepared) p
    ]

unfoldable pub reconcile_each_membership : Reconciler → ℕ → List MembershipWorkflow → Pass → Pass
reconcile_each_membership d now [] p = p
reconcile_each_membership d now (w ∷ ws) p =
    reconcile_each_membership d now ws (reconcile_membership d w now (scan p))

unfoldable pub reconcile_memberships : Reconciler → ℕ → Pass → Pass
reconcile_memberships d now p =
    if is_some d.membership_verifier || is_some d.membership_gateway
    then reconcile_each_membership d now
        (pending_membership_workflows d.locale d.batch_size p.store) p
    else p
