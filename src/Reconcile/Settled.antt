-- ===== src/Reconcile/Settled.antt =====
-- backend/src/application/reconcile-workflows.ts: what one turn of the memberships' pass does to the
-- membership receipts and to the prepared records.
use onlykas.Prelude.{
  ℕ, String, ◌≡◌, refl, Bool, true, false, Option, none, some, arith, eq_iff, ◌⊎◌, inl, inr,
  Bool-cases, Option-cases, is_some, get_or,
}
use onlykas.Map.{get, set, delete}
use onlykas.Map.Laws.{get-set, get-delete}
use onlykas.Domain.{
  CreatorCovenant, MembershipWorkflow, PreparedMembershipRecord, MembershipPurchase, MembershipKind,
  WorkflowState, confirmed, rejected, purchase, offer, update, cancel,
}
use onlykas.Ports.{Call, returns, throws}
use onlykas.Store.{Store}
use onlykas.Store.Op.{Op, apply}
use onlykas.Store.Frames.{frame}
use onlykas.Store.Covenants.{
  finalize_offer, finalize_price_update, finalize_cancellation, save_creator_covenant,
  save_new_covenant, record_covenant,
}
use onlykas.Store.Purchases.{create_membership_purchase, finalize_membership_purchase}
use onlykas.Store.Memberships.{
  get_prepared_membership, claim_membership_workflow_terminal, delete_membership_workflow,
}
use onlykas.Reconcile.{Reconciler, Pass}
use onlykas.Reconcile.Memberships.{
  abandon_membership, reject_membership, confirm_membership, retry_or_abandon_membership,
  settle_membership, reconcile_membership, membership_accepted, finalize_membership_record,
}

-- The receipt that a transaction and the record prepared for it stand for.
abbrev pub receipt_of : PreparedMembershipRecord → String → MembershipPurchase
receipt_of r transaction = record {
  transaction_id = transaction;
  buyer = r.buyer;
  creator = r.creator;
  covenant_id = some r.covenant_id;
}

-- Receipts stay, and prepared records at most go.
pub record Advances (s t : Store) : Type 0 where
  pub receipts :
      (i : String) (x : MembershipPurchase)
      → get i s.membership_purchase_records ≡ some x
      → get i t.membership_purchase_records ≡ some x
  pub prepared :
      (i : String) (r : PreparedMembershipRecord)
      → get i t.prepared_membership_records ≡ some r
      → get i s.prepared_membership_records ≡ some r

abbrev SameReceipts : Store → Store → Type 0
SameReceipts s t =
    (t.membership_purchase_records ≡ s.membership_purchase_records)
    × (t.prepared_membership_records ≡ s.prepared_membership_records)

-- The receipts are as before, and one prepared record is gone.
abbrev Drops : String → Store → Store → Type 0
Drops id s t =
    (t.membership_purchase_records ≡ s.membership_purchase_records)
    × (t.prepared_membership_records ≡ delete id s.prepared_membership_records)

module _ (id : String) (s : Store) where
  offer-Drops : (v : CreatorCovenant) → Drops id s (finalize_offer id v s).1
  unfolding finalize_offer save_creator_covenant save_new_covenant record_covenant
  offer-Drops v = ground arith

  update-Drops : (v : CreatorCovenant) → Drops id s (finalize_price_update id v s).1
  unfolding finalize_price_update record_covenant
  update-Drops v = elim (Option-cases (get v.creator s.creator_covenants)) [
    | inl e ↦ (ground arith, ground arith)
    | inr (c, e) ↦ (ground arith, ground arith)
  ]

  cancellation-Drops :
      (creator covenant_id : String) → Drops id s (finalize_cancellation id creator covenant_id s).1
  unfolding finalize_cancellation
  cancellation-Drops creator covenant_id = elim (Option-cases (get creator s.creator_covenants)) [
    | inl e ↦ (ground arith, ground arith)
    | inr (c, e) ↦ (ground arith, ground arith)
  ]

  purchase-finalized :
      (v : MembershipPurchase)
      → let t = (finalize_membership_purchase id v s).1 in
        (t.prepared_membership_records ≡ delete id s.prepared_membership_records)
        × ((t.membership_purchase_records ≡ s.membership_purchase_records)
            ⊎ (get v.transaction_id s.membership_purchase_records ≡ none)
              × (t.membership_purchase_records
                  ≡ set v.transaction_id v s.membership_purchase_records))
  unfolding finalize_membership_purchase create_membership_purchase
  purchase-finalized v = elim (Option-cases (get v.transaction_id s.membership_purchase_records)) [
    | inl e ↦ (ground arith, inr (e, ground arith))
    | inr (c, e) ↦ (ground arith, inl (ground arith))
  ]

Kind-cases : (k : MembershipKind) → (k ≡ offer) ⊎ (k ≡ update) ⊎ (k ≡ cancel) ⊎ (k ≡ purchase)
Kind-cases offer = inl refl
Kind-cases update = inr (inl refl)
Kind-cases cancel = inr (inr (inl refl))
Kind-cases purchase = inr (inr (inr refl))

abbrev covenant_of : PreparedMembershipRecord → CreatorCovenant
covenant_of r = record {
  creator = r.creator;
  covenant_id = r.covenant_id;
  price_sompi = get_or r.price_sompi "0";
  status = none;
}

-- The kinds of a finalization: it writes no receipt, or it is that of a purchase.
finalized-cases :
    (r : PreparedMembershipRecord) (transaction : String) (s : Store)
    → Drops r.id s (finalize_membership_record r transaction s)
      ⊎ (r.kind ≡ purchase)
        × (finalize_membership_record r transaction s
            ≡ (finalize_membership_purchase r.id (receipt_of r transaction) s).1)
unfolding finalize_membership_record
finalized-cases r transaction s = elim (Kind-cases r.kind) [
  | inl e ↦ inl (rw (e, finalize_membership_record) (offer-Drops r.id s (covenant_of r)))
  | inr (inl e) ↦ inl (rw (e, finalize_membership_record) (update-Drops r.id s (covenant_of r)))
  | inr (inr (inl e)) ↦
      inl (rw (e, finalize_membership_record) (cancellation-Drops r.id s r.creator r.covenant_id))
  | inr (inr (inr e)) ↦ inr (e, rw (e, finalize_membership_record) refl)
]

pub same-Advances : (s t : Store) → SameReceipts s t → Advances s t
same-Advances s t (receipts, prepared) = record {
  receipts = λ i x e. rw receipts e;
  prepared = λ i r e. ground (arith, prepared, e);
}

pub Advances-trans : (s t u : Store) → Advances s t → Advances t u → Advances s u
Advances-trans s t u a b = record {
  receipts = λ i x e. b.receipts i x (a.receipts i x e);
  prepared = λ i r e. a.prepared i r (b.prepared i r e);
}

module _ (r : PreparedMembershipRecord) (transaction : String) (s : Store) where
  abbrev fin : Store
  fin = finalize_membership_record r transaction s

  pub fin-Advances : Advances s fin
  fin-Advances = elim (finalized-cases r transaction s) [
    | inl (receipts, prepared) ↦ record {
      receipts = λ i x e. ground (arith, receipts, e);
      prepared =
          λ i x e. ground (arith, prepared, e, get-delete r.id i s.prepared_membership_records);
    }
    | inr (kind, same) ↦
        let (prepared, written) = purchase-finalized r.id s (receipt_of r transaction) in
        record {
          receipts = λ i x e. ground (
            arith,
            same,
            written,
            e,
            eq_iff transaction i,
            get-set transaction i (receipt_of r transaction) s.membership_purchase_records,
          );
          prepared = λ i x e.
              ground (arith, same, prepared, e, get-delete r.id i s.prepared_membership_records);
        }
  ]

  pub fin-new :
      (i : String) (x : MembershipPurchase)
      → get i s.membership_purchase_records ≡ none
      → get i fin.membership_purchase_records ≡ some x
      → (r.kind ≡ purchase) × (x ≡ receipt_of r transaction)
  fin-new i x before e = elim (finalized-cases r transaction s) [
    | inl (receipts, prepared) ↦ absurd (ground (arith, receipts, e, before))
    | inr (kind, same) ↦ (
      kind,
      ground (
        arith,
        same,
        (purchase-finalized r.id s (receipt_of r transaction)).1,
        e,
        before,
        eq_iff transaction i,
        get-set transaction i (receipt_of r transaction) s.membership_purchase_records,
      ),
    )
  ]

module _ (w : MembershipWorkflow) (now : ℕ) (p : Pass) where
  claim_same :
      (state : WorkflowState) (rejection : Option String)
      → SameReceipts p.store
          (claim_membership_workflow_terminal w.prepared_membership_id state now rejection
            p.store).1
  unfolding apply
  claim_same state rejection =
      let f =
        frame (Op.claim_membership_workflow_terminal w.prepared_membership_id state now rejection)
          p.store in
      (f.membership_purchase_records refl, f.prepared_membership_records refl)

  abandon_same : (reason : String) → SameReceipts p.store (abandon_membership w now reason p).store
  unfolding abandon_membership delete_membership_workflow
  abandon_same reason = ground (arith, claim_same rejected (some reason))

  reject_same : SameReceipts p.store (reject_membership w now p).store
  unfolding reject_membership delete_membership_workflow
  reject_same = ground (arith, claim_same rejected (some "RECONCILED_REJECTED"))

  -- A confirmation writes what the finalization of the record writes, if the claim is won.
  abbrev Confirmed : PreparedMembershipRecord → Pass → Type 0
  Confirmed r q =
      (s : Store) × SameReceipts p.store s
      × SameReceipts (finalize_membership_record r w.transaction_id s) q.store

  confirm-cases :
      (r : PreparedMembershipRecord)
      → SameReceipts p.store (confirm_membership w now r p).store
        ⊎ Confirmed r (confirm_membership w now r p)
  unfolding confirm_membership delete_membership_workflow
  confirm-cases r =
      let claim =
        claim_membership_workflow_terminal w.prepared_membership_id confirmed now none p.store in
      elim (Bool-cases (is_some claim.0)) [
        | inl won ↦
            inr (claim.1, claim_same confirmed none, rw (won, confirm_membership) (refl, refl))
        | inr lost ↦ inl (rw (lost, confirm_membership) (claim_same confirmed none))
      ]

  settle-cases :
      (stale : ℕ) (r : PreparedMembershipRecord) (answer : Call (Option Bool))
      → SameReceipts p.store (settle_membership w now stale r answer p).store
        ⊎ (answer ≡ returns (some true)) × Confirmed r (settle_membership w now stale r answer p)
  unfolding settle_membership retry_or_abandon_membership
  settle-cases stale r throws = inl (refl, refl)
  settle-cases stale r (returns none) = inl (ground (arith, abandon_same "unconfirmed_timeout"))
  settle-cases stale r (returns (some false)) = inl reject_same
  settle-cases stale r (returns (some true)) = elim (confirm-cases r) [
    | inl same ↦ inl same
    | inr done ↦ inr (refl, done)
  ]

  pub turn-cases :
      (d : Reconciler)
      → let q = reconcile_membership d w now p in
        SameReceipts p.store q.store
        ⊎ ((r : PreparedMembershipRecord) × (get_prepared_membership w.prepared_membership_id now
                p.store
              ≡ some r)
            × (membership_accepted d w.transaction_id r ≡ returns (some true))
            × Confirmed r q)
  unfolding reconcile_membership
  turn-cases d =
      elim (Option-cases (get_prepared_membership w.prepared_membership_id now p.store)) [
        | inl e ↦ inl (rw (e, reconcile_membership) (abandon_same "prepared_missing"))
        | inr (r, e) ↦
            elim (settle-cases d.stale_workflow_ms r (membership_accepted d w.transaction_id r)) [
              | inl same ↦ inl (rw (e, reconcile_membership) same)
              | inr (accepted, done) ↦ inr (r, e, accepted, rw (e, reconcile_membership) done)
            ]
      ]
