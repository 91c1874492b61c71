-- ===== src/Reconcile/Receipts.antt =====
-- backend/src/application/reconcile-workflows.ts: a membership receipt that the memberships' pass writes
-- is backed by the chain.
use onlykas.Prelude.{
  ℕ, ◌<◌, String, ◌≡◌, refl, true, none, some, List, [], ◌∷◌, arith, ◌⊎◌, inl, inr, Option-cases,
}
use onlykas.Prelude.Lists.{In}
use onlykas.Map.{get}
use onlykas.Domain.{
  MembershipWorkflow, PreparedMembershipRecord, MembershipPurchase, MembershipCheck,
  MembershipCheckStatus, PaymentSubmission, purchase,
}
use onlykas.Ports.{Call, returns, Call-cases, MembershipGateway, MembershipVerifier}
use onlykas.Store.{Store}
use onlykas.Store.Memberships.{get_prepared_membership, pending_membership_workflows}
use onlykas.Reconcile.{Reconciler, Pass, scan}
use onlykas.Reconcile.Memberships.{
  reconcile_membership, reconcile_each_membership, reconcile_memberships, membership_accepted,
  finalize_membership_record, gateway_accepted, check_accepted,
}
use onlykas.Reconcile.Settled.{
  receipt_of, Advances, same-Advances, Advances-trans, fin-Advances, fin-new, turn-cases,
}

-- The gateway of memberships tells of submissions, and says that the transaction was accepted.
abbrev pub GatewayAccepts : Reconciler → String → Type 0
GatewayAccepts d t =
    (g : MembershipGateway) × (status : String → Call PaymentSubmission) × (a : PaymentSubmission)
    × (d.membership_gateway ≡ some g)
    × (g.status ≡ some status)
    × (status t ≡ returns a)
    × (a.is_accepted ≡ some true)

-- The verifier's check of the output that was prepared, for its buyer, covenant and creator, is valid
-- or expired.
abbrev pub VerifierAccepts : MembershipVerifier → String → PreparedMembershipRecord → Type 0
VerifierAccepts verifier t r =
    (index : ℕ) × (c : MembershipCheck) × (r.member_output_index ≡ some index)
    × (verifier.verify_utxo t index r.buyer r.covenant_id r.creator ≡ returns c)
    × ((c.status ≡ MembershipCheckStatus.valid) ⊎ (c.status ≡ MembershipCheckStatus.expired))

-- Where there is a verifier and an output was prepared the verifier accepts it, otherwise the gateway
-- accepts the transaction.
abbrev pub IsAccepted : Reconciler → String → PreparedMembershipRecord → Type 0
IsAccepted d t r =
    ((v : MembershipVerifier) × (d.membership_verifier ≡ some v) × VerifierAccepts v t r)
    ⊎ (((d.membership_verifier ≡ none) ⊎ (r.member_output_index ≡ none)) × GatewayAccepts d t)

-- `x` is the receipt of a workflow among `ws` whose transaction was accepted, by the verifier or by the
-- gateway, and of the unexpired record of a purchase that the server prepared for it.
pub record HasAcceptance (d : Reconciler) (now : ℕ) (s : Store) (ws : List MembershipWorkflow)
    (x : MembershipPurchase) : Type 0 where
  pub workflow : MembershipWorkflow
  pub record_of : PreparedMembershipRecord
  pub listed : In workflow ws
  pub accepted : IsAccepted d workflow.transaction_id record_of
  pub stored : get workflow.prepared_membership_id s.prepared_membership_records ≡ some record_of
  pub unexpired : now < record_of.expires_at
  pub kind : record_of.kind ≡ purchase
  pub written : x ≡ receipt_of record_of workflow.transaction_id

check_accepted_lem :
    (status : MembershipCheckStatus)
    → check_accepted status ≡ some true
    → (status ≡ MembershipCheckStatus.valid) ⊎ (status ≡ MembershipCheckStatus.expired)
check_accepted_lem MembershipCheckStatus.valid e = inl refl
check_accepted_lem MembershipCheckStatus.expired e = inr refl
check_accepted_lem MembershipCheckStatus.owner_mismatch e = absurd (cc e)
check_accepted_lem MembershipCheckStatus.not_membership e = absurd (cc e)

gateway_accepted-GatewayAccepts :
    (d : Reconciler) (t : String)
    → gateway_accepted d.membership_gateway t ≡ returns (some true)
    → GatewayAccepts d t
unfolding gateway_accepted
gateway_accepted-GatewayAccepts d t e = elim (Option-cases d.membership_gateway) [
  | inl f ↦ absurd (ground (arith, e, f))
  | inr (g, f) ↦ elim (Option-cases g.status) [
    | inl h ↦ absurd (ground (arith, e, f, h))
    | inr (status, h) ↦ elim (Call-cases (status t)) [
      | inl i ↦ absurd (ground (arith, e, f, h, i))
      | inr (a, i) ↦ (g, status, a, f, h, i, ground (arith, e, f, h, i))
    ]
  ]
]

membership_accepted-IsAccepted :
    (d : Reconciler) (t : String) (r : PreparedMembershipRecord)
    → r.kind ≡ purchase
    → membership_accepted d t r ≡ returns (some true)
    → IsAccepted d t r
unfolding membership_accepted
membership_accepted-IsAccepted d t r k e = elim (Option-cases d.membership_verifier) [
  | inl f ↦ inr (inl f, gateway_accepted-GatewayAccepts d t (ground (arith, e, f)))
  | inr (v, f) ↦ elim (Option-cases r.member_output_index) [
    | inl g ↦ inr (inr g, gateway_accepted-GatewayAccepts d t (ground (arith, e, f, g, k)))
    | inr (index, g) ↦ elim (Call-cases (v.verify_utxo t index r.buyer r.covenant_id r.creator)) [
      | inl h ↦ absurd (ground (arith, e, f, g, h, k))
      | inr (c, h) ↦
          inl (v, f, (index, c, g, h, check_accepted_lem c.status (ground (arith, e, f, g, h, k))))
    ]
  ]
]

found_record :
    (id : String) (now : ℕ) (r : PreparedMembershipRecord) (s : Store)
    → get_prepared_membership id now s ≡ some r
    → (get id s.prepared_membership_records ≡ some r) × (now < r.expires_at)
unfolding get_prepared_membership
found_record id now r s e = ground arith

module _ (d : Reconciler) (now : ℕ) where
  turn-Advances :
      (w : MembershipWorkflow) (p : Pass) → Advances p.store (reconcile_membership d w now p).store
  turn-Advances w p = elim (turn-cases w now p d) [
    | inl same ↦ same-Advances p.store (reconcile_membership d w now p).store same
    | inr (r, e, accepted, (s, before, after)) ↦
        let f = finalize_membership_record r w.transaction_id s in
        Advances-trans p.store s (reconcile_membership d w now p).store
          (same-Advances p.store s before)
          (Advances-trans s f (reconcile_membership d w now p).store
            (fin-Advances r w.transaction_id s)
            (same-Advances f (reconcile_membership d w now p).store after))
  ]

  turn-new :
      (w : MembershipWorkflow) (p : Pass) (i : String) (x : MembershipPurchase)
      → get i p.store.membership_purchase_records ≡ none
      → get i (reconcile_membership d w now p).store.membership_purchase_records ≡ some x
      → HasAcceptance d now p.store (w ∷ []) x
  turn-new w p i x before e = elim (turn-cases w now p d) [
    | inl (receipts, prepared) ↦ absurd (ground (arith, receipts, e, before))
    | inr (r, found, accepted, (s, (same, kept), (after, gone))) ↦
        let (kind, written) =
          fin-new r w.transaction_id s i x (ground (arith, same, before))
            (ground (arith, after, e)) in
        record {
          workflow = w;
          record_of = r;
          listed = inl refl;
          accepted = membership_accepted-IsAccepted d w.transaction_id r kind accepted;
          stored = (found_record w.prepared_membership_id now r p.store found).0;
          unexpired = (found_record w.prepared_membership_id now r p.store found).1;
          kind = kind;
          written = written;
        }
  ]

  each-Advances :
      (ws : List MembershipWorkflow) (p : Pass)
      → Advances p.store (reconcile_each_membership d now ws p).store
  unfolding reconcile_each_membership
  each-Advances [] p = same-Advances p.store p.store (refl, refl)
  each-Advances (w ∷ ws) p =
      let q = reconcile_membership d w now (scan p) in
      Advances-trans p.store q.store (reconcile_each_membership d now ws q).store
        (turn-Advances w (scan p)) (each-Advances ws q)

  moved :
      (ws vs : List MembershipWorkflow) (s t : Store) (x : MembershipPurchase)
      → ((w : MembershipWorkflow) → In w ws → In w vs)
      → Advances s t
      → HasAcceptance d now t ws x
      → HasAcceptance d now s vs x
  moved ws vs s t x more a h = record {
    workflow = h.workflow;
    record_of = h.record_of;
    listed = more h.workflow h.listed;
    accepted = h.accepted;
    stored = a.prepared h.workflow.prepared_membership_id h.record_of h.stored;
    unexpired = h.unexpired;
    kind = h.kind;
    written = h.written;
  }

  each-new :
      (ws : List MembershipWorkflow) (p : Pass) (i : String) (x : MembershipPurchase)
      → get i p.store.membership_purchase_records ≡ none
      → get i (reconcile_each_membership d now ws p).store.membership_purchase_records ≡ some x
      → HasAcceptance d now p.store ws x
  unfolding reconcile_each_membership
  each-new [] p i x h e = absurd (cc)
  each-new (w ∷ ws) p i x h e =
      let q = reconcile_membership d w now (scan p) in
      elim (Option-cases (get i q.store.membership_purchase_records)) [
        | inl none_yet ↦
            moved ws (w ∷ ws) p.store q.store x (λ v m. inr m) (turn-Advances w (scan p))
              (each-new ws q i x none_yet e)
        | inr (y, done) ↦
            let same : x ≡ y = cc ((each-Advances ws q).receipts i y done) in
            rw same (
              moved (w ∷ []) (w ∷ ws) p.store p.store y (only w ws)
                (same-Advances p.store p.store (refl, refl)) (turn-new w (scan p) i y h done))
      ]
    where
      only :
          (w : MembershipWorkflow) (ws : List MembershipWorkflow) (v : MembershipWorkflow)
          → In v (w ∷ [])
          → In v (w ∷ ws)
      only w ws v (inl e) = inl e
      only w ws v (inr e) = absurd e

-- Every membership receipt that is stored after the memberships' pass of the reconciler was stored
-- before, under the same key, or it is that of a pending workflow, with the buyer, the creator and the
-- covenant of the unexpired record of a purchase that the server prepared for it. Where there is a
-- verifier and the record has an output, the verifier checked that output of the workflow's transaction
-- for that buyer, covenant and creator and called it valid or expired; otherwise the gateway's status
-- of the transaction is accepted.
pub reconcile_memberships-HasAcceptance :
    (d : Reconciler) (now : ℕ) (p : Pass) (i : String) (x : MembershipPurchase)
    → get i (reconcile_memberships d now p).store.membership_purchase_records ≡ some x
    → (get i p.store.membership_purchase_records ≡ some x)
      ⊎ HasAcceptance d now p.store (pending_membership_workflows d.locale d.batch_size p.store) x
unfolding reconcile_memberships
reconcile_memberships-HasAcceptance d now p i x e =
    let ws = pending_membership_workflows d.locale d.batch_size p.store in
    elim (Option-cases (get i p.store.membership_purchase_records)) [
      | inl none_yet ↦ inr (each-new d now ws p i x none_yet (ground (arith, e, none_yet)))
      | inr (y, had) ↦ inl (ground (arith, e, had, (each-Advances d now ws p).receipts i y had))
    ]
