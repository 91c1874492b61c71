-- ===== src/Durable/Refines.antt =====
-- backend/src/libsql-store.ts against backend/src/memory-store.ts over a history of calls: the
-- durable store keeps the tables that hold what the maps of the in-memory store hold.
use onlykas.Prelude.{String, ◌≡◌, refl, inl, inr, Option-cases, none, some, List, [], ◌∷◌, arith}
use onlykas.Map.{get, delete}
use onlykas.Domain.{PaymentWorkflow, MembershipPurchase}
use onlykas.Ports.{returns}
use onlykas.Sql.Laws.{rows}
use onlykas.Store
use onlykas.Store.{Store}
use onlykas.Store.Keys.{IsKeyed}
use onlykas.Store.History.{apply-IsKeyed, empty-IsKeyed}
use onlykas.Store.Payments.{delete_prepared_payment}
use onlykas.Store.Purchases.{
  create_purchase, finalize_purchase, create_membership_purchase, finalize_membership_purchase,
}
use onlykas.Store.Covenants.{
  record_covenant, save_creator_covenant, save_new_covenant, finalize_offer, finalize_price_update,
  finalize_cancellation,
}
use onlykas.Store.Memberships.{delete_prepared_membership}
use onlykas.Store.Op
use onlykas.Store.Op.{Op}
use onlykas.Store.Frames.{frame}
use onlykas.Durable.{Database, empty}
use onlykas.Durable.Rows.{Json, prepared_membership_row}
use onlykas.Durable.Auth
use onlykas.Durable.Payments
use onlykas.Durable.Memberships
use onlykas.Durable.Posts
use onlykas.Durable.Purchases
use onlykas.Durable.Purchases.{transactional_finalize, insert_receipt}
use onlykas.Durable.Covenants
use onlykas.Durable.Calls
use onlykas.Durable.Mirrors.{Mirrors}
use onlykas.Durable.Mirrors.Auth.{
  create_challenge-rows, consume_challenge-rows, prune_challenges-rows, create_session-rows,
  roll_session-rows, delete_session-rows, prune_sessions-rows, save_profile-rows,
}
use onlykas.Durable.Mirrors.Prepared.{
  save_prepared_payment-rows, delete_prepared_payment-rows, prune_prepared_payments-rows,
  save_prepared_membership-rows, delete_prepared_membership-rows, prune_prepared_memberships-rows,
  save_payment_workflow-rows, delete_payment_workflow-rows, claim_payment_workflow-rows,
  create_membership_purchase-rows,
}

-- The database accepts the call: it throws nothing where it inserts a key or sets a time.
abbrev pub Accepts : Json → Op → Database → Type 0
Accepts json (Op.create_challenge v) db = (Auth.create_challenge v db).0 ≡ returns tt
Accepts json (Op.create_session v) db = (Auth.create_session v db).0 ≡ returns tt
Accepts json (Op.roll_session id expires_at) db =
    (Auth.roll_session id expires_at db).0 ≡ returns tt
Accepts json (Op.save_profile v) db = (Auth.save_profile v db).0 ≡ returns tt
Accepts json (Op.save_prepared_payment v) db = (Payments.save_prepared_payment v db).0 ≡ returns tt
Accepts json (Op.save_prepared_membership v) db =
    (Memberships.save_prepared_membership json v db).0 ≡ returns tt
Accepts json op db = Unit

-- A payment workflow that is saved has no final time, and neither has the one that it replaces. The
-- database accepts others as well; it keeps the final time that it has, and the in-memory store takes
-- that of the new workflow.
abbrev pub IsUnfinal : Op → Store → Type 0
IsUnfinal (Op.save_payment_workflow v clock) s =
    (v.finalized_at ≡ none)
    × ((w : PaymentWorkflow)
        → get v.prepared_payment_id s.payment_workflows ≡ some w
        → w.finalized_at ≡ none)
IsUnfinal op s = Unit

-- A finalization is the insertion, followed by the deletion of the prepared record.
pub finalize_membership_purchase_lem :
    (id : String) (v : MembershipPurchase) (db : Database)
    → Purchases.finalize_membership_purchase id v db ≡ (
      (Purchases.create_membership_purchase v db).0,
      Memberships.delete_prepared_membership id (Purchases.create_membership_purchase v db).1,
    )
unfolding Purchases.finalize_membership_purchase Purchases.create_membership_purchase
    transactional_finalize
finalize_membership_purchase_lem id v db = elim (Option-cases (insert_receipt v db)) [
  | inl e ↦ ground (arith, e)
  | inr (t, e) ↦ ground (arith, e)
]

module _ (json : Json) (db : Database) (s : Store) (k : IsKeyed s) (m : Mirrors json db s) where
  delete_membership-rows :
      (id : String)
      → (Memberships.delete_prepared_membership id db).prepared_memberships
        ≡ rows (prepared_membership_row json) (delete id s.prepared_membership_records)
  unfolding delete_prepared_membership
  delete_membership-rows id = delete_prepared_membership-rows json db s k m.memberships id

apply-Mirrors :
    (json : Json) (op : Op) (db : Database) (s : Store)
    → IsKeyed s
    → Accepts json op db
    → IsUnfinal op s
    → Mirrors json db s
    → Mirrors json (Calls.apply json op db) (Op.apply op s)
unfolding Calls.apply Op.apply Auth.create_challenge Auth.consume_challenge Auth.prune_challenges
    Auth.create_session Auth.roll_session Auth.delete_session Auth.prune_sessions Auth.save_profile
    Payments.save_prepared_payment Payments.delete_prepared_payment Payments.prune_prepared_payments
    Payments.save_payment_workflow Payments.delete_payment_workflow
    Payments.claim_payment_workflow_terminal Memberships.save_prepared_membership
    Memberships.delete_prepared_membership Memberships.prune_prepared_memberships
    Memberships.save_membership_workflow Memberships.delete_membership_workflow
    Memberships.claim_membership_workflow_terminal Posts.publish_post Posts.reserve_publication
    Posts.commit_publication Posts.release_publication Posts.prune_pending_publications
    Posts.delete_post Purchases.create_purchase Purchases.finalize_purchase
    Purchases.create_membership_purchase Purchases.transactional_finalize
    Covenants.save_creator_covenant Covenants.finalize_offer Covenants.change_covenant
    Covenants.finalize_price_update Covenants.finalize_cancellation delete_prepared_payment
    finalize_purchase create_purchase finalize_membership_purchase create_membership_purchase
    finalize_offer save_creator_covenant save_new_covenant record_covenant finalize_price_update
    finalize_cancellation
apply-Mirrors json (Op.create_challenge v) db s k a u m =
    ground (arith, create_challenge-rows db s k m.challenges v a, frame (Op.create_challenge v) s)
apply-Mirrors json (Op.consume_challenge id now) db s k a u m = ground (
  arith,
  consume_challenge-rows db s k m.challenges id now,
  frame (Op.consume_challenge id now) s,
)
apply-Mirrors json (Op.prune_challenges now) db s k a u m =
    ground (arith, prune_challenges-rows db s k m.challenges now, frame (Op.prune_challenges now) s)
apply-Mirrors json (Op.create_session v) db s k a u m =
    ground (arith, create_session-rows db s k m.sessions v a, frame (Op.create_session v) s)
apply-Mirrors json (Op.roll_session id t) db s k a u m =
    ground (arith, roll_session-rows db s k m.sessions id t a, frame (Op.roll_session id t) s)
apply-Mirrors json (Op.delete_session id) db s k a u m =
    ground (arith, delete_session-rows db s k m.sessions id, frame (Op.delete_session id) s)
apply-Mirrors json (Op.prune_sessions now) db s k a u m =
    ground (arith, prune_sessions-rows db s k m.sessions now, frame (Op.prune_sessions now) s)
apply-Mirrors json (Op.save_profile v) db s k a u m =
    ground (arith, save_profile-rows db s k m.profiles v a, frame (Op.save_profile v) s)
apply-Mirrors json (Op.save_prepared_payment v) db s k a u m =
    ground (
      arith,
      save_prepared_payment-rows db s k m.payments v a,
      frame (Op.save_prepared_payment v) s,
    )
apply-Mirrors json (Op.delete_prepared_payment id) db s k a u m = ground (
  arith,
  delete_prepared_payment-rows db s k m.payments id,
  frame (Op.delete_prepared_payment id) s,
)
apply-Mirrors json (Op.prune_prepared_payments now) db s k a u m = ground (
  arith,
  prune_prepared_payments-rows db s k m.payments now,
  frame (Op.prune_prepared_payments now) s,
)
apply-Mirrors json (Op.save_payment_workflow v clock) db s k a u m = ground (
  arith,
  save_payment_workflow-rows db s k m.workflows v clock u.0 u.1,
  frame (Op.save_payment_workflow v clock) s,
)
apply-Mirrors json (Op.delete_payment_workflow id) db s k a u m = ground (
  arith,
  delete_payment_workflow-rows db s k m.workflows id,
  frame (Op.delete_payment_workflow id) s,
)
apply-Mirrors json (Op.claim_payment_workflow_terminal id state now rejection) db s k a u m =
    ground (
      arith,
      claim_payment_workflow-rows db s k m.workflows id state now rejection,
      frame (Op.claim_payment_workflow_terminal id state now rejection) s,
    )
apply-Mirrors json (Op.save_prepared_membership v) db s k a u m = ground (
  arith,
  save_prepared_membership-rows json db s k m.memberships v a,
  frame (Op.save_prepared_membership v) s,
)
apply-Mirrors json (Op.delete_prepared_membership id) db s k a u m = ground (
  arith,
  delete_prepared_membership-rows json db s k m.memberships id,
  frame (Op.delete_prepared_membership id) s,
)
apply-Mirrors json (Op.prune_prepared_memberships now) db s k a u m = ground (
  arith,
  prune_prepared_memberships-rows json db s k m.memberships now,
  frame (Op.prune_prepared_memberships now) s,
)
apply-Mirrors json (Op.create_membership_purchase v) db s k a u m = ground (
  arith,
  create_membership_purchase-rows db s k m.receipts v,
  frame (Op.create_membership_purchase v) s,
)
apply-Mirrors json (Op.finalize_purchase id v) db s k a u m =
    ground (
      arith,
      delete_prepared_payment-rows db s k m.payments id,
      frame (Op.finalize_purchase id v) s,
    )
apply-Mirrors json (Op.finalize_membership_purchase id v) db s k a u m = ground (
  arith,
  finalize_membership_purchase_lem id v db,
  create_membership_purchase-rows db s k m.receipts v,
  delete_membership-rows json db s k m id,
  frame (Op.finalize_membership_purchase id v) s,
)
apply-Mirrors json (Op.finalize_offer id v) db s k a u m =
    ground (arith, delete_membership-rows json db s k m id, frame (Op.finalize_offer id v) s)
apply-Mirrors json (Op.finalize_price_update id v) db s k a u m =
    ground (arith, delete_membership-rows json db s k m id, frame (Op.finalize_price_update id v) s)
apply-Mirrors json (Op.finalize_cancellation id creator covenant_id) db s k a u m = ground (
  arith,
  delete_membership-rows json db s k m id,
  frame (Op.finalize_cancellation id creator covenant_id) s,
)
apply-Mirrors json op db s k a u m = ground (arith, frame op s)

-- The database accepts the calls one after the other.
abbrev pub AcceptsAll : Json → List Op → Database → Type 0
AcceptsAll json [] db = Unit
AcceptsAll json (op ∷ ops) db = Accepts json op db × AcceptsAll json ops (Calls.apply json op db)

-- Each payment workflow that the calls save has no final time, and replaces none that has one.
abbrev pub AreUnfinal : List Op → Store → Type 0
AreUnfinal [] s = Unit
AreUnfinal (op ∷ ops) s = IsUnfinal op s × AreUnfinal ops (Op.apply op s)

run-Mirrors :
    (json : Json) (ops : List Op) (db : Database) (s : Store)
    → IsKeyed s
    → AcceptsAll json ops db
    → AreUnfinal ops s
    → Mirrors json db s
    → Mirrors json (Calls.run json ops db) (Op.run ops s)
unfolding Calls.run Op.run
run-Mirrors json [] db s k a u m = m
run-Mirrors json (op ∷ ops) db s k a u m =
    run-Mirrors json ops (Calls.apply json op db) (Op.apply op s) (apply-IsKeyed op s k) a.1 u.1
      (apply-Mirrors json op db s k a.0 u.0 m)

-- The same calls, made from the beginning on both stores, leave the seven tables of
-- `LibsqlStore` that `Mirrors` names with exactly the rows of the corresponding maps of
-- `MemoryStore`, in their order, if the database accepts each call in its turn, and if each call of
-- `savePaymentWorkflow` is with a workflow that has no final time, for an id under which no workflow
-- with a final time is stored.
pub history-Mirrors :
    (json : Json) (ops : List Op)
    → AcceptsAll json ops empty
    → AreUnfinal ops Store.empty
    → Mirrors json (Calls.run json ops empty) (Op.run ops Store.empty)
history-Mirrors json ops a u = run-Mirrors json ops empty Store.empty empty-IsKeyed a u (record {
  challenges = refl;
  sessions = refl;
  profiles = refl;
  payments = refl;
  memberships = refl;
  workflows = refl;
  receipts = refl;
})
