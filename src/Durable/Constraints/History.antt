-- ===== src/Durable/Constraints/History.antt =====
-- The finalizations of backend/src/libsql-store.ts keep the unique keys, and so does every history
-- of calls.
use onlykas.Prelude.{
  ℕ, String, ◌≡◌, refl, true, ◌||◌, List, [], ◌∷◌, arith, ◌==◌, leb, is_some, inl, inr,
  Option-cases,
}
use onlykas.Domain.{Purchase, MembershipPurchase, CreatorCovenant}
use onlykas.Sql.{insert}
use onlykas.Sql.Constraints.{insert-NoClash, remove-NoClash, update-NoClash}
use onlykas.Store.Op.{Op}
use onlykas.Durable.{Database, CovenantRow, empty}
use onlykas.Durable.Rows.{Json, covenant_row}
use onlykas.Durable.Auth
use onlykas.Durable.Auth.{challenge_clash}
use onlykas.Durable.Payments
use onlykas.Durable.Memberships
use onlykas.Durable.Posts
use onlykas.Durable.Posts.{pending_clash}
use onlykas.Durable.Purchases
use onlykas.Durable.Covenants
use onlykas.Durable.Covenants.{is_covenant, insert_history, upsert_covenant}
use onlykas.Durable.Calls
use onlykas.Durable.Constraints.{
  HasNoClash, history_clash, eq_comm, create_challenge-HasNoClash, consume_challenge-HasNoClash,
  publish_post-HasNoClash, reserve_publication-HasNoClash, commit_publication-HasNoClash,
  delete_post-HasNoClash, create_purchase-HasNoClash, create_membership_purchase-HasNoClash,
}

module _ (db : Database) (h : HasNoClash db) where
  finalize_purchase-HasNoClash :
      (id : String) (v : Purchase) → HasNoClash (Purchases.finalize_purchase id v db).1
  unfolding Purchases.finalize_purchase Purchases.create_purchase Purchases.transactional_finalize
      Payments.delete_prepared_payment
  finalize_purchase-HasNoClash id v = elim (Option-cases (Purchases.insert_purchase v db)) [
    | inl e ↦ ground (arith, e, h)
    | inr (t, e) ↦ ground (arith, e, h, create_purchase-HasNoClash db h v)
  ]

  finalize_membership_purchase-HasNoClash :
      (id : String) (v : MembershipPurchase)
      → HasNoClash (Purchases.finalize_membership_purchase id v db).1
  unfolding Purchases.finalize_membership_purchase Purchases.create_membership_purchase
      Purchases.transactional_finalize Memberships.delete_prepared_membership
  finalize_membership_purchase-HasNoClash id v =
      elim (Option-cases (Purchases.insert_receipt v db)) [
        | inl e ↦ ground (arith, e, h)
        | inr (t, e) ↦ ground (arith, e, h, create_membership_purchase-HasNoClash db h v)
      ]

  finalize_offer-HasNoClash :
      (id : String) (v : CreatorCovenant) → HasNoClash (Covenants.finalize_offer id v db).1
  unfolding Covenants.finalize_offer Memberships.delete_prepared_membership insert_history
  finalize_offer-HasNoClash id v =
      elim (Option-cases
        (insert history_clash (λ _. true) (covenant_row v) db.creator_covenant_history)) [
          | inl e ↦ ground (arith, e, h)
          | inr (t, e) ↦ ground (
            arith,
            e,
            h,
            insert-NoClash history_clash (λ _. true) (covenant_row v) db.creator_covenant_history t
                (λ a b. eq_comm b.covenant_id a.covenant_id) e h.history,
          )
        ]

  change_covenant-HasNoClash :
      (id creator covenant_id : String) (change : CovenantRow → CovenantRow)
      → ((r : CovenantRow) → (change r).covenant_id ≡ r.covenant_id)
      → HasNoClash (Covenants.change_covenant id creator covenant_id change db).1
  unfolding Covenants.change_covenant Memberships.delete_prepared_membership
  change_covenant-HasNoClash id creator covenant_id change c = ground (
    arith,
    h,
    update-NoClash history_clash (is_covenant creator covenant_id) change
        db.creator_covenant_history (λ a b. rw (c a) refl) (λ a b. rw (c b) refl) h.history,
  )

  prune-HasNoClash :
      (now : ℕ)
      → HasNoClash (Auth.prune_challenges now db)
        × HasNoClash (Posts.prune_pending_publications now db)
  unfolding Auth.prune_challenges Posts.prune_pending_publications
  prune-HasNoClash now =
      let challenges =
        remove-NoClash challenge_clash (λ r. is_some r.consumed_at || leb r.expires_at now)
          db.auth_challenges h.challenges in
      let pending =
        remove-NoClash pending_clash (λ r. leb r.expires_at now) db.pending_publications
          h.pending in
      ground (arith, h, challenges, pending)

  release_publication-HasNoClash : (id : String) → HasNoClash (Posts.release_publication id db)
  unfolding Posts.release_publication
  release_publication-HasNoClash id =
      let pending =
        remove-NoClash pending_clash (λ r. r.post_id == id) db.pending_publications h.pending in
      ground (arith, h, pending)

apply-HasNoClash :
    (json : Json) (op : Op) (db : Database) → HasNoClash db → HasNoClash (Calls.apply json op db)
unfolding Calls.apply Auth.create_session Auth.roll_session Auth.delete_session Auth.prune_sessions
    Auth.save_profile Payments.save_prepared_payment Payments.delete_prepared_payment
    Payments.prune_prepared_payments Payments.save_payment_workflow Payments.delete_payment_workflow
    Payments.claim_payment_workflow_terminal Memberships.save_prepared_membership
    Memberships.delete_prepared_membership Memberships.prune_prepared_memberships
    Memberships.save_membership_workflow Memberships.delete_membership_workflow
    Memberships.claim_membership_workflow_terminal Covenants.save_creator_covenant
    Covenants.finalize_price_update Covenants.finalize_cancellation
apply-HasNoClash json (Op.create_challenge v) db h = create_challenge-HasNoClash db h v
apply-HasNoClash json (Op.consume_challenge id now) db h = consume_challenge-HasNoClash db h id now
apply-HasNoClash json (Op.prune_challenges now) db h = (prune-HasNoClash db h now).0
apply-HasNoClash json (Op.publish_post v) db h = publish_post-HasNoClash db h v
apply-HasNoClash json (Op.reserve_publication v t) db h = reserve_publication-HasNoClash db h v t
apply-HasNoClash json (Op.commit_publication v) db h = commit_publication-HasNoClash db h v
apply-HasNoClash json (Op.release_publication id) db h = release_publication-HasNoClash db h id
apply-HasNoClash json (Op.prune_pending_publications now) db h = (prune-HasNoClash db h now).1
apply-HasNoClash json (Op.delete_post id) db h = delete_post-HasNoClash db h id
apply-HasNoClash json (Op.create_purchase v) db h = create_purchase-HasNoClash db h v
apply-HasNoClash json (Op.finalize_purchase id v) db h = finalize_purchase-HasNoClash db h id v
apply-HasNoClash json (Op.create_membership_purchase v) db h =
    create_membership_purchase-HasNoClash db h v
apply-HasNoClash json (Op.finalize_membership_purchase id v) db h =
    finalize_membership_purchase-HasNoClash db h id v
apply-HasNoClash json (Op.finalize_offer id v) db h = finalize_offer-HasNoClash db h id v
apply-HasNoClash json (Op.finalize_price_update id v) db h =
    change_covenant-HasNoClash db h id v.creator v.covenant_id
      (λ r. record r { price_sompi = v.price_sompi; status = "ACTIVE" }) (λ r. refl)
apply-HasNoClash json (Op.finalize_cancellation id creator covenant_id) db h =
    change_covenant-HasNoClash db h id creator covenant_id (λ r. record r { status = "CANCELED" })
      (λ r. refl)
apply-HasNoClash json op db h = ground (arith, h)

run-HasNoClash :
    (json : Json) (ops : List Op) (db : Database)
    → HasNoClash db
    → HasNoClash (Calls.run json ops db)
unfolding Calls.run
run-HasNoClash json [] db h = h
run-HasNoClash json (op ∷ ops) db h =
    run-HasNoClash json ops (Calls.apply json op db) (apply-HasNoClash json op db h)

-- After any calls of `LibsqlStore` on a new database, refused ones among them, no two rows of a
-- table have one key: the id or the nonce of a challenge, the id or the creator and content of a
-- post or reservation, the post and buyer or the transaction of a purchase, the transaction of a
-- membership, and the covenant of a row of the history.
pub durable_history-HasNoClash :
    (json : Json) (ops : List Op) → HasNoClash (Calls.run json ops empty)
durable_history-HasNoClash json ops = run-HasNoClash json ops empty (record {
  challenges = tt;
  posts = tt;
  pending = tt;
  purchases = tt;
  receipts = tt;
  history = tt;
})
