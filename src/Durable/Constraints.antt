-- ===== src/Durable/Constraints.antt =====
-- backend/src/libsql-store.ts and backend/src/adapters/persistence/migrations.ts: the unique keys of
-- the tables hold after every history of calls.
pub mod History
pub mod Unique
use onlykas.Prelude.{
  ℕ, String, ◌≡◌, refl, Bool, true, false, not, ◌&&◌, ◌||◌, Option, none, some, List, [], ◌∷◌,
  arith, ◌==◌, eq_iff, eq_refl, ltb, leb, is_some, inl, inr, Option-cases, Bool-cases,
}
use onlykas.Prelude.Lists.{any, keep}
use onlykas.Domain.{Challenge, Post, Purchase, MembershipPurchase, CreatorCovenant}
use onlykas.Sql.{first, insert, update, remove}
use onlykas.Sql.Constraints.{NoClash, insert-NoClash, remove-NoClash, update-NoClash}
use onlykas.Store.Posts.{same_media}
use onlykas.Store.Op.{Op}
use onlykas.Durable.{Database, PendingRow, CovenantRow, empty}
use onlykas.Durable.Rows.{Json, covenant_row}
use onlykas.Durable.Auth
use onlykas.Durable.Auth.{challenge_clash, can_consume, consumed}
use onlykas.Durable.Payments
use onlykas.Durable.Memberships
use onlykas.Durable.Posts
use onlykas.Durable.Posts.{pending_clash, pending_row, post_clash, post_check}
use onlykas.Durable.Purchases
use onlykas.Durable.Purchases.{purchase_clash}
use onlykas.Durable.Covenants
use onlykas.Durable.Calls

abbrev pub receipt_clash : MembershipPurchase → MembershipPurchase → Bool
receipt_clash w r = r.transaction_id == w.transaction_id

abbrev pub history_clash : CovenantRow → CovenantRow → Bool
history_clash w r = r.covenant_id == w.covenant_id

-- No two rows have one key: the id or the nonce of a challenge, the id or the creator and the
-- content of a post and of a reservation, the post and the buyer or the transaction of a purchase,
-- the transaction of a membership, the id of a covenant in the history.
pub record HasNoClash (db : Database) : Type 0 where
  pub challenges : NoClash challenge_clash db.auth_challenges
  pub posts : NoClash post_clash db.posts
  pub pending : NoClash pending_clash db.pending_publications
  pub purchases : NoClash purchase_clash db.purchases
  pub receipts : NoClash receipt_clash db.membership_purchases
  pub history : NoClash history_clash db.creator_covenant_history

pub eq_comm : (a b : String) → (a == b) ≡ (b == a)
eq_comm a b = ground (arith, eq_iff a b, eq_iff b a)

module _ (db : Database) (h : HasNoClash db) where
  pub create_challenge-HasNoClash : (v : Challenge) → HasNoClash (Auth.create_challenge v db).1
  unfolding Auth.create_challenge
  create_challenge-HasNoClash v =
      elim (Option-cases (insert challenge_clash (λ r. ltb 0 r.expires_at) v db.auth_challenges)) [
        | inl e ↦ ground (arith, e, h)
        | inr (t, e) ↦ ground (
          arith,
          e,
          h,
          insert-NoClash challenge_clash (λ r. ltb 0 r.expires_at) v db.auth_challenges t
              (λ a b. ground (arith, eq_comm a.id b.id, eq_comm a.nonce b.nonce)) e h.challenges,
        )
      ]

  pub consume_challenge-HasNoClash :
      (id : String) (now : ℕ) → HasNoClash (Auth.consume_challenge id now db).1
  unfolding Auth.consume_challenge
  consume_challenge-HasNoClash id now = ground (
    arith,
    h,
    update-NoClash challenge_clash (can_consume id now) (consumed now) db.auth_challenges
        (λ a b. refl) (λ a b. refl) h.challenges,
  )

  post_insert-NoClash :
      (v : Post) (t : List Post)
      → insert post_clash post_check v db.posts ≡ some t
      → NoClash post_clash t
  post_insert-NoClash v t e =
      insert-NoClash post_clash post_check v db.posts t
        (λ a b. ground (
          arith,
          eq_comm a.id b.id,
          eq_comm a.creator b.creator,
          eq_comm a.media_digest b.media_digest,
        ))
        e h.posts

  pub publish_post-HasNoClash : (v : Post) → HasNoClash (Posts.publish_post v db).1
  unfolding Posts.publish_post
  publish_post-HasNoClash v = elim (Option-cases (insert post_clash post_check v db.posts)) [
    | inl e ↦ ground (arith, e, h)
    | inr (t, e) ↦ ground (arith, e, h, post_insert-NoClash v t e)
  ]

  pub reserve_publication-HasNoClash :
      (v : Post) (t : ℕ) → HasNoClash (Posts.reserve_publication v t db).1
  unfolding Posts.reserve_publication
  reserve_publication-HasNoClash v t =
      elim (Option-cases (
        insert pending_clash (λ r. ltb 0 r.expires_at) (pending_row v t) db.pending_publications)) [
          | inl e ↦ ground (arith, e, h)
          | inr (u, e) ↦ ground (
            arith,
            e,
            h,
            insert-NoClash pending_clash (λ r. ltb 0 r.expires_at) (pending_row v t)
                db.pending_publications u
                (λ a b. ground (
                  arith,
                  eq_comm a.post_id b.post_id,
                  eq_comm a.creator b.creator,
                  eq_comm a.media_digest b.media_digest,
                ))
                e h.pending,
          )
        ]

  pub commit_publication-HasNoClash : (v : Post) → HasNoClash (Posts.commit_publication v db).1
  unfolding Posts.commit_publication Posts.release_publication
  commit_publication-HasNoClash v =
      let released =
        remove-NoClash pending_clash (λ r. r.post_id == v.id) db.pending_publications h.pending in
      elim (Option-cases (insert post_clash post_check v db.posts)) [
        | inl e ↦ ground (arith, e, h, released)
        | inr (t, e) ↦ ground (arith, e, h, post_insert-NoClash v t e, released)
      ]

  pub delete_post-HasNoClash : (id : String) → HasNoClash (Posts.delete_post id db).1
  unfolding Posts.delete_post
  delete_post-HasNoClash id = ground (
    arith,
    h,
    remove-NoClash purchase_clash (λ r. r.post_id == id) db.purchases h.purchases,
    remove-NoClash post_clash (λ r. r.id == id) db.posts h.posts,
  )

  pub create_purchase-HasNoClash : (v : Purchase) → HasNoClash (Purchases.create_purchase v db).1
  unfolding Purchases.create_purchase
  create_purchase-HasNoClash v = elim (Option-cases (Purchases.insert_purchase v db)) [
    | inl e ↦ ground (arith, e, h)
    | inr (t, e) ↦ ground (
      arith,
      e,
      h,
      insert-NoClash purchase_clash (λ _. true) v db.purchases t
          (λ a b. ground (
            arith,
            eq_comm a.post_id b.post_id,
            eq_comm a.buyer b.buyer,
            eq_comm a.transaction_id b.transaction_id,
          ))
          e h.purchases,
    )
  ]

  pub create_membership_purchase-HasNoClash :
      (v : MembershipPurchase) → HasNoClash (Purchases.create_membership_purchase v db).1
  unfolding Purchases.create_membership_purchase
  create_membership_purchase-HasNoClash v = elim (Option-cases (Purchases.insert_receipt v db)) [
    | inl e ↦ ground (arith, e, h)
    | inr (t, e) ↦ ground (
      arith,
      e,
      h,
      insert-NoClash receipt_clash (λ _. true) v db.membership_purchases t
          (λ a b. eq_comm b.transaction_id a.transaction_id) e h.receipts,
    )
  ]
