-- ===== src/Durable/Constraints/Unique.antt =====
-- backend/src/libsql-store.ts and backend/src/adapters/persistence/migrations.ts: how many rows a table
-- can have under one key, after every history of calls.
use onlykas.Prelude.{
  ◌≤◌, String, ◌≡◌, refl, Bool, true, false, ◌&&◌, List, [], ◌∷◌, arith, ◌==◌, eq_iff, inl, inr,
  Bool-cases,
}
use onlykas.Prelude.Lists.{any, keep, length}
use onlykas.Sql.Constraints.{NoClash}
use onlykas.Store.Op.{Op}
use onlykas.Durable.{Database, empty}
use onlykas.Durable.Rows.{Json}
use onlykas.Durable.Auth.{challenge_clash}
use onlykas.Durable.Posts.{post_clash, pending_clash}
use onlykas.Durable.Purchases.{purchase_clash}
use onlykas.Durable.Calls
use onlykas.Durable.Constraints.{HasNoClash, receipt_clash, history_clash}
use onlykas.Durable.Constraints.History.{durable_history-HasNoClash}

module _ {R : Type 0} (p : R → Bool) where
  none-keep : (t : List R) → any p t ≡ false → length (keep p t) ≡ 0
  none-keep [] h = refl
  none-keep (r ∷ t) h = ground (arith, none-keep t)

  any-ahead :
      (q : R → Bool) (t : List R)
      → ((r : R) → p r ≡ true → q r ≡ true)
      → any q t ≡ false
      → any p t ≡ false
  any-ahead q [] c h = refl
  any-ahead q (r ∷ t) c h = ground (arith, c r, any-ahead q t c)

  -- Rows that pass one test clash, so that at most one passes.
  NoClash-keep :
      (clash : R → R → Bool) (t : List R)
      → ((a b : R) → p a ≡ true → p b ≡ true → clash a b ≡ true)
      → NoClash clash t
      → length (keep p t) ≤ 1
  NoClash-keep clash [] c h = omega arith
  NoClash-keep clash (r ∷ t) c h = elim (Bool-cases (p r)) [
    | inl e ↦
        let alone = none-keep t (any-ahead (clash r) t (λ b f. c r b e f) h.0) in
        ground (arith, e, alone)
    | inr e ↦ ground (arith, e, NoClash-keep clash t c h.1)
  ]

-- A table has at most one row for each value of a key.
pub record IsUnique (db : Database) : Type 0 where
  pub challenge_id : (i : String) → length (keep (λ r. r.id == i) db.auth_challenges) ≤ 1
  pub nonce : (n : String) → length (keep (λ r. r.nonce == n) db.auth_challenges) ≤ 1
  pub post_id : (i : String) → length (keep (λ r. r.id == i) db.posts) ≤ 1
  pub post_media :
      (c d : String) → length (keep (λ r. (r.creator == c) && (r.media_digest == d)) db.posts) ≤ 1
  pub pending_id : (i : String) → length (keep (λ r. r.post_id == i) db.pending_publications) ≤ 1
  pub pending_media :
      (c d : String)
      → length (keep (λ r. (r.creator == c) && (r.media_digest == d)) db.pending_publications) ≤ 1
  pub purchase :
      (i b : String) → length (keep (λ r. (r.post_id == i) && (r.buyer == b)) db.purchases) ≤ 1
  pub payment : (t : String) → length (keep (λ r. r.transaction_id == t) db.purchases) ≤ 1
  pub receipt :
      (t : String) → length (keep (λ r. r.transaction_id == t) db.membership_purchases) ≤ 1
  pub covenant :
      (c : String) → length (keep (λ r. r.covenant_id == c) db.creator_covenant_history) ≤ 1

HasNoClash-IsUnique : (db : Database) → HasNoClash db → IsUnique db
HasNoClash-IsUnique db h = record {
  challenge_id = λ i.
      NoClash-keep (λ r. r.id == i) challenge_clash db.auth_challenges
        (λ a b e f.
          ground (arith, e, f, eq_iff a.id i, eq_iff b.id i, eq_iff b.id a.id, eq_iff a.id b.id))
        h.challenges;
  nonce = λ n.
      NoClash-keep (λ r. r.nonce == n) challenge_clash db.auth_challenges
        (λ a b e f. ground (
          arith,
          e,
          f,
          eq_iff a.nonce n,
          eq_iff b.nonce n,
          eq_iff b.nonce a.nonce,
          eq_iff a.nonce b.nonce,
        ))
        h.challenges;
  post_id = λ i.
      NoClash-keep (λ r. r.id == i) post_clash db.posts
        (λ a b e f.
          ground (arith, e, f, eq_iff a.id i, eq_iff b.id i, eq_iff b.id a.id, eq_iff a.id b.id))
        h.posts;
  post_media = λ c d.
      NoClash-keep (λ r. (r.creator == c) && (r.media_digest == d)) post_clash db.posts
        (λ a b e f. ground (
          arith,
          e,
          f,
          eq_iff a.creator c,
          eq_iff b.creator c,
          eq_iff a.media_digest d,
          eq_iff b.media_digest d,
          eq_iff b.creator a.creator,
          eq_iff b.media_digest a.media_digest,
        ))
        h.posts;
  pending_id = λ i.
      NoClash-keep (λ r. r.post_id == i) pending_clash db.pending_publications
        (λ a b e f.
          ground (arith, e, f, eq_iff a.post_id i, eq_iff b.post_id i, eq_iff b.post_id a.post_id))
        h.pending;
  pending_media = λ c d.
      NoClash-keep (λ r. (r.creator == c) && (r.media_digest == d)) pending_clash
        db.pending_publications
        (λ a b e f. ground (
          arith,
          e,
          f,
          eq_iff a.creator c,
          eq_iff b.creator c,
          eq_iff a.media_digest d,
          eq_iff b.media_digest d,
          eq_iff b.creator a.creator,
          eq_iff b.media_digest a.media_digest,
        ))
        h.pending;
  purchase = λ i b.
      NoClash-keep (λ r. (r.post_id == i) && (r.buyer == b)) purchase_clash db.purchases
        (λ x y e f. ground (
          arith,
          e,
          f,
          eq_iff x.post_id i,
          eq_iff y.post_id i,
          eq_iff x.buyer b,
          eq_iff y.buyer b,
          eq_iff y.post_id x.post_id,
          eq_iff y.buyer x.buyer,
        ))
        h.purchases;
  payment = λ t.
      NoClash-keep (λ r. r.transaction_id == t) purchase_clash db.purchases
        (λ x y e f. ground (
          arith,
          e,
          f,
          eq_iff x.transaction_id t,
          eq_iff y.transaction_id t,
          eq_iff y.transaction_id x.transaction_id,
        ))
        h.purchases;
  receipt = λ t.
      NoClash-keep (λ r. r.transaction_id == t) receipt_clash db.membership_purchases
        (λ x y e f. ground (
          arith,
          e,
          f,
          eq_iff x.transaction_id t,
          eq_iff y.transaction_id t,
          eq_iff y.transaction_id x.transaction_id,
        ))
        h.receipts;
  covenant = λ c.
      NoClash-keep (λ r. r.covenant_id == c) history_clash db.creator_covenant_history
        (λ x y e f. ground (
          arith,
          e,
          f,
          eq_iff x.covenant_id c,
          eq_iff y.covenant_id c,
          eq_iff y.covenant_id x.covenant_id,
        ))
        h.history;
}

-- After any calls of `LibsqlStore` on a new database, refused ones among them, a table has at most one
-- row for each id and each nonce of a challenge, each id and each creator and content of a post and of
-- a reservation, each post and buyer and each transaction of a purchase, each transaction of a
-- membership, and each covenant in the history.
pub durable_history-IsUnique : (json : Json) (ops : List Op) → IsUnique (Calls.run json ops empty)
durable_history-IsUnique json ops =
    HasNoClash-IsUnique (Calls.run json ops empty) (durable_history-HasNoClash json ops)
