-- ===== src/Durable/Posts.antt =====
-- backend/src/libsql-store.ts: reservations and posts. A write transaction excludes every other
-- writer, so its statements are one step; a rollback leaves the database as it was before.
use onlykas.Prelude.{
  ℕ, String, Bool, ◌&&◌, ◌||◌, Option, none, some, List, leb, ltb, ◌==◌, if◌then◌else◌,
}
use onlykas.Prelude.Lists.{keep}
use onlykas.Prelude.Sort.{sort}
use onlykas.Sql.{first, insert, remove}
use onlykas.Domain.{Post}
use onlykas.Ports.{Call, returns, throws}
use onlykas.Store.Posts.{PublishOutcome, Reservation, Commit, newest_first, same_media}
use onlykas.Durable.{Database, PendingRow}
use onlykas.Durable.Rows.{post_from_row}
use onlykas.Durable.Auth.{decoded, decoded_all}

unfoldable pub post_row_by_media : String → String → Database → Option Post
post_row_by_media creator digest db = first (keep (same_media creator digest) db.posts)

abbrev pub pending_row : Post → ℕ → PendingRow
pending_row v expires_at = record {
  post_id = v.id;
  creator = v.creator;
  media_digest = v.media_digest;
  media_key = v.media_key;
  expires_at = expires_at;
}

-- PRIMARY KEY (post_id), UNIQUE (creator, media_digest)
abbrev pub pending_clash : PendingRow → PendingRow → Bool
pending_clash v r =
    (r.post_id == v.post_id) || ((r.creator == v.creator) && (r.media_digest == v.media_digest))

-- The refusal of a `CHECK` is taken for a duplicate too, since `isUniqueConstraint` looks for the
-- word "constraint".
unfoldable pub reserve_publication : Post → ℕ → Database → Reservation × Database
reserve_publication v expires_at db = elim (post_row_by_media v.creator v.media_digest db) [
  | some _ ↦ (Reservation.duplicate, db)
  | none ↦
      elim (insert pending_clash (λ r. ltb 0 r.expires_at) (pending_row v expires_at)
        db.pending_publications) [
          | none ↦ (Reservation.duplicate, db)
          | some t ↦ (Reservation.reserved, record db { pending_publications = t })
        ]
]

unfoldable pub release_publication : String → Database → Database
release_publication post_id db = record db {
  pending_publications = remove (λ r. r.post_id == post_id) db.pending_publications;
}

-- PRIMARY KEY (id), UNIQUE (creator, media_digest)
abbrev pub post_clash : Post → Post → Bool
post_clash v r = (r.id == v.id) || same_media v.creator v.media_digest r

-- CHECK (media_size > 0), CHECK (published_at > 0)
abbrev pub post_check : Post → Bool
post_check v = ltb 0 v.media_size && ltb 0 v.published_at

-- The row of the reservation is there, for this content.
abbrev pub is_reserved : Post → Option PendingRow → Bool
is_reserved v none = Bool.false
is_reserved v (some r) = r.media_digest == v.media_digest

unfoldable pub commit_publication : Post → Database → Commit × Database
commit_publication v db =
    if is_reserved v (first (keep (λ r. r.post_id == v.id) db.pending_publications))
    then elim (insert post_clash post_check v db.posts) [
      | none ↦ (Commit.duplicate, release_publication v.id db)
      | some t ↦ (Commit.committed, release_publication v.id (record db { posts = t }))
    ]
    else (Commit.duplicate, release_publication v.id db)

unfoldable pub prune_pending_publications : ℕ → Database → Database
prune_pending_publications now db = record db {
  pending_publications = remove (λ r. leb r.expires_at now) db.pending_publications;
}

-- A refusal for another reason than the media is thrown on.
unfoldable pub publish_post : Post → Database → Call PublishOutcome × Database
publish_post v db = elim (insert post_clash post_check v db.posts) [
  | some t ↦ (returns PublishOutcome.committed, record db { posts = t })
  | none ↦ elim (post_row_by_media v.creator v.media_digest db) [
    | some _ ↦ (returns PublishOutcome.media_digest_conflict, db)
    | none ↦ (throws, db)
  ]
]

unfoldable pub get_post : String → Database → Call (Option Post)
get_post id db = decoded post_from_row (first (keep (λ r. r.id == id) db.posts))

unfoldable pub find_post_by_media : String → String → Database → Call (Option Post)
find_post_by_media creator digest db = decoded post_from_row (post_row_by_media creator digest db)

unfoldable pub creator_posts : String → Database → Call (List Post)
creator_posts address db =
    decoded_all post_from_row
      (sort newest_first (keep (λ (r : Post). r.creator == address) db.posts))

-- A post that cannot be decoded is not deleted.
unfoldable pub delete_post : String → Database → Call (Option Post) × Database
delete_post id db = elim (decoded post_from_row (first (keep (λ r. r.id == id) db.posts))) [
  | throws ↦ (throws, db)
  | returns none ↦ (returns none, db)
  | returns (some v) ↦ (
    returns (some v),
    record db {
      purchases = remove (λ r. r.post_id == id) db.purchases;
      posts = remove (λ r. r.id == id) db.posts;
    },
  )
]
