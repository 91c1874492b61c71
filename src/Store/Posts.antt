-- ===== src/Store/Posts.antt =====
-- backend/src/memory-store.ts: reservations and posts.
use onlykas.Prelude.{
  ℕ, String, Bool, ◌&&◌, Option, none, some, List, ◌++◌, map, leb, ◌==◌, if◌then◌else◌,
}
use onlykas.Prelude.Lists.{any, keep, find}
use onlykas.Prelude.Sort.{sort}
use onlykas.Map.{get, set, delete, values, prune}
use onlykas.Domain.{Post, Purchase}
use onlykas.Store.{Store, PendingPost}

-- `post.creator === v.creator && post.mediaDigest === v.mediaDigest`
abbrev pub same_media : String → String → Post → Bool
same_media creator digest p = (p.creator == creator) && (p.media_digest == digest)

pub data PublishOutcome : Type 0 where
  committed media_digest_conflict : PublishOutcome

pub data Reservation : Type 0 where
  reserved duplicate : Reservation

pub data Commit : Type 0 where
  committed duplicate : Commit

unfoldable pub publish_post : Post → Store → PublishOutcome × Store
publish_post v s =
    if any (same_media v.creator v.media_digest) (values s.posts)
    then (PublishOutcome.media_digest_conflict, s)
    else (PublishOutcome.committed, record s { posts = set v.id v s.posts })

unfoldable pub reserve_publication : Post → ℕ → Store → Reservation × Store
reserve_publication v expires_at s =
    if any (same_media v.creator v.media_digest)
      (values s.posts ++ map (λ (x : PendingPost). x.post) (values s.pending_posts))
    then (Reservation.duplicate, s)
    else (
      Reservation.reserved,
      record s {
        pending_posts = set v.id (record { post = v; expires_at = expires_at }) s.pending_posts;
      },
    )

unfoldable pub commit_publication : Post → Store → Commit × Store
commit_publication v s =
    let released = record s { pending_posts = delete v.id s.pending_posts } in
    elim (get v.id s.pending_posts) [
      | none ↦ (Commit.duplicate, released)
      | some pending ↦
          if pending.post.media_digest == v.media_digest
          then (Commit.committed, record released { posts = set v.id v s.posts })
          else (Commit.duplicate, released)
    ]

unfoldable pub release_publication : String → Store → Store
release_publication post_id s = record s { pending_posts = delete post_id s.pending_posts }

unfoldable pub prune_pending_publications : ℕ → Store → Store
prune_pending_publications now s = record s {
  pending_posts = prune (λ (x : PendingPost). leb x.expires_at now) s.pending_posts;
}

unfoldable pub get_post : String → Store → Option Post
get_post id s = get id s.posts

unfoldable pub find_post_by_media : String → String → Store → Option Post
find_post_by_media creator digest s = find (same_media creator digest) (values s.posts)

abbrev pub newest_first : Post → Post → Bool
newest_first a b = leb b.published_at a.published_at

unfoldable pub creator_posts : String → Store → List Post
creator_posts address s =
    sort newest_first (keep (λ (p : Post). p.creator == address) (values s.posts))

unfoldable pub delete_post : String → Store → Option Post × Store
delete_post id s = elim (get id s.posts) [
  | none ↦ (none, s)
  | some v ↦ (
    some v,
    record s {
      posts = delete id s.posts;
      purchases = prune (λ (x : Purchase). x.post_id == id) s.purchases;
    },
  )
]
