-- ===== src/Store/Media.antt =====
-- Publications of `MemoryStore`: the media of a creator is reserved or published once.
use onlykas.Prelude.{refl, arith, leb}
use onlykas.Map.{get}
use onlykas.Store.{Store, PendingPost, empty}
use onlykas.Store.Posts
use onlykas.Store.Posts.{same_media}
use onlykas.Store.Keys.{IsKeyed, pending_id}
use onlykas.Store.History.{apply-IsKeyed, empty-IsKeyed}
use onlykas.Store.Frames.{frame}
use onlykas.Store.Op.{Op, apply}
use onlykas.Store.OneEach.{
  OneEach, IsOwn, shrink-OneEach, get-delete-some, get-prune-some, release-OneEach, reserve-OneEach,
  commit-OneEach,
}

-- A call that the publication protocol makes: never `publishPost`, and a commit only of one's own
-- reservation.
abbrev pub FollowsProtocol : Op → Store → Type 0
FollowsProtocol (Op.publish_post v) s = ⊥
FollowsProtocol (Op.commit_publication v) s = IsOwn v s
FollowsProtocol _ s = Unit

pub apply-OneEach :
    (op : Op) (s : Store) → FollowsProtocol op s → IsKeyed s → OneEach s → OneEach (apply op s)
unfolding apply Posts.prune_pending_publications Posts.delete_post
apply-OneEach (Op.publish_post v) s f k h = absurd f
apply-OneEach (Op.reserve_publication v expires_at) s f k h = reserve-OneEach v expires_at s h
apply-OneEach (Op.commit_publication v) s f k h = commit-OneEach v s h f
apply-OneEach (Op.release_publication id) s f k h = release-OneEach id s h
apply-OneEach (Op.prune_pending_publications now) s f k h =
    shrink-OneEach s (Posts.prune_pending_publications now s) (λ i p e. e)
      (λ i p.
        get-prune-some pending_id (λ (x : PendingPost). leb x.expires_at now) i s.pending_posts p
          k.pending_posts)
      h
apply-OneEach (Op.delete_post id) s f k h =
    shrink-OneEach s (Posts.delete_post id s).1
      (λ i p e. ground (arith, get-delete-some id i s.posts p)) (λ i p e. ground arith) h
apply-OneEach op s f k h =
    shrink-OneEach s (apply op s) (λ i p. rw ((frame op s).posts refl) (λ e. e))
      (λ i p. rw ((frame op s).pending_posts refl) (λ e. e)) h

-- The stores that calls of the protocol lead to.
pub data Reach : Store → Type 0 where
  start : Reach empty
  call : {s : Store} (op : Op) → Reach s → FollowsProtocol op s → Reach (apply op s)

Reach-IsKeyed : {s : Store} → Reach s → IsKeyed s
Reach-IsKeyed start = empty-IsKeyed
Reach-IsKeyed (call {s} op r f) = apply-IsKeyed op s (Reach-IsKeyed r)

-- In every store that calls lead to from the empty one, if `publishPost` is not among them and each
-- commit is by the creator of the reservation that it finds: no two posts have one creator and one
-- content, nor do two reservations, nor a post and a reservation.
pub Reach-OneEach : (s : Store) → Reach s → OneEach s
unfolding get
Reach-OneEach _ start = record {
  published = λ i j p q hp. cc;
  reserved = λ i j p q hp. cc;
  apart = λ i j p q hp. cc;
}
Reach-OneEach _ (call {s} op r f) = apply-OneEach op s f (Reach-IsKeyed r) (Reach-OneEach s r)
