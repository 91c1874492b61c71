-- ===== src/Publish/Races.antt =====
-- backend/src/application/publication-use-cases.ts among other requests: a run of `publishPost` keeps
-- the media of each creator apart, whatever requests of the protocol come in while it uploads.
use onlykas.Prelude.{
  ℕ, ◌+◌, String, ◌≡◌, ◌≢◌, refl, List, [], ◌∷◌, arith, leb, eq_iff, inl, inr, Option-cases,
}
use onlykas.Map.{get, delete}
use onlykas.Map.Laws.{get-set}
use onlykas.Domain.{Post}
use onlykas.Ports.{Call, returns, throws}
use onlykas.Store.{Store, PendingPost}
use onlykas.Store.Op.{Op, apply, run}
use onlykas.Store.Frames.{frame}
use onlykas.Store.Keys.{IsKeyed, pending_id}
use onlykas.Store.History.{apply-IsKeyed, run-IsKeyed}
use onlykas.Store.Media.{FollowsProtocol, apply-OneEach}
use onlykas.Store.OneEach.{OneEach, IsOwn, get-delete-some, get-prune-some}
use onlykas.Store.Posts
use onlykas.Publish.Outcomes.{Commit-cases, Reservation-cases, reserve_duplicate}
use onlykas.Publish.{PublishPostInput, VerifiedMedia, publish_post, finish_publication, new_post}

-- Every call of the run follows the protocol in the store that it meets.
abbrev pub Follows : List Op → Store → Type 0
Follows [] s = Unit
Follows (op ∷ ops) s = FollowsProtocol op s × Follows ops (apply op s)

-- The call reserves nothing under the id.
abbrev pub Avoids : String → Op → Type 0
Avoids id (Op.reserve_publication v expires_at) = v.id ≢ id
Avoids id _ = Unit

abbrev pub AllAvoid : String → List Op → Type 0
AllAvoid id [] = Unit
AllAvoid id (op ∷ ops) = Avoids id op × AllAvoid id ops

run-OneEach :
    (ops : List Op) (s : Store) → Follows ops s → IsKeyed s → OneEach s → OneEach (run ops s)
unfolding run
run-OneEach [] s f k h = h
run-OneEach (op ∷ ops) s f k h =
    run-OneEach ops (apply op s) f.1 (apply-IsKeyed op s k) (apply-OneEach op s f.0 k h)

commit-pending :
    (w : Post) (s : Store)
    → (Posts.commit_publication w s).1.pending_posts ≡ delete w.id s.pending_posts
unfolding Posts.commit_publication
commit-pending w s = elim (Option-cases (get w.id s.pending_posts)) [
  | inl e ↦ ground arith
  | inr (x, e) ↦ ground arith
]

apply-IsOwn :
    (v : Post) (op : Op) (s : Store) → Avoids v.id op → IsKeyed s → IsOwn v s → IsOwn v (apply op s)
unfolding apply Posts.reserve_publication Posts.release_publication Posts.prune_pending_publications
apply-IsOwn v (Op.reserve_publication w expires_at) s a k h = λ x e. ground (
  arith,
  h x,
  get-set w.id v.id (record { post = w; expires_at = expires_at }) s.pending_posts,
  eq_iff w.id v.id,
)
apply-IsOwn v (Op.commit_publication w) s a k h =
    rw (commit-pending w s) (λ x e. h x (get-delete-some w.id v.id s.pending_posts x e))
apply-IsOwn v (Op.release_publication id) s a k h =
    λ x e. h x (get-delete-some id v.id s.pending_posts x e)
apply-IsOwn v (Op.prune_pending_publications now) s a k h = λ x e. h x (
    get-prune-some pending_id (λ (y : PendingPost). leb y.expires_at now) v.id s.pending_posts x
      k.pending_posts e)
apply-IsOwn v op s a k h = rw ((frame op s).pending_posts refl) h

run-IsOwn :
    (v : Post) (ops : List Op) (s : Store)
    → AllAvoid v.id ops
    → IsKeyed s
    → IsOwn v s
    → IsOwn v (run ops s)
unfolding run
run-IsOwn v [] s a k h = h
run-IsOwn v (op ∷ ops) s a k h =
    run-IsOwn v ops (apply op s) a.1 (apply-IsKeyed op s k) (apply-IsOwn v op s a.0 k h)

module _ (post : Post) (during : List Op) (s : Store) where
  finish-OneEach :
      (uploaded : Call (Unit {0}))
      → Follows during s
      → AllAvoid post.id during
      → IsKeyed s
      → IsOwn post s
      → OneEach s
      → OneEach (finish_publication post uploaded during s).store
  unfolding finish_publication apply
  finish-OneEach throws f a k own h =
      apply-OneEach (Op.release_publication post.id) (run during s) tt (run-IsKeyed during s k)
        (run-OneEach during s f k h)
  finish-OneEach (returns u) f a k own h =
      let before = run during s in
      let kept = run-IsKeyed during s k in
      let committed : OneEach (Posts.commit_publication post before).1 =
        apply-OneEach (Op.commit_publication post) before (run-IsOwn post during s a k own) kept
          (run-OneEach during s f k h) in
      elim (Commit-cases (Posts.commit_publication post before).0) [
        | inl e ↦ rw (e, finish_publication) committed
        | inr e ↦
            rw (e, finish_publication)
              (apply-OneEach (Op.release_publication post.id)
                (Posts.commit_publication post before).1 tt
                (apply-IsKeyed (Op.commit_publication post) before kept) committed)
      ]

reserve-IsOwn :
    (v : Post) (expires_at : ℕ) (s : Store)
    → (Posts.reserve_publication v expires_at s).0 ≡ Posts.Reservation.reserved
    → IsOwn v (Posts.reserve_publication v expires_at s).1
unfolding Posts.reserve_publication
reserve-IsOwn v expires_at s h x e = ground (
  arith,
  get-set v.id v.id (record { post = v; expires_at = expires_at }) s.pending_posts,
  eq_iff v.id v.id,
)

module _ (input : PublishPostInput) (media : VerifiedMedia) (id : String) (ttl : ℕ)
    (uploaded : Call (Unit {0})) (during : List Op) (s : Store) where
  -- A run of `publishPost` leaves the published and reserved media of each creator apart when it found
  -- them so in a keyed store, if the requests that are served while it uploads follow the protocol and
  -- none of them reserves under its id.
  pub publish_post-OneEach :
      IsKeyed s
      → OneEach s
      → AllAvoid id during
      → Follows during
          (Posts.reserve_publication
            (new_post input media id)
            (input.now + ttl)
            (Posts.prune_pending_publications input.now s)).1
      → OneEach (publish_post input (returns media) id ttl uploaded during s).store
  unfolding publish_post apply new_post
  publish_post-OneEach k h a f =
      let post = new_post input media id in
      let t = Posts.prune_pending_publications input.now s in
      let kt = apply-IsKeyed (Op.prune_pending_publications input.now) s k in
      let ht = apply-OneEach (Op.prune_pending_publications input.now) s tt k h in
      elim (Reservation-cases (Posts.reserve_publication post (input.now + ttl) t).0) [
        | inl e ↦
            rw (e, publish_post)
              (finish-OneEach post during (Posts.reserve_publication post (input.now + ttl) t).1
                uploaded f a (apply-IsKeyed (Op.reserve_publication post (input.now + ttl)) t kt)
                (reserve-IsOwn post (input.now + ttl) t e)
                (apply-OneEach (Op.reserve_publication post (input.now + ttl)) t tt kt ht))
        | inr e ↦ rw (e, reserve_duplicate post (input.now + ttl) t e, publish_post) ht
      ]
