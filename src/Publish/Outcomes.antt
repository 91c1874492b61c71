-- ===== src/Publish/Outcomes.antt =====
-- backend/src/application/publication-use-cases.ts and delete-post.ts: what each outcome leaves in the
-- store and in the object storage.
use onlykas.Prelude.{
  ℕ, ◌+◌, String, ◌≡◌, ◌≢◌, refl, sym, ap, Option, none, some, List, [], ◌∷◌, arith, eq_iff, ◌⊎◌,
  inl, inr, Option-cases, ◌∙◌, is_some, if◌then◌else◌,
}
use onlykas.Map.{Map, get, delete, set}
use onlykas.Map.Laws.{get-set, get-delete, get_key}
use onlykas.Domain.{Post}
use onlykas.Ports.{Call, returns, throws}
use onlykas.Store.{Store}
use onlykas.Store.Op.{Op, run}
use onlykas.Store.Keys.{IsKeyed, post_id}
use onlykas.Store.Posts.{
  Reservation, Commit, reserve_publication, commit_publication, release_publication,
  prune_pending_publications, find_post_by_media, get_post, delete_post,
}
use onlykas.Publish.{
  PublishPostInput, VerifiedMedia, created, duplicate, put_file, delete_object, Publication,
  new_post, finish_publication, publish_post, deleted, not_found, forbidden, delete_post_use_case,
  preview_key,
}

-- What a commit leaves.
commit_committed :
    (v : Post) (s : Store)
    → (commit_publication v s).0 ≡ Commit.committed
    → (commit_publication v s).1
      ≡ record s { pending_posts = delete v.id s.pending_posts; posts = set v.id v s.posts }
unfolding commit_publication
commit_committed v s h = elim (Option-cases (get v.id s.pending_posts)) [
  | inl e ↦ absurd (ground arith)
  | inr (x, e) ↦ ground arith
]

commit_duplicate :
    (v : Post) (s : Store)
    → (commit_publication v s).0 ≡ Commit.duplicate
    → (commit_publication v s).1 ≡ release_publication v.id s
unfolding commit_publication release_publication
commit_duplicate v s h = elim (Option-cases (get v.id s.pending_posts)) [
  | inl e ↦ ground arith
  | inr (x, e) ↦ ground arith
]

pub Commit-cases : (o : Commit) → (o ≡ Commit.committed) ⊎ (o ≡ Commit.duplicate)
Commit-cases Commit.committed = inl refl
Commit-cases Commit.duplicate = inr refl

delete_twice : {V : Type 0} (k : String) (m : Map V) → delete k (delete k m) ≡ delete k m
unfolding delete
delete_twice k [] = refl
delete_twice k ((i, v) ∷ m) = ground (arith, delete_twice k m, eq_iff i k)

release_twice :
    (id : String) (s : Store)
    → release_publication id (release_publication id s) ≡ release_publication id s
unfolding release_publication
release_twice id s = ap (λ m. record s { pending_posts = m }) (delete_twice id s.pending_posts)

module _ (post : Post) (during : List Op) (s : Store) where
  abbrev finished : Call (Unit {0}) → Publication
  finished uploaded = finish_publication post uploaded during s

  finish-cases :
      (uploaded : Call (Unit {0}))
      → (finished uploaded ≡ record {
        result = throws;
        calls = put_file post.media_key ∷ delete_object post.media_key ∷ [];
        store = release_publication post.id (run during s);
      })
        ⊎ (finished uploaded ≡ record {
          result = returns (created post);
          calls = put_file post.media_key ∷ [];
          store = record (run during s) {
            pending_posts = delete post.id (run during s).pending_posts;
            posts = set post.id post (run during s).posts;
          };
        })
        ⊎ ((o : Option Post) × (finished uploaded ≡ record {
          result = returns (duplicate o);
          calls = put_file post.media_key ∷ [];
          store = release_publication post.id (run during s);
        }))
  unfolding finish_publication
  finish-cases throws = inl refl
  finish-cases (returns u) = elim (Commit-cases (commit_publication post (run during s)).0) [
    | inl e ↦ inr (inl (rw (e, commit_committed post (run during s) e, finish_publication) refl))
    | inr e ↦ inr (
        inr (
          find_post_by_media post.creator post.media_digest
              (release_publication post.id (run during s)),
          rw
              (
                e,
                commit_duplicate post (run during s) e,
                release_twice post.id (run during s),
                finish_publication,
              )
              refl,
        ))
  ]

pub Reservation-cases : (o : Reservation) → (o ≡ Reservation.reserved) ⊎ (o ≡ Reservation.duplicate)
Reservation-cases Reservation.reserved = inl refl
Reservation-cases Reservation.duplicate = inr refl

pub reserve_duplicate :
    (v : Post) (expires_at : ℕ) (s : Store)
    → (reserve_publication v expires_at s).0 ≡ Reservation.duplicate
    → (reserve_publication v expires_at s).1 ≡ s
unfolding reserve_publication
reserve_duplicate v expires_at s h = ground arith

module _ (input : PublishPostInput) (media : VerifiedMedia) (id : String) (ttl : ℕ)
    (uploaded : Call (Unit {0})) (during : List Op) (s : Store) where
  abbrev reservation : Reservation × Store
  reservation =
      reserve_publication (new_post input media id) (input.now + ttl)
        (prune_pending_publications input.now s)

  abbrev post : Post
  post = new_post input media id

  abbrev pruned : Store
  pruned = prune_pending_publications input.now s

  abbrev publication : Publication
  publication = publish_post input (returns media) id ttl uploaded during s

  publish_post-cases :
      (publication ≡ finish_publication post uploaded during reservation.1)
      ⊎ (publication ≡ record {
        result = returns (duplicate (find_post_by_media post.creator post.media_digest pruned));
        calls = [];
        store = pruned;
      })
  unfolding publish_post
  publish_post-cases = elim (Reservation-cases reservation.0) [
    | inl e ↦ inl (rw (e, publish_post) refl)
    | inr e ↦ inr (rw (e, reserve_duplicate post (input.now + ttl) pruned e, publish_post) refl)
  ]

  -- A post that the use case reports as created is the post of the input: it is stored under its id,
  -- its reservation is gone, and the upload is the only call of the storage.
  pub publish_post_created :
      (v : Post)
      → publication.result ≡ returns (created v)
      → (v ≡ new_post input media id)
        × (get_post id publication.store ≡ some v)
        × (get id publication.store.pending_posts ≡ none)
        × (publication.calls ≡ put_file v.media_key ∷ [])
  unfolding get_post new_post
  publish_post_created v h = elim publish_post-cases [
    | inl e ↦ elim (finish-cases post during reservation.1 uploaded) [
      | inl f ↦ absurd (ground arith)
      | inr (inl f) ↦
          let reported : returns (created post) ≡ returns (created v) =
            sym (ap (λ (p : Publication). p.result) (e ∙ f)) ∙ h in
          rw (e, f)
            (
              ground (arith, reported),
              ground (
                arith,
                reported,
                get-set id id post (run during reservation.1).posts,
                eq_iff id id,
              ),
              ground
                  (arith, get-delete id id (run during reservation.1).pending_posts, eq_iff id id),
              ground (arith, reported),
            )
      | inr (inr (o, f)) ↦ absurd (ground arith)
    ]
    | inr e ↦ absurd (ground arith)
  ]

  -- If the use case throws although the media were verified, its reservation is gone, the posts are those
  -- that the requests served during the upload left, and the calls of the storage are the upload and
  -- the deletion of the same object.
  pub publish_post_throws :
      publication.result ≡ throws
      → (get id publication.store.pending_posts ≡ none)
        × (publication.store.posts ≡ (run during reservation.1).posts)
        × (publication.calls ≡ put_file post.media_key ∷ delete_object post.media_key ∷ [])
  unfolding new_post release_publication
  publish_post_throws h = elim publish_post-cases [
    | inl e ↦ elim (finish-cases post during reservation.1 uploaded) [
      | inl f ↦
          rw (e, f)
            (
              ground
                  (arith, get-delete id id (run during reservation.1).pending_posts, eq_iff id id),
              refl,
              refl,
            )
      | inr (inl f) ↦ absurd (ground arith)
      | inr (inr (o, f)) ↦ absurd (ground arith)
    ]
    | inr e ↦ absurd (ground arith)
  ]

-- In a store whose maps are keyed by their values, a deletion that the creator of the post asks for
-- reports the post as deleted, the post is gone, and the calls of the storage are the deletions of
-- its media and of its preview.
pub delete_post_by_creator :
    (id : String) (v : Post) (s : Store)
    → IsKeyed s
    → get_post id s ≡ some v
    → let (result, calls, t) = delete_post_use_case id v.creator s in
      (result ≡ deleted v)
      × (get_post id t ≡ none)
      × (calls ≡ delete_object v.media_key ∷ delete_object (preview_key v.media_key) ∷ [])
unfolding delete_post_use_case get_post delete_post
delete_post_by_creator id v s k h =
    let key : id ≡ v.id = get_key post_id id v s.posts k.posts h in
    rw (h, delete_post_use_case, delete_post)
      (
        ground (arith, eq_iff v.creator v.creator, eq_iff v.id v.id, get-delete v.id v.id s.posts),
        ground (arith, eq_iff v.creator v.creator, get-delete v.id v.id s.posts, eq_iff v.id v.id),
        ground (arith, eq_iff v.creator v.creator),
      )

-- If no post stands under the id, or its creator is not who asks, the answer is that it is not
-- found or forbidden, the storage is not called and the store is as before.
pub delete_post_by_others :
    (id requester : String) (s : Store)
    → ((post : Post) → get_post id s ≡ some post → post.creator ≢ requester)
    → let (result, calls, t) = delete_post_use_case id requester s in
      (result ≡ (if is_some (get_post id s) then forbidden else not_found)) × (calls ≡ []) × (t ≡ s)
unfolding delete_post_use_case get_post
delete_post_by_others id requester s h = elim (Option-cases (get id s.posts)) [
  | inl e ↦ rw (e, delete_post_use_case) (refl, refl, refl)
  | inr (v, e) ↦ rw e (ground (arith, h v e, eq_iff v.creator requester))
]
