-- ===== src/Store/OneEach.antt =====
-- Publications of `MemoryStore`: the operations that keep the media of a creator apart.
use onlykas.Prelude.{
  String, ◌≡◌, refl, Bool, false, some, List, [], ◌∷◌, ◌++◌, map, arith, ◌==◌, eq_iff, ℕ, inl, inr,
  Bool-cases, Option-cases, if◌then◌else◌,
}
use onlykas.Prelude.Lists.{any, In, any-In}
use onlykas.Map.{Map, get, set, delete, values, prune}
use onlykas.Map.Laws.{get-set, get-delete, get-prune, get-In, HasKeys}
use onlykas.Domain.{Post}
use onlykas.Store.{Store, PendingPost}
use onlykas.Store.Posts
use onlykas.Store.Posts.{same_media}

-- One creator and one content.
abbrev pub SameMedia : Post → Post → Type 0
SameMedia p q = (p.creator ≡ q.creator) × (p.media_digest ≡ q.media_digest)

-- No media is published twice, reserved twice, or reserved while it is published.
pub record OneEach (s : Store) : Type 0 where
  pub published :
      (i j : String) (p q : Post)
      → get i s.posts ≡ some p
      → get j s.posts ≡ some q
      → SameMedia p q
      → i ≡ j
  pub reserved :
      (i j : String) (p q : PendingPost)
      → get i s.pending_posts ≡ some p
      → get j s.pending_posts ≡ some q
      → SameMedia p.post q.post
      → i ≡ j
  pub apart :
      (i j : String) (p : Post) (q : PendingPost)
      → get i s.posts ≡ some p
      → get j s.pending_posts ≡ some q
      → ¬ (SameMedia p q.post)

-- The reservation that `commitPublication` finds was made by the creator who commits.
abbrev pub IsOwn : Post → Store → Type 0
IsOwn v s = (x : PendingPost) → get v.id s.pending_posts ≡ some x → x.post.creator ≡ v.creator

map-In :
    (q : PendingPost) (xs : List PendingPost)
    → In q xs
    → In q.post (map (λ (x : PendingPost). x.post) xs)
map-In q [] i = i
map-In q (x ∷ xs) (inl e) = inl (cc)
map-In q (x ∷ xs) (inr i) = inr (map-In q xs i)

any-append :
    (f : Post → Bool) (xs ys : List Post)
    → any f (xs ++ ys) ≡ false
    → (any f xs ≡ false) × (any f ys ≡ false)
any-append f [] ys h = (refl, h)
any-append f (x ∷ xs) ys h = ground (arith, any-append f xs ys)

-- Taking entries away keeps the rest apart.
pub shrink-OneEach :
    (s t : Store)
    → ((i : String) (p : Post) → get i t.posts ≡ some p → get i s.posts ≡ some p)
    → ((i : String) (p : PendingPost)
        → get i t.pending_posts ≡ some p
        → get i s.pending_posts ≡ some p)
    → OneEach s
    → OneEach t
shrink-OneEach s t fewer_posts fewer_pending h = record {
  published = λ i j p q hp hq. h.published i j p q (fewer_posts i p hp) (fewer_posts j q hq);
  reserved = λ i j p q hp hq. h.reserved i j p q (fewer_pending i p hp) (fewer_pending j q hq);
  apart = λ i j p q hp hq. h.apart i j p q (fewer_posts i p hp) (fewer_pending j q hq);
}

pub get-delete-some :
    {V : Type 0} (k i : String) (m : Map V) (v : V) → get i (delete k m) ≡ some v → get i m ≡ some v
get-delete-some k i m v h = ground (arith, get-delete k i m)

pub get-prune-some :
    {V : Type 0} (key : V → String) (gone : V → Bool) (i : String) (m : Map V) (v : V)
    → HasKeys key m
    → get i (prune gone m) ≡ some v
    → get i m ≡ some v
get-prune-some key gone i m v k h = ground (arith, get-prune key gone i m k)

pub release-OneEach :
    (id : String) (s : Store) → OneEach s → OneEach (Posts.release_publication id s)
unfolding Posts.release_publication
release-OneEach id s =
    shrink-OneEach s (Posts.release_publication id s) (λ i p e. e)
      (λ i p. get-delete-some id i s.pending_posts p)

-- What a free reservation means for the entries that are there.
free_media :
    (v : Post) (s : Store)
    → any
        (same_media v.creator v.media_digest)
        (values s.posts ++ map (λ (x : PendingPost). x.post) (values s.pending_posts))
      ≡ false
    → ((i : String) (p : Post) → get i s.posts ≡ some p → ¬ (SameMedia p v))
      × ((i : String) (p : PendingPost) → get i s.pending_posts ≡ some p → ¬ (SameMedia p.post v))
free_media v s free = (
  λ i p e same. ground (
    arith,
    any-In (same_media v.creator v.media_digest) p (values s.posts) (split.0)
        (get-In i p s.posts e),
    eq_iff p.creator v.creator,
    eq_iff p.media_digest v.media_digest,
  ),
  λ i p e same. ground (
    arith,
    any-In (same_media v.creator v.media_digest) p.post pending (split.1)
        (map-In p (values s.pending_posts) (get-In i p s.pending_posts e)),
    eq_iff p.post.creator v.creator,
    eq_iff p.post.media_digest v.media_digest,
  ),
)
  where
    pending : List Post
    pending = map (λ (x : PendingPost). x.post) (values s.pending_posts)

    split :
        (any (same_media v.creator v.media_digest) (values s.posts) ≡ false)
        × (any (same_media v.creator v.media_digest) pending ≡ false)
    split = any-append (same_media v.creator v.media_digest) (values s.posts) pending free

module _ (v : Post) (expires_at : ℕ) (s : Store) (h : OneEach s) where
  reserve_free :
      ((i : String) (p : Post) → get i s.posts ≡ some p → ¬ (SameMedia p v))
      → ((i : String) (p : PendingPost) → get i s.pending_posts ≡ some p → ¬ (SameMedia p.post v))
      → OneEach (record s {
        pending_posts = set v.id (record { post = v; expires_at = expires_at }) s.pending_posts;
      })
  reserve_free fp fq = record {
    published = h.published;
    reserved = λ i j p q hp hq same.
        ground
          (arith, h.reserved i j p q, fq i p, fq j q, now i, now j, eq_iff v.id i, eq_iff v.id j);
    apart = λ i j p q hp hq same. ground (arith, h.apart i j p q, fp i p, now j, eq_iff v.id j);
  }
    where
      now :
          (j : String)
          → get j (set v.id (record { post = v; expires_at = expires_at }) s.pending_posts) ≡ (
              if v.id == j
              then some (record { post = v; expires_at = expires_at })
              else get j s.pending_posts)
      now j = get-set v.id j (record { post = v; expires_at = expires_at }) s.pending_posts

  pub reserve-OneEach : OneEach (Posts.reserve_publication v expires_at s).1
  unfolding Posts.reserve_publication
  reserve-OneEach =
      elim (Bool-cases (
        any (same_media v.creator v.media_digest)
          (values s.posts ++ map (λ (x : PendingPost). x.post) (values s.pending_posts)))) [
            | inl taken ↦ rw (taken, Posts.reserve_publication) h
            | inr free ↦
                rw (free, Posts.reserve_publication)
                  (reserve_free (free_media v s free).0 (free_media v s free).1)
          ]

module _ (v : Post) (s : Store) (h : OneEach s) where
  commit_reserved :
      (x : PendingPost)
      → get v.id s.pending_posts ≡ some x
      → SameMedia x.post v
      → OneEach
          (record s { posts = set v.id v s.posts; pending_posts = delete v.id s.pending_posts })
  commit_reserved x e own = record {
    published = λ i j p q hp hq same. ground (
      arith,
      h.published i j p q,
      h.apart i v.id p x,
      h.apart j v.id q x,
      get-set v.id i v s.posts,
      get-set v.id j v s.posts,
      eq_iff v.id i,
      eq_iff v.id j,
    );
    reserved = λ i j p q hp hq.
        h.reserved i j p q (get-delete-some v.id i s.pending_posts p hp)
          (get-delete-some v.id j s.pending_posts q hq);
    apart = λ i j p q hp hq same. ground (
      arith,
      h.apart i j p q,
      h.reserved v.id j x q,
      get-set v.id i v s.posts,
      get-delete v.id j s.pending_posts,
      eq_iff v.id i,
      eq_iff v.id j,
    );
  }

  pub commit-OneEach : IsOwn v s → OneEach (Posts.commit_publication v s).1
  unfolding Posts.commit_publication Posts.release_publication
  commit-OneEach own = elim (Option-cases (get v.id s.pending_posts)) [
    | inl e ↦ rw (e, Posts.commit_publication) (release-OneEach v.id s h)
    | inr (x, e) ↦
        rw (e, Posts.commit_publication)
          (elim (Bool-cases (x.post.media_digest == v.media_digest)) [
            | inl same ↦
                rw same (
                  commit_reserved x e (own x e, (eq_iff x.post.media_digest v.media_digest).0 same))
            | inr other ↦ rw other (release-OneEach v.id s h)
          ])
  ]
