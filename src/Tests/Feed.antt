-- ===== src/Tests/Feed.antt =====
-- Publications and deletions at concrete inputs.
use onlykas.Prelude.{String, ◌≡◌, ◌≢◌, refl, some, List, [], ◌∷◌, arith, eq_iff}
use onlykas.Domain.{Post, image_png}
use onlykas.Map.{get, set, delete, values, prune}
use onlykas.Ports.{returns, throws}
use onlykas.Store.{empty}
use onlykas.Store.Op.{Op, apply, run}
use onlykas.Store.Auth.{delete_session}
use onlykas.Store.Media.{start, call, Reach-OneEach}
use onlykas.Store.OneEach.{IsOwn, OneEach}
use onlykas.Store.Posts.{
  get_post, reserve_publication, commit_publication, prune_pending_publications,
}
use onlykas.Publish.{
  PublishPostInput, VerifiedMedia, Publication, publish_post, finish_publication, new_post, created,
}
use onlykas.Publish.Races.{publish_post-OneEach}
use onlykas.Tests.Fixtures.{shop, shop-IsKeyed, picture}

abbrev input : PublishPostInput
input = record {
  creator = "alice";
  caption = "hill";
  price_sompi = "0";
  source_path = "/tmp/x";
  now = 40;
}

abbrev media : VerifiedMedia
media = record { digest = "cd34"; media_type = image_png; size = 9 }

abbrev hill : Post
hill = new_post input media "p2"

abbrev meanwhile : List Op
meanwhile =
    Op.reserve_publication (record picture { id = "p3"; media_digest = "ef" }) 90
    ∷ Op.delete_session "s1"
    ∷ []

abbrev published : Publication
published = publish_post input (returns media) "p2" 30 (returns tt) meanwhile shop

abbrev lost : Publication
lost = publish_post input (returns media) "p2" 30 throws meanwhile shop

is_created : published.result ≡ returns (created hill)
unfolding publish_post finish_publication new_post reserve_publication commit_publication
    prune_pending_publications get set delete values prune run apply delete_session
is_created = refl

is_lost : lost.result ≡ throws
unfolding publish_post finish_publication new_post reserve_publication prune_pending_publications
    get set delete values prune run apply delete_session
is_lost = refl

shop-OneEach : OneEach shop
unfolding get
shop-OneEach = record {
  published = λ i j p q hp hq same. ground (arith, eq_iff "p1" i, eq_iff "p1" j);
  reserved = λ i j p q hp. cc;
  apart = λ i j p q hp hq. cc;
}

avoids : ◌≢◌ {A = String} "p3" "p2"
avoids e = cc ((eq_iff "p3" "p2").1 e)

publish_post-OneEach_example : OneEach published.store
publish_post-OneEach_example =
    publish_post-OneEach input media "p2" 30 (returns tt) meanwhile shop shop-IsKeyed shop-OneEach
      (avoids, (tt, tt)) (tt, (tt, tt))

abbrev reserving : Op
reserving = Op.reserve_publication picture 90

own : IsOwn picture (apply reserving empty)
unfolding apply reserve_publication get set
own x e = ground arith

Reach-OneEach_example : OneEach (apply (Op.commit_publication picture) (apply reserving empty))
Reach-OneEach_example =
    Reach-OneEach (apply (Op.commit_publication picture) (apply reserving empty))
      (call (Op.commit_publication picture) (call reserving start tt) own)

mallory_is_not_alice : (v : Post) → get_post "p1" shop ≡ some v → ¬ (v.creator ≡ "mallory")
unfolding get get_post
mallory_is_not_alice v e = λ same. cc (same, e)
