-- ===== src/Publish.antt =====
-- backend/src/application/publication-use-cases.ts, delete-post.ts and the object keys of
-- media-preview.ts, over the in-memory store. The object storage is outside: what a call of it answers
-- is an argument, and the calls made are returned as a list. While the upload runs other requests may
-- call the store; their calls are the argument `during`. The in-memory store throws nothing, so the
-- handler of a commit that throws is left out.
pub mod Outcomes
pub mod Races
use Prim.Native.String.{◌++◌}
use Prim.Native.String
use text.Mathlib.Text.{starts_with}
use onlykas.Prelude.{
  ℕ, zero, suc, ◌+◌, String, Bool, true, false, not, Option, none, some, List, [], ◌∷◌, ◌==◌,
  if◌then◌else◌,
}
use onlykas.Domain.{MediaType, Post}
use onlykas.Ports.{Call, returns, throws}
use onlykas.Store.{Store}
use onlykas.Store.Op.{Op, run}
use onlykas.Store.Posts.{
  Reservation, Commit, reserve_publication, commit_publication, release_publication,
  prune_pending_publications, find_post_by_media, get_post, delete_post,
}

pub record VerifiedMedia : Type 0 where
  pub digest : String
  pub media_type : MediaType
  pub size : ℕ

pub record PublishPostInput : Type 0 where
  pub creator : String
  pub caption : String
  pub price_sompi : String
  pub source_path : String
  pub now : ℕ

pub data PublishPostResult : Type 0 where
  created : Post → PublishPostResult
  duplicate : Option Post → PublishPostResult

-- The calls of the object storage.
pub data StorageCall : Type 0 where
  put_file : String → StorageCall
  delete_object : String → StorageCall

-- `text.slice(0, n)` and `text.slice(n)`
abbrev pub take_text : ℕ → String → String
take_text zero t = ""
take_text (suc n) String.[] = ""
take_text (suc n) (String.◌∷◌ c t) = String.◌∷◌ c (take_text n t)

abbrev pub drop_text : ℕ → String → String
drop_text zero t = t
drop_text (suc n) String.[] = ""
drop_text (suc n) (String.◌∷◌ c t) = drop_text n t

unfoldable pub media_key : String → String → String
media_key creator digest = "media/" ++ creator ++ "/" ++ take_text 2 digest ++ "/" ++ digest

abbrev pub preview_version : String
preview_version = "v8"

unfoldable pub preview_key : String → String
preview_key key =
    let suffix = if starts_with key "media/" then drop_text 6 key else key in
    "previews/" ++ preview_version ++ "/" ++ suffix ++ ".jpg"

-- The post that an input and its checked media stand for.
unfoldable pub new_post : PublishPostInput → VerifiedMedia → String → Post
new_post input media id = record {
  id = id;
  creator = input.creator;
  caption = input.caption;
  price_sompi = input.price_sompi;
  media_type = media.media_type;
  media_size = media.size;
  media_digest = media.digest;
  media_key = media_key input.creator media.digest;
  published_at = input.now;
}

-- What a run of the use case comes to.
pub record Publication : Type 0 where
  pub result : Call PublishPostResult
  pub calls : List StorageCall
  pub store : Store

-- From the upload on: `uploaded` is what the storage answered.
unfoldable pub finish_publication : Post → Call (Unit {0}) → List Op → Store → Publication
finish_publication post throws during s = record {
  result = throws;
  calls = put_file post.media_key ∷ delete_object post.media_key ∷ [];
  store = release_publication post.id (run during s);
}
finish_publication post (returns _) during s =
    let (outcome, t) = commit_publication post (run during s) in
    elim outcome [
      | Commit.committed ↦ record {
        result = returns (created post);
        calls = put_file post.media_key ∷ [];
        store = t;
      }
      | Commit.duplicate ↦ record {
        result = returns (
            duplicate
              (find_post_by_media post.creator post.media_digest (release_publication post.id t)));
        calls = put_file post.media_key ∷ [];
        store = release_publication post.id t;
      }
    ]

unfoldable pub publish_post :
    PublishPostInput
    → (media : Call VerifiedMedia) (id : String) (ttl : ℕ) (uploaded : Call (Unit {0}))
    → (during : List Op) → Store
    → Publication
publish_post input throws id ttl uploaded during s = record {
  result = throws;
  calls = [];
  store = s;
}
publish_post input (returns media) id ttl uploaded during s =
    let post = new_post input media id in
    let (reservation, t) =
      reserve_publication post (input.now + ttl) (prune_pending_publications input.now s) in
    elim reservation [
      | Reservation.reserved ↦ finish_publication post uploaded during t
      | Reservation.duplicate ↦ record {
        result = returns (duplicate (find_post_by_media post.creator post.media_digest t));
        calls = [];
        store = t;
      }
    ]

pub data DeletePostResult : Type 0 where
  deleted : Post → DeletePostResult
  not_found forbidden : DeletePostResult

-- A storage call that throws is logged and passed over.
unfoldable pub delete_post_use_case :
    String → String → Store → DeletePostResult × List StorageCall × Store
delete_post_use_case post_id requester s = elim (get_post post_id s) [
  | none ↦ (not_found, [], s)
  | some post ↦
      if not (post.creator == requester)
      then (forbidden, [], s)
      else (let (found, t) = delete_post post.id s in
          elim found [
            | none ↦ (not_found, [], t)
            | some v ↦ (
              deleted v,
              delete_object v.media_key ∷ delete_object (preview_key v.media_key) ∷ [],
              t,
            )
          ])
]
