-- ===== src/View.antt =====
-- backend/src/app.ts, who may see a post: the routes `/api/posts/:id` and `/api/creators/:address`,
-- with purchaseAccess and purchasedPostIds, over the in-memory store. The answers of the payment gateway
-- and of the membership verifier are parameters, and a throw of either ends the request.
pub mod Rights
use onlykas.Prelude.{
  String, Bool, true, false, not, ◌&&◌, ◌||◌, Option, none, some, List, [], ◌∷◌, ◌++◌, map, ◌==◌,
  is_some, if◌then◌else◌,
}
use onlykas.Prelude.Lists.{any, keep}
use onlykas.Domain.{Post, Purchase, Profile, CreatorCovenant, is_canceled}
use onlykas.Ports.{Call, returns, throws, PaymentGateway, MembershipVerifier}
use onlykas.Map.{Map, get, set}
use onlykas.Store.{Store}
use onlykas.Store.Auth.{get_profile}
use onlykas.Store.Posts.{get_post, creator_posts}
use onlykas.Store.Purchases.{get_purchase, purchases_for_buyer}
use onlykas.Store.Covenants.{get_creator_covenant, list_creator_covenants}
use onlykas.Access.{is_active, given}
use onlykas.Checkout.{is_free_post}

module _ (gateway : PaymentGateway) (post : Post) (buyer : String) where
  -- What the gateway says of a receipt.
  abbrev pub verify_receipt : Purchase → Call Bool
  verify_receipt receipt =
      gateway.verify_purchase receipt.transaction_id buyer post.creator post.price_sompi post.id
        post.media_digest

unfoldable pub purchase_access : Option PaymentGateway → Post → String → Store → Call Bool
purchase_access gateway post buyer s = elim (get_purchase post.id buyer s) [
  | none ↦ returns false
  | some receipt ↦ elim gateway [
    | none ↦ returns false
    | some g ↦ verify_receipt g post buyer receipt
  ]
]

-- `new Map(receipts.map((r) => [r.postId, r]))`
abbrev pub by_post : List Purchase → Map Purchase → Map Purchase
by_post [] m = m
by_post (r ∷ rs) m = by_post rs (set r.post_id r m)

unfoldable pub unlocked_posts :
    PaymentGateway → String → Map Purchase → List Post → Call (List String)
unlocked_posts gateway buyer receipts [] = returns []
unlocked_posts gateway buyer receipts (post ∷ posts) =
    let rest = unlocked_posts gateway buyer receipts posts in
    elim (get post.id receipts) [
      | none ↦ rest
      | some receipt ↦ elim (verify_receipt gateway post buyer receipt) [
        | throws ↦ throws
        | returns ok ↦ elim rest [
          | throws ↦ throws
          | returns ids ↦ returns (if ok then post.id ∷ ids else ids)
        ]
      ]
    ]

unfoldable pub purchased_post_ids :
    Option PaymentGateway → List Post → String → Store → Call (List String)
purchased_post_ids none posts buyer s = returns []
purchased_post_ids (some gateway) posts buyer s =
    unlocked_posts gateway buyer (by_post (purchases_for_buyer buyer s) []) posts

pub data ViewResponse : Type 0 where
  post_not_found failed : ViewResponse
  shown : Post → Bool → ViewResponse

module _ (gateway : Option PaymentGateway) (verifier : Option MembershipVerifier) where
  -- `isFreePost(…) || (viewer && (viewer === p.creator || purchaseAccess || isActive))`
  unfoldable pub can_view : Post → Option String → Store → Call Bool × Store
  can_view p viewer s =
      if is_free_post p.price_sompi then (returns true, s) else elim (given viewer) [
        | none ↦ (returns false, s)
        | some v ↦
            if v == p.creator then (returns true, s) else elim (purchase_access gateway p v s) [
              | throws ↦ (throws, s)
              | returns bought ↦
                  if bought then (returns true, s) else is_active verifier v p.creator s
            ]
      ]

  unfoldable pub view_post : String → Option String → Store → ViewResponse × Store
  view_post post_id viewer s = elim (get_post post_id s) [
    | none ↦ (post_not_found, s)
    | some p ↦
        let (visible, t) = can_view p viewer s in
        elim visible [ throws ↦ (failed, t) | returns b ↦ (shown p b, t) ]
  ]

pub record CreatorPage : Type 0 where
  pub display_name : Option String
  pub is_public : Bool
  pub is_owner : Bool
  pub is_offered : Bool
  pub was_canceled : Bool
  pub is_member : Bool
  pub price_sompi : Option String
  pub posts : List (Post × Bool)

pub data PageResponse : Type 0 where
  invalid_address failed : PageResponse
  page : CreatorPage → PageResponse

abbrev pub is_text : Option String → String → Bool
is_text none t = false
is_text (some v) t = v == t

abbrev pub has_id : List String → String → Bool
has_id ids id = any (λ (x : String). x == id) ids

-- The ids of the posts that cost nothing.
abbrev pub free_ids : List Post → List String
free_ids posts = map (λ (p : Post). p.id) (keep (λ (p : Post). is_free_post p.price_sompi) posts)

abbrev pub name_of : Option Profile → Option String
name_of none = none
name_of (some p) = p.display_name

abbrev pub visibility_of : Option Profile → Bool
visibility_of none = true
visibility_of (some p) = p.is_public

abbrev pub price_of : Option CreatorCovenant → Option String
price_of none = none
price_of (some c) = some c.price_sompi

module _ (gateway : Option PaymentGateway) (verifier : Option MembershipVerifier) where
  -- `viewer && !isOwner && isActive(viewer, address)`
  unfoldable pub check_member : Option String → String → Store → Call Bool × Store
  check_member viewer address s = elim (given viewer) [
    | none ↦ (returns false, s)
    | some v ↦ if v == address then (returns false, s) else is_active verifier v address s
  ]

  -- The ids of the posts that the viewer may see.
  unfoldable pub visible_ids :
      Option String → String → Bool → List Post → Store → Call (List String)
  visible_ids viewer address active posts s =
      if is_text viewer address || active
      then returns (free_ids posts ++ map (λ (p : Post). p.id) posts)
      else elim (given viewer) [
        | none ↦ returns (free_ids posts)
        | some v ↦ elim (purchased_post_ids gateway posts v s) [
          | throws ↦ throws
          | returns ids ↦ returns (free_ids posts ++ ids)
        ]
      ]

  -- `is_address` is the network's pattern of addresses.
  unfoldable pub creator_page :
      (String → Bool) → String → Option String → Store → PageResponse × Store
  creator_page is_address address viewer s =
      if not (is_address address)
      then (invalid_address, s)
      else (let posts = creator_posts address s in
          let covenant = get_creator_covenant address s in
          let (member, t) = check_member viewer address s in
          elim member [
            | throws ↦ (PageResponse.failed, t)
            | returns active ↦ elim (visible_ids viewer address active posts t) [
              | throws ↦ (PageResponse.failed, t)
              | returns ids ↦ (
                page (record {
                  display_name = name_of (get_profile address t);
                  is_public = visibility_of (get_profile address t);
                  is_owner = is_text viewer address;
                  is_offered = is_some covenant;
                  was_canceled =
                      not (is_some covenant)
                      && any (λ (c : CreatorCovenant). is_canceled c.status)
                          (list_creator_covenants address s);
                  is_member = active;
                  price_sompi = price_of covenant;
                  posts = map (λ (p : Post). (p, has_id ids p.id)) posts;
                }),
                t,
              )
            ]
          ])
