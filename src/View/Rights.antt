-- ===== src/View/Rights.antt =====
-- backend/src/app.ts: what a viewer who is shown a post has a right by.
use onlykas.Prelude.{
  String, ◌≡◌, refl, ap, ◌∙◌, true, Option, none, some, arith, ◌==◌, eq_iff, ◌⊎◌, inl, inr,
  Bool-cases, Option-cases,
}
use onlykas.Domain.{Post, Purchase}
use onlykas.Ports.{returns, Call-cases, PaymentGateway, MembershipVerifier}
use onlykas.Store.{Store}
use onlykas.Store.Posts.{get_post}
use onlykas.Store.Purchases.{get_purchase, membership_receipts}
use onlykas.Access.{is_active, covenant_ids, or_undefined}
use onlykas.Access.Evidence.{HasReceipt, HasToken, is_active-HasEvidence}
use onlykas.Checkout.{is_free_post}
use onlykas.View.{purchase_access, verify_receipt, can_view, view_post, shown}

-- The viewer has bought the post with a transaction that the gateway verifies.
abbrev pub HasBought : Option PaymentGateway → Post → String → Store → Type 0
HasBought gateway p v s =
    (g : PaymentGateway) × (receipt : Purchase) × (gateway ≡ some g)
    × (get_purchase p.id v s ≡ some receipt)
    × (verify_receipt g p v receipt ≡ returns true)

-- The viewer is a member of the post's creator, by evidence from the chain.
abbrev pub IsMember : Option MembershipVerifier → Post → String → Store → Type 0
IsMember verifier p v s =
    (m : MembershipVerifier) × (verifier ≡ some m)
    × (HasReceipt m v p.creator (covenant_ids p.creator s) (membership_receipts v p.creator s)
        ⊎ HasToken m v p.creator (or_undefined (covenant_ids p.creator s)))

module _ (gateway : Option PaymentGateway) (verifier : Option MembershipVerifier) where
  bought-HasBought :
      (p : Post) (v : String) (s : Store)
      → purchase_access gateway p v s ≡ returns true
      → HasBought gateway p v s
  unfolding purchase_access
  bought-HasBought p v s h = elim (Option-cases (get_purchase p.id v s)) [
    | inl e ↦ absurd (ground arith)
    | inr (receipt, e) ↦ elim (Option-cases gateway) [
      | inl f ↦ absurd (ground arith)
      | inr (g, f) ↦ (g, receipt, f, e, ground arith)
    ]
  ]

  active-IsMember :
      (p : Post) (v : String) (s : Store)
      → (is_active verifier v p.creator s).0 ≡ returns true
      → IsMember verifier p v s
  unfolding is_active
  active-IsMember p v s h = elim (Option-cases verifier) [
    | inl e ↦ absurd (ground arith)
    | inr (m, e) ↦ (m, e, is_active-HasEvidence m v p.creator s (ground (arith, e)))
  ]

  abbrev Right : Option String → Post → Store → Type 0
  Right viewer p s =
      (is_free_post p.price_sompi ≡ true)
      ⊎ ((v : String) × (viewer ≡ some v)
          × ((v ≡ p.creator) ⊎ HasBought gateway p v s ⊎ IsMember verifier p v s))

  viewer-Right :
      (p : Post) (v : String) (s : Store)
      → (can_view gateway verifier p (some v) s).0 ≡ returns true
      → Right (some v) p s
  unfolding can_view
  viewer-Right p v s h = elim (Bool-cases (is_free_post p.price_sompi)) [
    | inl free ↦ inl free
    | inr sold ↦ elim (Bool-cases (v == "")) [
      | inl blank ↦ absurd (ground (arith, sold, blank))
      | inr named ↦ elim (Bool-cases (v == p.creator)) [
        | inl own ↦ inr (v, refl, inl ((eq_iff v p.creator).0 own))
        | inr other ↦ elim (Call-cases (purchase_access gateway p v s)) [
          | inl e ↦ absurd (ground (arith, sold, named, other, e))
          | inr (b, e) ↦ elim (Bool-cases b) [
            | inl bought ↦ inr (v, refl, inr (inl (bought-HasBought p v s (e ∙ ap returns bought))))
            | inr unbought ↦ inr (
              v,
              refl,
              inr (inr (active-IsMember p v s (ground (arith, sold, named, other, e, unbought)))),
            )
          ]
        ]
      ]
    ]
  ]

  can_view-Right :
      (p : Post) (viewer : Option String) (s : Store)
      → (can_view gateway verifier p viewer s).0 ≡ returns true
      → Right viewer p s
  unfolding can_view
  can_view-Right p none s h = inl (ground arith)
  can_view-Right p (some v) s h = viewer-Right p v s h

  -- A post is shown as visible only to those with a right to it: the stored post is free, or the viewer is
  -- its creator, or has a receipt of it that the payment gateway verifies, or is a member of its creator
  -- by evidence that the membership verifier gives.
  pub view_post-HasRight :
      (post_id : String) (viewer : Option String) (p : Post) (s : Store)
      → (view_post gateway verifier post_id viewer s).0 ≡ shown p true
      → (get_post post_id s ≡ some p)
        × ((is_free_post p.price_sompi ≡ true)
            ⊎ ((v : String) × (viewer ≡ some v)
                × ((v ≡ p.creator) ⊎ HasBought gateway p v s ⊎ IsMember verifier p v s)))
  unfolding view_post
  view_post-HasRight post_id viewer p s h = elim (Option-cases (get_post post_id s)) [
    | inl e ↦ absurd (ground (arith, e))
    | inr (q, e) ↦ elim (Call-cases (can_view gateway verifier q viewer s).0) [
      | inl f ↦ absurd (ground (arith, e, f))
      | inr (b, f) ↦
          let same : q ≡ p = ground (arith, e, f) in
          let seen : b ≡ true = ground (arith, e, f) in
          (ground (arith, e, same), can_view-Right p viewer s (ground (arith, f, same, seen)))
    ]
  ]
