-- ===== src/Tests/Members.antt =====
-- Membership and the right to see a post at concrete inputs.
use onlykas.Prelude.{String, ◌≡◌, refl, true, none, some, [], ◌∷◌, ◌⊎◌, inl}
use onlykas.Domain.{MembershipCheck, token, valid}
use onlykas.Map.{get, values}
use onlykas.Ports.{returns, MembershipVerifier}
use onlykas.Store.Posts.{get_post}
use onlykas.Store.Purchases.{get_purchase, purchase_key, membership_receipts}
use onlykas.Store.Covenants.{get_creator_covenant, list_creator_covenants}
use onlykas.Access.{is_active, covenant_ids, or_undefined, any_receipt, any_valid, discover}
use onlykas.Access.Evidence.{HasReceipt, HasToken, Answers, is_active-HasEvidence}
use onlykas.Checkout.{is_free_post}
use onlykas.View.{view_post, can_view, purchase_access, shown}
use onlykas.View.Rights.{HasBought, IsMember, view_post-HasRight}
use onlykas.Tests.Fixtures.{shop, picture, accepting}

abbrev membership : MembershipCheck
membership = record {
  transaction_id = "m1";
  output_index = 1;
  covenant_id = some "cov1";
  kind = token;
  owner = some "bob";
  content_creator = some "alice";
  platform_address = none;
  created_at_daa = none;
  expires_at_daa = none;
  created_at = none;
  valid_until = none;
  status = valid;
}

-- The chain has a membership of everyone under every covenant.
abbrev generous : MembershipVerifier
generous = record {
  find_membership = λ owner creator covenant. returns (some membership);
  verify_utxo = λ transaction index owner covenant creator. returns membership;
}

ids : covenant_ids "alice" shop ≡ "cov1" ∷ []
unfolding covenant_ids get_creator_covenant list_creator_covenants get values
ids = refl

bob_is_active : (is_active (some generous) "bob" "alice" shop).0 ≡ returns true
unfolding is_active any_receipt any_valid discover membership_receipts covenant_ids
    get_creator_covenant list_creator_covenants get values
bob_is_active = refl

is_active-HasEvidence_example :
    HasReceipt generous "bob" "alice"
      (covenant_ids "alice" shop)
      (membership_receipts "bob" "alice" shop)
    ⊎ HasToken generous "bob" "alice" (or_undefined (covenant_ids "alice" shop))
is_active-HasEvidence_example = is_active-HasEvidence generous "bob" "alice" shop bob_is_active

answers : Answers generous "bob" "alice"
answers = record {
  utxo = λ transaction id. (membership, refl);
  membership = λ id. (some membership, refl);
}

found : HasToken generous "bob" "alice" (or_undefined (covenant_ids "alice" shop))
unfolding covenant_ids get_creator_covenant list_creator_covenants get values
found = record { covenant_id = some "cov1"; check = membership; listed = inl refl; answered = refl }

carol_sees : (view_post (some accepting) none "p1" (some "carol") shop).0 ≡ shown picture true
unfolding view_post can_view purchase_access get_purchase purchase_key get_post is_free_post get
carol_sees = refl

view_post-HasRight_example :
    (get_post "p1" shop ≡ some picture)
    × ((is_free_post "100" ≡ true)
        ⊎ ((v : String) × (some "carol" ≡ some v)
            × ((v ≡ "alice")
                ⊎ HasBought (some accepting) picture v shop
                ⊎ IsMember none picture v shop)))
view_post-HasRight_example =
    view_post-HasRight (some accepting) none "p1" (some "carol") picture shop carol_sees
