-- ===== src/Store/Purchases.antt =====
-- backend/src/memory-store.ts: the receipts of single posts and of
-- memberships.
use Prim.Native.String.{◌++◌}
use onlykas.Prelude.{String, ◌&&◌, ◌||◌, Option, List, ◌==◌, is_some, if◌then◌else◌}
use onlykas.Prelude.Lists.{any, keep}
use onlykas.Map.{get, set, delete, values}
use onlykas.Domain.{Purchase, MembershipPurchase, DuplicateOutcome, created, duplicate}
use onlykas.Store.{Store}

-- The key of the purchases: `${postId}:${buyer}`.
unfoldable pub purchase_key : String → String → String
purchase_key post_id buyer = post_id ++ ":" ++ buyer

unfoldable pub create_purchase : Purchase → Store → DuplicateOutcome × Store
create_purchase v s =
    let key = purchase_key v.post_id v.buyer in
    if any (λ (x : Purchase). x.transaction_id == v.transaction_id) (values s.purchases)
      || is_some (get key s.purchases)
    then (duplicate, s)
    else (created, record s { purchases = set key v s.purchases })

unfoldable pub get_purchase : String → String → Store → Option Purchase
get_purchase post_id buyer s = get (purchase_key post_id buyer) s.purchases

unfoldable pub purchases_for_buyer : String → Store → List Purchase
purchases_for_buyer buyer s = keep (λ (v : Purchase). v.buyer == buyer) (values s.purchases)

unfoldable pub finalize_purchase : String → Purchase → Store → DuplicateOutcome × Store
finalize_purchase id value s =
    let (outcome, s') = create_purchase value s in
    (outcome, record s' { prepared_payment_records = delete id s'.prepared_payment_records })

unfoldable pub create_membership_purchase : MembershipPurchase → Store → DuplicateOutcome × Store
create_membership_purchase v s =
    if is_some (get v.transaction_id s.membership_purchase_records) then (duplicate, s) else (
      created,
      record s {
        membership_purchase_records = set v.transaction_id v s.membership_purchase_records;
      },
    )

unfoldable pub membership_receipts : String → String → Store → List MembershipPurchase
membership_receipts buyer creator s =
    keep (λ (v : MembershipPurchase). (v.buyer == buyer) && (v.creator == creator))
      (values s.membership_purchase_records)

unfoldable pub finalize_membership_purchase :
    String → MembershipPurchase → Store → DuplicateOutcome × Store
finalize_membership_purchase id value s =
    let (outcome, s') = create_membership_purchase value s in
    (outcome, record s' { prepared_membership_records = delete id s'.prepared_membership_records })
