-- ===== src/Durable/Purchases.antt =====
-- backend/src/libsql-store.ts: the receipts of single posts and of memberships.
use onlykas.Prelude.{String, Bool, true, ◌&&◌, ◌||◌, Option, none, some, List, ◌==◌}
use onlykas.Prelude.Lists.{keep}
use onlykas.Sql.{first, insert}
use onlykas.Domain.{Purchase, MembershipPurchase, DuplicateOutcome, created, duplicate}
use onlykas.Durable.{Database}
use onlykas.Durable.Payments.{delete_prepared_payment}
use onlykas.Durable.Memberships.{delete_prepared_membership}

-- PRIMARY KEY (post_id, buyer), UNIQUE (transaction_id)
abbrev pub purchase_clash : Purchase → Purchase → Bool
purchase_clash v r =
    ((r.post_id == v.post_id) && (r.buyer == v.buyer)) || (r.transaction_id == v.transaction_id)

abbrev pub insert_purchase : Purchase → Database → Option (List Purchase)
insert_purchase v db = insert purchase_clash (λ _. true) v db.purchases

unfoldable pub create_purchase : Purchase → Database → DuplicateOutcome × Database
create_purchase v db = elim (insert_purchase v db) [
  | none ↦ (duplicate, db)
  | some t ↦ (created, record db { purchases = t })
]

unfoldable pub get_purchase : String → String → Database → Option Purchase
get_purchase post_id buyer db =
    first (keep (λ r. (r.post_id == post_id) && (r.buyer == buyer)) db.purchases)

unfoldable pub purchases_for_buyer : String → Database → List Purchase
purchases_for_buyer buyer db = keep (λ (r : Purchase). r.buyer == buyer) db.purchases

-- PRIMARY KEY (transaction_id)
abbrev pub insert_receipt : MembershipPurchase → Database → Option (List MembershipPurchase)
insert_receipt v db =
    insert (λ w r. r.transaction_id == w.transaction_id) (λ _. true) v db.membership_purchases

unfoldable pub create_membership_purchase :
    MembershipPurchase → Database → DuplicateOutcome × Database
create_membership_purchase v db = elim (insert_receipt v db) [
  | none ↦ (duplicate, db)
  | some t ↦ (created, record db { membership_purchases = t })
]

unfoldable pub membership_receipts : String → String → Database → List MembershipPurchase
membership_receipts buyer creator db =
    keep (λ (r : MembershipPurchase). (r.buyer == buyer) && (r.creator == creator))
      db.membership_purchases

-- `transactionalFinalize`, given the database after the insertion, if that is not refused, and the
-- deletion of the prepared record. The refusal of the insertion does not roll back.
unfoldable pub transactional_finalize :
    (Database → Database) → Option Database → Database → DuplicateOutcome × Database
transactional_finalize drop inserted db = elim inserted [
  | none ↦ (duplicate, drop db)
  | some db' ↦ (created, drop db')
]

abbrev pub with_purchases : Database → Option (List Purchase) → Option Database
with_purchases db none = none
with_purchases db (some t) = some (record db { purchases = t })

unfoldable pub finalize_purchase : String → Purchase → Database → DuplicateOutcome × Database
finalize_purchase id v db =
    transactional_finalize (delete_prepared_payment id) (with_purchases db (insert_purchase v db))
      db

abbrev pub with_receipts : Database → Option (List MembershipPurchase) → Option Database
with_receipts db none = none
with_receipts db (some t) = some (record db { membership_purchases = t })

unfoldable pub finalize_membership_purchase :
    String → MembershipPurchase → Database → DuplicateOutcome × Database
finalize_membership_purchase id v db =
    transactional_finalize (delete_prepared_membership id) (with_receipts db (insert_receipt v db))
      db
