-- ===== src/Durable/Covenants.antt =====
-- backend/src/libsql-store.ts: the covenants that creators offer. The three finalizations are write
-- transactions, in which a refused statement changes nothing and the others stay.
use onlykas.Prelude.{
  String, Bool, true, not, ◌&&◌, ◌||◌, Option, none, some, List, map, eqb, ◌==◌, if◌then◌else◌,
}
use onlykas.Prelude.Lists.{length, any, keep}
use onlykas.Sql.{first, insert, update, upsert}
use onlykas.Domain.{CreatorCovenant, DuplicateOutcome, created, duplicate}
use onlykas.Durable.{Database, CovenantRow}
use onlykas.Durable.Rows.{creator_covenant_from_row, covenant_row}
use onlykas.Durable.Memberships.{delete_prepared_membership}

abbrev pub decoded_covenant : Option CovenantRow → Option CreatorCovenant
decoded_covenant none = none
decoded_covenant (some r) = some (creator_covenant_from_row r)

unfoldable pub get_creator_covenant : String → Database → Option CreatorCovenant
get_creator_covenant creator db = decoded_covenant (
    first (keep (λ r. (r.creator == creator) && not (r.status == "CANCELED")) db.creator_covenants))

unfoldable pub list_creator_covenants : String → Database → List CreatorCovenant
list_creator_covenants creator db =
    map creator_covenant_from_row
      (keep (λ (r : CovenantRow). r.creator == creator) db.creator_covenant_history)

unfoldable pub save_creator_covenant : CreatorCovenant → Database → DuplicateOutcome × Database
save_creator_covenant v db =
    elim (insert (λ w r. (r.creator == w.creator) || (r.covenant_id == w.covenant_id)) (λ _. true)
      (covenant_row v) db.creator_covenants) [
        | none ↦ (duplicate, db)
        | some t ↦ (created, record db { creator_covenants = t })
      ]

-- The row stops a new offer.
abbrev pub is_offered : Option CovenantRow → Bool
is_offered none = Bool.false
is_offered (some r) = not (r.status == "CANCELED")

-- `INSERT INTO creator_covenants ... ON CONFLICT(creator) DO UPDATE`; the covenant must not be
-- that of another creator.
unfoldable pub upsert_covenant : CreatorCovenant → List CovenantRow → Option (List CovenantRow)
upsert_covenant v t =
    if any (λ r. not (r.creator == v.creator) && (r.covenant_id == v.covenant_id)) t
    then none
    else some (
        upsert (λ r. r.creator == v.creator)
          (λ r. record r {
            covenant_id = v.covenant_id;
            price_sompi = v.price_sompi;
            status = "ACTIVE";
          })
          (covenant_row v) t)

-- `INSERT INTO creator_covenant_history`
unfoldable pub insert_history : CreatorCovenant → List CovenantRow → Option (List CovenantRow)
insert_history v t = insert (λ w r. r.covenant_id == w.covenant_id) (λ _. true) (covenant_row v) t

unfoldable pub finalize_offer : String → CreatorCovenant → Database → DuplicateOutcome × Database
finalize_offer id v db =
    if is_offered (first (keep (λ r. r.creator == v.creator) db.creator_covenants))
    then (duplicate, delete_prepared_membership id db)
    else elim (upsert_covenant v db.creator_covenants) [
      | none ↦ (duplicate, delete_prepared_membership id db)
      | some t ↦
          let changed = record db { creator_covenants = t } in
          elim (insert_history v db.creator_covenant_history) [
            | none ↦ (duplicate, delete_prepared_membership id changed)
            | some h ↦ (
              created,
              delete_prepared_membership id (record changed { creator_covenant_history = h }),
            )
          ]
    ]

-- `WHERE creator=? AND covenant_id=?`
abbrev pub is_covenant : String → String → CovenantRow → Bool
is_covenant creator covenant_id r = (r.creator == creator) && (r.covenant_id == covenant_id)

-- `WHERE creator=? AND covenant_id=? AND status<>'CANCELED'`
abbrev pub is_open_covenant : String → String → CovenantRow → Bool
is_open_covenant creator covenant_id r =
    is_covenant creator covenant_id r && not (r.status == "CANCELED")

-- The two updates of a finalization, and the deletion of the prepared record.
unfoldable pub change_covenant :
    String → String → String → (CovenantRow → CovenantRow) → Database → DuplicateOutcome × Database
change_covenant id creator covenant_id change db =
    let test = is_open_covenant creator covenant_id in
    if eqb (length (keep test db.creator_covenants)) 1
    then (
      created,
      delete_prepared_membership id (record db {
        creator_covenants = update test change db.creator_covenants;
        creator_covenant_history =
            update (is_covenant creator covenant_id) change db.creator_covenant_history;
      }),
    )
    else (
      duplicate,
      delete_prepared_membership id
          (record db { creator_covenants = update test change db.creator_covenants }),
    )

unfoldable pub finalize_price_update :
    String → CreatorCovenant → Database → DuplicateOutcome × Database
unfolding change_covenant
finalize_price_update id v db =
    change_covenant id v.creator v.covenant_id
      (λ r. record r { price_sompi = v.price_sompi; status = "ACTIVE" }) db

unfoldable pub finalize_cancellation :
    String → String → String → Database → DuplicateOutcome × Database
unfolding change_covenant
finalize_cancellation id creator covenant_id db =
    change_covenant id creator covenant_id (λ r. record r { status = "CANCELED" }) db
