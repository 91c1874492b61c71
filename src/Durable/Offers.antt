-- ===== src/Durable/Offers.antt =====
-- backend/src/libsql-store.ts: offers, price updates and cancellations of covenants.
use onlykas.Prelude.{
  String, ◌≡◌, refl, Bool, true, false, not, ◌&&◌, ◌||◌, none, some, List, [], ◌∷◌, ◌++◌, arith,
  ◌==◌, eq_iff, inl, inr, Bool-cases, if◌then◌else◌,
}
use onlykas.Prelude.Lists.{any, keep}
use onlykas.Domain.{CreatorCovenant, created, duplicate}
use onlykas.Sql.{first, insert, update, upsert}
use onlykas.Durable.{Database, CovenantRow}
use onlykas.Durable.Rows.{creator_covenant_from_row, covenant_row}
use onlykas.Durable.Memberships
use onlykas.Durable.Covenants.{
  is_offered, upsert_covenant, insert_history, get_creator_covenant, finalize_offer,
}

abbrev of_creator : CreatorCovenant → CovenantRow → Bool
of_creator v r = r.creator == v.creator

abbrev is_shown : CreatorCovenant → CovenantRow → Bool
is_shown v r = (r.creator == v.creator) && not (r.status == "CANCELED")

abbrev offered : CreatorCovenant → CovenantRow → CovenantRow
offered v r = record r {
  covenant_id = v.covenant_id;
  price_sompi = v.price_sompi;
  status = "ACTIVE";
}

module _ (v : CreatorCovenant) where
  first-update :
      (t : List CovenantRow)
      → any (of_creator v) t ≡ true
      → first (keep (is_shown v) (update (of_creator v) (offered v) t)) ≡ some (covenant_row v)
  unfolding update covenant_row
  first-update [] h = cc
  first-update (r ∷ t) h = elim (Bool-cases (r.creator == v.creator)) [
    | inl e ↦ ground (arith, e, eq_iff r.creator v.creator)
    | inr e ↦ ground (arith, e, first-update t)
  ]

  first-append :
      (t : List CovenantRow)
      → any (of_creator v) t ≡ false
      → first (keep (is_shown v) (t ++ (covenant_row v ∷ []))) ≡ some (covenant_row v)
  unfolding covenant_row
  first-append [] h = ground (arith, eq_iff v.creator v.creator)
  first-append (r ∷ t) h = ground (arith, first-append t)

  -- The row that an offer leaves for its creator.
  first-upsert :
      (t : List CovenantRow)
      → first (keep (is_shown v) (upsert (of_creator v) (offered v) (covenant_row v) t))
        ≡ some (covenant_row v)
  unfolding upsert
  first-upsert t = elim (Bool-cases (any (of_creator v) t)) [
    | inl e ↦ rw e (first-update t e)
    | inr e ↦ rw e (first-append t e)
  ]

-- What is shown of a covenant that is offered.
abbrev pub shown : CreatorCovenant → CreatorCovenant
shown v = record v { status = none }

-- The database with the offered covenant as the current one.
abbrev with_offer : CreatorCovenant → Database → Database
with_offer v db = record db {
  creator_covenants = upsert (of_creator v) (offered v) (covenant_row v) db.creator_covenants;
}

module _ (id : String) (v : CreatorCovenant) (db : Database)
    (closed : is_offered (first (keep (λ r. r.creator == v.creator) db.creator_covenants)) ≡ false)
    (free : any
        (λ r. not (r.creator == v.creator) && (r.covenant_id == v.covenant_id))
        db.creator_covenants
      ≡ false) where
  recorded_offer :
      any (λ r. r.covenant_id == v.covenant_id) db.creator_covenant_history ≡ true
      → finalize_offer id v db
        ≡ (duplicate, Memberships.delete_prepared_membership id (with_offer v db))
  unfolding finalize_offer upsert_covenant insert_history insert covenant_row
  recorded_offer e = rw (closed, free, e) refl

  new_offer :
      any (λ r. r.covenant_id == v.covenant_id) db.creator_covenant_history ≡ false
      → finalize_offer id v db ≡ (
        created,
        Memberships.delete_prepared_membership id (record (with_offer v db) {
          creator_covenant_history = db.creator_covenant_history ++ (covenant_row v ∷ []);
        }),
      )
  unfolding finalize_offer upsert_covenant insert_history insert covenant_row
  new_offer e = rw (closed, free, e) refl

-- In `LibsqlStore`, an offer by a creator who has no covenant or a canceled one, of a covenant that
-- no other creator has: if the history does not hold the covenant, the offer is reported as created
-- and the covenant is shown; if the history holds it, the offer is reported as a duplicate, and the
-- covenant is shown for the offered price all the same, while the history stays as it was.
pub durable_offer_outcome :
    (id : String) (v : CreatorCovenant) (db : Database)
    → is_offered (first (keep (λ r. r.creator == v.creator) db.creator_covenants)) ≡ false
    → any
        (λ r. not (r.creator == v.creator) && (r.covenant_id == v.covenant_id))
        db.creator_covenants
      ≡ false
    → ((finalize_offer id v db).0 ≡ (
        if any (λ r. r.covenant_id == v.covenant_id) db.creator_covenant_history
        then duplicate
        else created))
      × (get_creator_covenant v.creator (finalize_offer id v db).1 ≡ some (shown v))
      × ((finalize_offer id v db).1.creator_covenant_history ≡ (
          if any (λ r. r.covenant_id == v.covenant_id) db.creator_covenant_history
          then db.creator_covenant_history
          else db.creator_covenant_history ++ (covenant_row v ∷ [])))
unfolding get_creator_covenant covenant_row creator_covenant_from_row
    Memberships.delete_prepared_membership
durable_offer_outcome id v db closed free =
    elim (Bool-cases (any (λ r. r.covenant_id == v.covenant_id) db.creator_covenant_history)) [
      | inl e ↦
          rw (recorded_offer id v db closed free e, e)
            (refl, rw (first-upsert v db.creator_covenants) refl, refl)
      | inr e ↦
          rw (new_offer id v db closed free e, e)
            (refl, rw (first-upsert v db.creator_covenants) refl, refl)
    ]

-- A creator with an active covenant, and one who offers the covenant of another creator, is refused
-- by `finalizeOffer` of `LibsqlStore`, and no covenant and no history changes.
pub durable_offer_refused :
    (id : String) (v : CreatorCovenant) (db : Database)
    → (is_offered (first (keep (λ r. r.creator == v.creator) db.creator_covenants))
        || any
            (λ r. not (r.creator == v.creator) && (r.covenant_id == v.covenant_id))
            db.creator_covenants)
      ≡ true
    → ((finalize_offer id v db).0 ≡ duplicate)
      × ((finalize_offer id v db).1.creator_covenants ≡ db.creator_covenants)
      × ((finalize_offer id v db).1.creator_covenant_history ≡ db.creator_covenant_history)
unfolding finalize_offer upsert_covenant Memberships.delete_prepared_membership
durable_offer_refused id v db h =
    elim (Bool-cases
      (is_offered (first (keep (λ r. r.creator == v.creator) db.creator_covenants)))) [
        | inl e ↦ ground (arith, e, h)
        | inr e ↦ ground (arith, e, h)
      ]
