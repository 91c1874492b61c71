-- ===== src/Store/Covenants.antt =====
-- backend/src/memory-store.ts: the covenants that creators offer, the
-- current one of each creator and the history of all.
use onlykas.Prelude.{
  String, Bool, not, ◌||◌, Option, none, some, List, ◌==◌, is_some, if◌then◌else◌,
}
use onlykas.Prelude.Lists.{any, keep}
use onlykas.Map.{get, set, delete, values}
use onlykas.Domain.{
  CreatorCovenant, active, canceled, is_canceled, DuplicateOutcome, created, duplicate,
}
use onlykas.Store.{Store}

unfoldable pub get_creator_covenant : String → Store → Option CreatorCovenant
get_creator_covenant creator s = elim (get creator s.creator_covenants) [
  | none ↦ none
  | some v ↦
      if is_canceled v.status
      then none
      else some (record {
        creator = v.creator;
        covenant_id = v.covenant_id;
        price_sompi = v.price_sompi;
        status = none;
      })
]

unfoldable pub list_creator_covenants : String → Store → List CreatorCovenant
list_creator_covenants creator s =
    keep (λ (v : CreatorCovenant). v.creator == creator) (values s.creator_covenant_history)

-- `this.creatorCovenants.set(v.creator, w); this.creatorCovenantHistory.set(v.covenantId, w)`
unfoldable pub record_covenant : CreatorCovenant → Store → Store
record_covenant w s = record s {
  creator_covenants = set w.creator w s.creator_covenants;
  creator_covenant_history = set w.covenant_id w s.creator_covenant_history;
}

unfoldable pub save_creator_covenant : CreatorCovenant → Store → DuplicateOutcome × Store
save_creator_covenant v s =
    if is_some (get v.creator s.creator_covenants)
      || any (λ (x : CreatorCovenant). x.covenant_id == v.covenant_id) (values s.creator_covenants)
    then (duplicate, s)
    else (created, record_covenant (record v { status = some active }) s)

unfoldable pub save_new_covenant : CreatorCovenant → Store → DuplicateOutcome × Store
save_new_covenant value s =
    if any (λ (x : CreatorCovenant). x.covenant_id == value.covenant_id)
      (values s.creator_covenant_history)
    then (duplicate, s)
    else (created, record_covenant (record value { status = some active }) s)

-- `this.preparedMembershipRecords.delete(id)` behind an outcome.
abbrev pub drop_prepared : String → DuplicateOutcome × Store → DuplicateOutcome × Store
drop_prepared id (outcome, s) =
    (outcome, record s { prepared_membership_records = delete id s.prepared_membership_records })

-- `current?.status === "CANCELED"`
abbrev pub was_canceled : Option CreatorCovenant → Bool
was_canceled none = Bool.false
was_canceled (some c) = is_canceled c.status

unfoldable pub finalize_offer : String → CreatorCovenant → Store → DuplicateOutcome × Store
finalize_offer id value s = drop_prepared id (
    if was_canceled (get value.creator s.creator_covenants)
    then save_new_covenant value s
    else save_creator_covenant value s)

unfoldable pub finalize_price_update : String → CreatorCovenant → Store → DuplicateOutcome × Store
finalize_price_update id value s = drop_prepared id (elim (get value.creator s.creator_covenants) [
  | none ↦ (duplicate, s)
  | some existing ↦
      if existing.covenant_id == value.covenant_id
      then (created, record_covenant (record value { status = some active }) s)
      else (duplicate, s)
])

-- The value of a cancellation has a creator and a covenant only.
unfoldable pub finalize_cancellation : String → String → String → Store → DuplicateOutcome × Store
finalize_cancellation id creator covenant_id s =
    drop_prepared id (elim (get creator s.creator_covenants) [
      | none ↦ (duplicate, s)
      | some existing ↦
          if not (existing.covenant_id == covenant_id) || is_canceled existing.status
          then (duplicate, s)
          else (
            created,
            record s {
              creator_covenants =
                  set creator (record existing { status = some canceled }) s.creator_covenants;
              creator_covenant_history =
                  set covenant_id (record existing { status = some canceled })
                    s.creator_covenant_history;
            },
          )
    ])
