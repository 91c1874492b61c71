-- ===== src/Store/CovenantKeys.antt =====
-- `MemoryStore`: the operations on covenants keep every map keyed by its values.
use onlykas.Prelude.{◌==◌, String, some, arith, eq_iff, inl, inr, Bool-cases, Option-cases}
use onlykas.Map.{get, delete}
use onlykas.Map.Laws.{set-HasKeys, update-HasKeys, delete-HasKeys}
use onlykas.Domain.{CreatorCovenant, CovenantStatus}
use onlykas.Store.{Store}
use onlykas.Store.Covenants
use onlykas.Store.Keys.{IsKeyed, creator_id, covenant_key, membership_id}

pub record_covenant-IsKeyed :
    (w : CreatorCovenant) (s : Store) → IsKeyed s → IsKeyed (Covenants.record_covenant w s)
unfolding Covenants.record_covenant
record_covenant-IsKeyed w s h = ground (
  arith,
  set-HasKeys creator_id w s.creator_covenants h.creator_covenants,
  set-HasKeys covenant_key w s.creator_covenant_history h.creator_covenant_history,
)

pub drop_prepared-IsKeyed :
    (id : String) (s : Store)
    → IsKeyed s
    → IsKeyed (record s { prepared_membership_records = delete id s.prepared_membership_records })
drop_prepared-IsKeyed id s h = ground (
  arith,
  delete-HasKeys membership_id id s.prepared_membership_records h.prepared_membership_records,
)

pub save_creator_covenant-IsKeyed :
    (v : CreatorCovenant) (s : Store) → IsKeyed s → IsKeyed (Covenants.save_creator_covenant v s).1
unfolding Covenants.save_creator_covenant
save_creator_covenant-IsKeyed v s h =
    ground (arith, record_covenant-IsKeyed (record v { status = some CovenantStatus.active }) s h)

pub save_new_covenant-IsKeyed :
    (v : CreatorCovenant) (s : Store) → IsKeyed s → IsKeyed (Covenants.save_new_covenant v s).1
unfolding Covenants.save_new_covenant
save_new_covenant-IsKeyed v s h =
    ground (arith, record_covenant-IsKeyed (record v { status = some CovenantStatus.active }) s h)

pub finalize_offer-IsKeyed :
    (id : String) (v : CreatorCovenant) (s : Store)
    → IsKeyed s
    → IsKeyed (Covenants.finalize_offer id v s).1
unfolding Covenants.finalize_offer
finalize_offer-IsKeyed id v s h =
    elim (Bool-cases (Covenants.was_canceled (get v.creator s.creator_covenants))) [
      | inl e ↦ rw e (drop_prepared-IsKeyed id _ (save_new_covenant-IsKeyed v s h))
      | inr e ↦ rw e (drop_prepared-IsKeyed id _ (save_creator_covenant-IsKeyed v s h))
    ]

pub finalize_price_update-IsKeyed :
    (id : String) (v : CreatorCovenant) (s : Store)
    → IsKeyed s
    → IsKeyed (Covenants.finalize_price_update id v s).1
unfolding Covenants.finalize_price_update
finalize_price_update-IsKeyed id v s h = elim (Option-cases (get v.creator s.creator_covenants)) [
  | inl e ↦ rw e (drop_prepared-IsKeyed id s h)
  | inr (c, e) ↦ rw e (elim (Bool-cases (c.covenant_id == v.covenant_id)) [
    | inl same ↦ rw same (
        drop_prepared-IsKeyed id _
          (record_covenant-IsKeyed (record v { status = some CovenantStatus.active }) s h))
    | inr other ↦ rw other (drop_prepared-IsKeyed id s h)
  ])
]

pub finalize_cancellation-IsKeyed :
    (id creator covenant_id : String) (s : Store)
    → IsKeyed s
    → IsKeyed (Covenants.finalize_cancellation id creator covenant_id s).1
unfolding Covenants.finalize_cancellation
finalize_cancellation-IsKeyed id creator covenant_id s h =
    elim (Option-cases (get creator s.creator_covenants)) [
      | inl e ↦ rw (e, Covenants.finalize_cancellation) (drop_prepared-IsKeyed id s h)
      | inr (c, e) ↦
          rw (e, Covenants.finalize_cancellation)
            (ground (
              arith,
              eq_iff c.covenant_id covenant_id,
              drop_prepared-IsKeyed id s h,
              update-HasKeys creator_id creator c
                  (record c { status = some CovenantStatus.canceled }) s.creator_covenants
                  h.creator_covenants e,
              set-HasKeys covenant_key (record c { status = some CovenantStatus.canceled })
                  s.creator_covenant_history h.creator_covenant_history,
            ))
    ]
