-- ===== src/Store/Mirror.antt =====
-- The covenants of `MemoryStore`: the current covenant of every creator is the one that the history
-- holds for its id, so no two creators offer one covenant.
use onlykas.Prelude.{
  String, ◌≡◌, refl, ◌≢◌, not, ◌||◌, some, List, [], ◌∷◌, arith, ◌==◌, eq_iff, is_some, inl, inr,
  Bool-cases, Option-cases,
}
use onlykas.Prelude.Lists.{any, any-In}
use onlykas.Map.{get, values}
use onlykas.Map.Laws.{get-set, get-In, get_key}
use onlykas.Domain.{CreatorCovenant, CovenantStatus, is_canceled}
use onlykas.Store.{Store, empty}
use onlykas.Store.Covenants
use onlykas.Store.Covenants.{record_covenant, was_canceled}
use onlykas.Store.Keys.{IsKeyed, creator_id}
use onlykas.Store.History.{apply-IsKeyed, run-IsKeyed, empty-IsKeyed}
use onlykas.Store.Frames.{frame}
use onlykas.Store.Op.{Op, apply, run}

abbrev pub IsMirrored : Store → Type 0
IsMirrored s =
    (i : String) (c : CreatorCovenant)
    → get i s.creator_covenants ≡ some c
    → get c.covenant_id s.creator_covenant_history ≡ some c

module _ (w : CreatorCovenant) (s : Store) (h : IsMirrored s) where
  -- A covenant that no other creator holds may be recorded.
  record-IsMirrored :
      ((i : String) (c : CreatorCovenant)
        → get i s.creator_covenants ≡ some c
        → w.creator ≢ i
        → c.covenant_id ≢ w.covenant_id)
      → IsMirrored (record_covenant w s)
  unfolding record_covenant
  record-IsMirrored others i c e = ground (
    arith,
    h i c,
    others i c,
    eq_iff w.creator i,
    eq_iff w.covenant_id c.covenant_id,
    get-set w.creator i w s.creator_covenants,
    get-set w.covenant_id c.covenant_id w s.creator_covenant_history,
  )

module _ (v : CreatorCovenant) (s : Store) (h : IsMirrored s) where
  save-IsMirrored : IsMirrored (Covenants.save_creator_covenant v s).1
  unfolding Covenants.save_creator_covenant
  save-IsMirrored =
      elim (Bool-cases (
        is_some (get v.creator s.creator_covenants)
        || any (λ (x : CreatorCovenant). x.covenant_id == v.covenant_id)
            (values s.creator_covenants))) [
              | inl taken ↦ rw (taken, Covenants.save_creator_covenant) h
              | inr free ↦
                  rw (free, Covenants.save_creator_covenant)
                    (record-IsMirrored (record v { status = some CovenantStatus.active }) s h
                      (λ i c e ne. ground (
                        arith,
                        eq_iff c.covenant_id v.covenant_id,
                        any-In (λ (x : CreatorCovenant). x.covenant_id == v.covenant_id) c
                            (values s.creator_covenants) (ground arith)
                            (get-In i c s.creator_covenants e),
                      )))
            ]

  save_new-IsMirrored : IsMirrored (Covenants.save_new_covenant v s).1
  unfolding Covenants.save_new_covenant
  save_new-IsMirrored =
      elim (Bool-cases (
        any (λ (x : CreatorCovenant). x.covenant_id == v.covenant_id)
          (values s.creator_covenant_history))) [
            | inl taken ↦ rw (taken, Covenants.save_new_covenant) h
            | inr free ↦
                rw (free, Covenants.save_new_covenant)
                  (record-IsMirrored (record v { status = some CovenantStatus.active }) s h
                    (λ i c e ne. ground (
                      arith,
                      eq_iff c.covenant_id v.covenant_id,
                      any-In (λ (x : CreatorCovenant). x.covenant_id == v.covenant_id) c
                          (values s.creator_covenant_history) free
                          (get-In c.covenant_id c s.creator_covenant_history (h i c e)),
                    )))
          ]

  finalize_offer-IsMirrored : (id : String) → IsMirrored (Covenants.finalize_offer id v s).1
  unfolding Covenants.finalize_offer
  finalize_offer-IsMirrored id =
      elim (Bool-cases (was_canceled (get v.creator s.creator_covenants))) [
        | inl e ↦ rw (e, Covenants.finalize_offer) save_new-IsMirrored
        | inr e ↦ rw (e, Covenants.finalize_offer) save-IsMirrored
      ]

-- The entry of another creator has another covenant.
others_apart :
    (s : Store) (creator i : String) (existing c : CreatorCovenant)
    → IsKeyed s
    → IsMirrored s
    → get creator s.creator_covenants ≡ some existing
    → get i s.creator_covenants ≡ some c
    → creator ≢ i
    → c.covenant_id ≢ existing.covenant_id
others_apart s creator i existing c k h found e ne same = ground (
  arith,
  h creator existing found,
  h i c e,
  get_key creator_id creator existing s.creator_covenants k.creator_covenants found,
  get_key creator_id i c s.creator_covenants k.creator_covenants e,
)

module _ (id : String) (s : Store) (k : IsKeyed s) (h : IsMirrored s) where
  price_update-IsMirrored :
      (v : CreatorCovenant) → IsMirrored (Covenants.finalize_price_update id v s).1
  unfolding Covenants.finalize_price_update
  price_update-IsMirrored v = elim (Option-cases (get v.creator s.creator_covenants)) [
    | inl e ↦ rw (e, Covenants.finalize_price_update) h
    | inr (x, e) ↦
        rw (e, Covenants.finalize_price_update)
          (elim (Bool-cases (x.covenant_id == v.covenant_id)) [
            | inl same ↦ rw same (
                record-IsMirrored (record v { status = some CovenantStatus.active }) s h
                  (λ i c ei ne. ground (
                    arith,
                    eq_iff x.covenant_id v.covenant_id,
                    others_apart s v.creator i x c k h e ei ne,
                  )))
            | inr other ↦ rw other h
          ])
  ]

  cancellation-IsMirrored :
      (creator covenant_id : String)
      → IsMirrored (Covenants.finalize_cancellation id creator covenant_id s).1
  unfolding Covenants.finalize_cancellation
  cancellation-IsMirrored creator covenant_id =
      elim (Option-cases (get creator s.creator_covenants)) [
        | inl e ↦ rw (e, Covenants.finalize_cancellation) h
        | inr (x, e) ↦
            rw (e, Covenants.finalize_cancellation)
              (elim (Bool-cases (not (x.covenant_id == covenant_id) || is_canceled x.status)) [
                | inl stale ↦ rw stale h
                | inr fits ↦ rw fits (λ i c ei.
                    let w : CreatorCovenant = record x { status = some CovenantStatus.canceled } in
                    ground (
                      arith,
                      h i c,
                      eq_iff creator i,
                      eq_iff covenant_id c.covenant_id,
                      eq_iff x.covenant_id covenant_id,
                      get-set creator i w s.creator_covenants,
                      get-set covenant_id c.covenant_id w s.creator_covenant_history,
                      others_apart s creator i x c k h e,
                    ))
              ])
      ]

apply-IsMirrored : (op : Op) (s : Store) → IsKeyed s → IsMirrored s → IsMirrored (apply op s)
unfolding apply
apply-IsMirrored (Op.save_creator_covenant v) s k h = save-IsMirrored v s h
apply-IsMirrored (Op.finalize_offer id v) s k h = finalize_offer-IsMirrored v s h id
apply-IsMirrored (Op.finalize_price_update id v) s k h = price_update-IsMirrored id s k h v
apply-IsMirrored (Op.finalize_cancellation id creator covenant_id) s k h =
    cancellation-IsMirrored id s k h creator covenant_id
apply-IsMirrored op s k h =
    rw ((frame op s).creator_covenants refl, (frame op s).creator_covenant_history refl) h

run-IsMirrored : (ops : List Op) (s : Store) → IsKeyed s → IsMirrored s → IsMirrored (run ops s)
unfolding run
run-IsMirrored [] s k h = h
run-IsMirrored (op ∷ ops) s k h =
    run-IsMirrored ops (apply op s) (apply-IsKeyed op s k) (apply-IsMirrored op s k h)

-- After any calls of the store, from the empty one: the current covenant of every creator is the
-- covenant that the history holds for its id, with the same price and status; and two creators whose
-- current covenants have one id are one creator.
pub history-IsMirrored :
    (ops : List Op)
    → IsMirrored (run ops empty)
      × ((i j : String) (c d : CreatorCovenant)
          → get i (run ops empty).creator_covenants ≡ some c
          → get j (run ops empty).creator_covenants ≡ some d
          → c.covenant_id ≡ d.covenant_id
          → i ≡ j)
history-IsMirrored ops = (mirrored, one)
  where
    s : Store
    s = run ops empty

    keyed : IsKeyed s
    keyed = run-IsKeyed ops empty empty-IsKeyed

    mirrored : IsMirrored s
    mirrored = run-IsMirrored ops empty empty-IsKeyed (unfold get in λ i c e. cc)

    one :
        (i j : String) (c d : CreatorCovenant)
        → get i s.creator_covenants ≡ some c
        → get j s.creator_covenants ≡ some d
        → c.covenant_id ≡ d.covenant_id
        → i ≡ j
    one i j c d ei ej same = ground (
      arith,
      mirrored i c ei,
      mirrored j d ej,
      get_key creator_id i c s.creator_covenants keyed.creator_covenants ei,
      get_key creator_id j d s.creator_covenants keyed.creator_covenants ej,
    )
