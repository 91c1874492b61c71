-- ===== src/Sql/Laws.antt =====
-- A table that holds the encoded values of a map, in the order of the map: the statements of
-- backend/src/libsql-store.ts do to the table what the operations of the map do to the map.
use onlykas.Prelude.{
  ◌≡◌, refl, String, Bool, false, ◌&&◌, ◌||◌, ◌⊎◌, inl, inr, Bool-cases, none, some, List, [], ◌∷◌,
  ◌++◌, arith, ◌==◌, eq_iff, is_some, if◌then◌else◌,
}
use onlykas.Prelude.Lists.{any, keep}
use onlykas.Map.{Map, get, set, delete, prune}
use onlykas.Map.Laws.{HasKeys}
use onlykas.Sql.{insert, update, remove, upsert}

-- The table of a map.
abbrev pub rows : {V R : Type 0} → (V → R) → Map V → List R
rows enc [] = []
rows enc ((_, v) ∷ m) = enc v ∷ rows enc m

module _ {V R : Type 0} (enc : V → R) (key : V → String) (column : R → String)
    (same : (v : V) → column (enc v) ≡ key v) where
  pub any-rows :
      (k : String) (m : Map V)
      → HasKeys key m
      → any (λ r. column r == k) (rows enc m) ≡ is_some (get k m)
  unfolding get
  any-rows k [] h = refl
  any-rows k ((j, v) ∷ m) h = ground (arith, same v, any-rows k m h.2)

  pub keep-rows :
      (k : String) (test : R → Bool) (m : Map V)
      → HasKeys key m
      → keep (λ r. (column r == k) && test r) (rows enc m)
        ≡ elim (get k m) [ none ↦ [] | some w ↦ if test (enc w) then enc w ∷ [] else [] ]
  unfolding get
  keep-rows k test [] h = refl
  keep-rows k test ((j, v) ∷ m) h = ground (arith, same v, eq_iff j k, keep-rows k test m h.2)

  pub keep_key-rows :
      (k : String) (m : Map V)
      → HasKeys key m
      → keep (λ r. column r == k) (rows enc m) ≡ elim (get k m) [ none ↦ [] | some w ↦ enc w ∷ [] ]
  unfolding get
  keep_key-rows k [] h = refl
  keep_key-rows k ((j, v) ∷ m) h = ground (arith, same v, eq_iff j k, keep_key-rows k m h.2)

  pub update-rows :
      (k : String) (test : R → Bool) (change : R → R) (next : V → V) (m : Map V)
      → ((v : V) → change (enc v) ≡ enc (next v))
      → HasKeys key m
      → update (λ r. (column r == k) && test r) change (rows enc m) ≡ elim (get k m) [
        | none ↦ rows enc m
        | some w ↦ if test (enc w) then rows enc (set k (next w) m) else rows enc m
      ]
  unfolding get set update
  update-rows k test change next [] c h = refl
  update-rows k test change next ((j, v) ∷ m) c h =
      ground (arith, same v, c v, eq_iff j k, update-rows k test change next m c h.2)

  pub update_key-rows :
      (k : String) (change : R → R) (next : V → V) (m : Map V)
      → ((w : V) → get k m ≡ some w → change (enc w) ≡ enc (next w))
      → HasKeys key m
      → update (λ r. column r == k) change (rows enc m)
        ≡ elim (get k m) [ none ↦ rows enc m | some w ↦ rows enc (set k (next w) m) ]
  unfolding get set update
  update_key-rows k change next [] c h = refl
  update_key-rows k change next ((j, v) ∷ m) c h = elim (Bool-cases (j == k)) [
    | inl e ↦ ground (
      arith,
      same v,
      e,
      eq_iff j k,
      c v,
      update_key-rows k change next m (λ w f. ground (arith, eq_iff j k, f, e, h)) h.2,
    )
    | inr e ↦
        ground (
          arith,
          same v,
          e,
          update_key-rows k change next m (λ w f. c w (ground (arith, e, f))) h.2,
        )
  ]

  pub remove-rows :
      (k : String) (m : Map V)
      → HasKeys key m
      → remove (λ r. column r == k) (rows enc m) ≡ rows enc (delete k m)
  unfolding delete remove
  remove-rows k [] h = refl
  remove-rows k ((j, v) ∷ m) h = ground (arith, same v, eq_iff j k, remove-rows k m h.2)

  -- A row that no row of the table stands against has a new key.
  pub fresh-rows :
      (k : String) (extra : R → Bool) (m : Map V)
      → HasKeys key m
      → any (λ r. (column r == k) || extra r) (rows enc m) ≡ false
      → get k m ≡ none
  unfolding get
  fresh-rows k extra [] keys h = refl
  fresh-rows k extra ((j, v) ∷ m) keys h =
      ground (arith, same v, eq_iff j k, fresh-rows k extra m keys.2)

module _ {V R : Type 0} (enc : V → R) where
  pub rows-set_fresh :
      (k : String) (v : V) (m : Map V)
      → get k m ≡ none
      → rows enc (set k v m) ≡ rows enc m ++ (enc v ∷ [])
  unfolding get set
  rows-set_fresh k v [] h = refl
  rows-set_fresh k v ((j, w) ∷ m) h = ground (arith, rows-set_fresh k v m)

  pub remove-rows-prune :
      (gone : R → Bool) (m : Map V)
      → remove gone (rows enc m) ≡ rows enc (prune (λ v. gone (enc v)) m)
  unfolding prune remove
  remove-rows-prune gone [] = refl
  remove-rows-prune gone ((j, v) ∷ m) = ground (arith, remove-rows-prune gone m)

module _ {V R : Type 0} (enc : V → R) (key : V → String) (column : R → String)
    (same : (v : V) → column (enc v) ≡ key v) where
  -- `ON CONFLICT DO UPDATE` sets an entry, if the change makes the row of the new value.
  pub upsert-rows :
      (k : String) (change : R → R) (v : V) (m : Map V)
      → ((w : V) → get k m ≡ some w → change (enc w) ≡ enc v)
      → HasKeys key m
      → upsert (λ r. column r == k) change (enc v) (rows enc m) ≡ rows enc (set k v m)
  unfolding upsert
  upsert-rows k change v m c h = ground (
    arith,
    any-rows enc key column same k m h,
    update_key-rows enc key column same k change (λ _. v) m c h,
    rows-set_fresh enc k v m,
  )

pub insert-cases {ℓ} :
    {R : Type ℓ} (clash : R → R → Bool) (is_valid : R → Bool) (row : R) (t : List R)
    → (insert clash is_valid row t ≡ none)
      ⊎ ((any (clash row) t ≡ false) × (insert clash is_valid row t ≡ some (t ++ (row ∷ []))))
unfolding insert
insert-cases clash is_valid row t = elim (Bool-cases (any (clash row) t)) [
  | inl e ↦ inl (rw e refl)
  | inr e ↦ elim (Bool-cases (is_valid row)) [
    | inl f ↦ inr (e, rw (e, f) refl)
    | inr f ↦ inl (rw (e, f) refl)
  ]
]
