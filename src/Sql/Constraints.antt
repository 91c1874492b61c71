-- ===== src/Sql/Constraints.antt =====
-- Tests over the rows of a table after a statement of backend/src/libsql-store.ts, and tables in
-- which no two rows clash.
use onlykas.Prelude.{◌≡◌, refl, Bool, true, false, ◌||◌, some, List, [], ◌∷◌, ◌++◌, arith, inl, inr}
use onlykas.Prelude.Lists.{any}
use onlykas.Sql.{insert, update, remove}
use onlykas.Sql.Laws.{insert-cases}

module _ {R : Type 0} (p : R → Bool) where
  pub any-append : (t : List R) (row : R) → any p (t ++ (row ∷ [])) ≡ (any p t || p row)
  any-append [] row = ground arith
  any-append (r ∷ t) row = ground (arith, any-append t row)

  -- Tests that agree on every row.
  pub any-ext : (q : R → Bool) (t : List R) → ((r : R) → p r ≡ q r) → any p t ≡ any q t
  any-ext q [] c = refl
  any-ext q (r ∷ t) c = ground (arith, c r, any-ext q t c)

  -- A change that the test does not see.
  pub any-update :
      (test : R → Bool) (change : R → R) (t : List R)
      → ((r : R) → p (change r) ≡ p r)
      → any p (update test change t) ≡ any p t
  unfolding update
  any-update test change [] c = refl
  any-update test change (r ∷ t) c = ground (arith, c r, any-update test change t c)

  -- A change that makes no row pass.
  pub none-update :
      (test : R → Bool) (change : R → R) (t : List R)
      → ((r : R) → p (change r) ≡ false)
      → any p t ≡ false
      → any p (update test change t) ≡ false
  unfolding update
  none-update test change [] c h = refl
  none-update test change (r ∷ t) c h = ground (arith, c r, none-update test change t c)

  pub none-remove : (gone : R → Bool) (t : List R) → any p t ≡ false → any p (remove gone t) ≡ false
  unfolding remove
  none-remove gone [] h = refl
  none-remove gone (r ∷ t) h = ground (arith, none-remove gone t)

  -- Rows that pass are not removed by a test that they fail.
  pub any-remove :
      (gone : R → Bool) (t : List R)
      → ((r : R) → p r ≡ true → gone r ≡ false)
      → any p (remove gone t) ≡ any p t
  unfolding remove
  any-remove gone [] c = refl
  any-remove gone (r ∷ t) c = ground (arith, c r, any-remove gone t c)

  -- Every row that passes is changed, so that none passes.
  pub all-update :
      (change : R → R) (t : List R)
      → ((r : R) → p (change r) ≡ false)
      → any p (update p change t) ≡ false
  unfolding update
  all-update change [] c = refl
  all-update change (r ∷ t) c = ground (arith, c r, all-update change t c)

module _ {R : Type 0} (clash : R → R → Bool) where
  -- No two rows clash.
  abbrev pub NoClash : List R → Type 0
  NoClash [] = Unit
  NoClash (r ∷ t) = (any (clash r) t ≡ false) × NoClash t

  append-NoClash :
      (row : R) (t : List R)
      → ((a b : R) → clash a b ≡ clash b a)
      → any (clash row) t ≡ false
      → NoClash t
      → NoClash (t ++ (row ∷ []))
  append-NoClash row [] c h k = (refl, tt)
  append-NoClash row (r ∷ t) c h k =
      ground (arith, c r row, any-append (clash r) t row, append-NoClash row t c)

  pub insert-NoClash :
      (is_valid : R → Bool) (row : R) (t u : List R)
      → ((a b : R) → clash a b ≡ clash b a)
      → insert clash is_valid row t ≡ some u
      → NoClash t
      → NoClash u
  insert-NoClash is_valid row t u c e k = elim (insert-cases clash is_valid row t) [
    | inl f ↦ absurd (ground (arith, e, f))
    | inr (free, f) ↦ ground (arith, e, f, append-NoClash row t c free k)
  ]

  pub remove-NoClash : (gone : R → Bool) (t : List R) → NoClash t → NoClash (remove gone t)
  unfolding remove
  remove-NoClash gone [] k = tt
  remove-NoClash gone (r ∷ t) k =
      ground (arith, none-remove (clash r) gone t k.0, remove-NoClash gone t k.1)

  pub update-NoClash :
      (test : R → Bool) (change : R → R) (t : List R)
      → ((a b : R) → clash (change a) b ≡ clash a b)
      → ((a b : R) → clash a (change b) ≡ clash a b)
      → NoClash t
      → NoClash (update test change t)
  unfolding update
  update-NoClash test change [] left right k = tt
  update-NoClash test change (r ∷ t) left right k = ground (
    arith,
    left r,
    any-update (clash r) test change t (right r),
    any-update (clash (change r)) test change t (right (change r)),
    any-ext (clash (change r)) (clash r) t (left r),
    update-NoClash test change t left right k.1,
  )
