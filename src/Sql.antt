-- ===== src/Sql.antt =====
-- The statements of backend/src/libsql-store.ts on one table. A table is the list of its rows in
-- the order in which they were inserted; `WHERE` is a test on rows. A row that breaks a constraint
-- of its table is refused, and the statement then changes nothing.
pub mod Laws
pub mod Constraints
use onlykas.Prelude.{Bool, not, Option, none, some, List, [], ◌∷◌, ◌++◌, if◌then◌else◌}
use onlykas.Prelude.Lists.{any, keep}

-- `result.rows[0]`
abbrev pub first {ℓ} : {A : Type ℓ} → List A → Option A
first [] = none
first (row ∷ _) = some row

module _ {ℓ} {Row : Type ℓ} where
  -- `INSERT INTO t VALUES (row)`, where `clash row` says of a row that it stands against `row`, and
  -- `is_valid` is the `CHECK` of the table.
  unfoldable pub insert : (Row → Row → Bool) → (Row → Bool) → Row → List Row → Option (List Row)
  insert clash is_valid row t =
      if any (clash row) t then none else (if is_valid row then some (t ++ (row ∷ [])) else none)

  -- `UPDATE t SET change WHERE test`
  unfoldable pub update : (Row → Bool) → (Row → Row) → List Row → List Row
  update test change [] = []
  update test change (row ∷ t) =
      let rest = update test change t in if test row then change row ∷ rest else row ∷ rest

  -- `DELETE FROM t WHERE test`
  unfoldable pub remove : (Row → Bool) → List Row → List Row
  remove test t = keep (λ row. not (test row)) t

  -- `INSERT ... ON CONFLICT(key) DO UPDATE SET change`, where `same` finds the row of the key.
  unfoldable pub upsert : (Row → Bool) → (Row → Row) → Row → List Row → List Row
  upsert same change row t = if any same t then update same change t else t ++ (row ∷ [])
