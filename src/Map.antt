-- ===== src/Map.antt =====
-- JavaScript's `Map` with text keys: an association list in insertion order. Setting a key that is
-- present keeps its place, a new one is appended.
pub mod Laws
use onlykas.Prelude.{
  String, Bool, true, false, Option, none, some, List, [], ◌∷◌, ◌==◌, if◌then◌else◌,
}

abbrev pub Map {ℓ} : Type ℓ → Type ℓ
Map V = List (String × V)

module _ {ℓ} {V : Type ℓ} where
  -- `m.get(k)`
  unfoldable pub get : String → Map V → Option V
  get k [] = none
  get k ((j, v) ∷ m) = if j == k then some v else get k m

  -- `m.set(k, v)`
  unfoldable pub set : String → V → Map V → Map V
  set k v [] = (k, v) ∷ []
  set k v ((j, w) ∷ m) = if j == k then (k, v) ∷ m else (j, w) ∷ set k v m

  -- `m.delete(k)`
  unfoldable pub delete : String → Map V → Map V
  delete k [] = []
  delete k ((j, v) ∷ m) = let rest = delete k m in if j == k then rest else (j, v) ∷ rest

  -- `[...m.values()]`
  unfoldable pub values : Map V → List V
  values [] = []
  values ((_, v) ∷ m) = v ∷ values m

  -- `for (const [k, v] of m) if (gone(v)) m.delete(k)`
  unfoldable pub prune : (V → Bool) → Map V → Map V
  prune gone [] = []
  prune gone ((j, v) ∷ m) = let rest = prune gone m in if gone v then rest else (j, v) ∷ rest
