-- ===== src/Map/Laws.antt =====
-- The laws of the map operations, and the maps whose keys are those of their values.
use onlykas.Prelude.{
  ◌≡◌, refl, ap, String, Bool, Option, none, some, [], ◌∷◌, arith, ◌==◌, eq_iff, if◌then◌else◌, inl,
  inr,
}
use onlykas.Prelude.Lists.{In}
use onlykas.Map.{Map, get, set, delete, values, prune}

module _ {ℓ} {V : Type ℓ} where
  pub get-set :
      (k j : String) (v : V) (m : Map V) → get j (set k v m) ≡ (if k == j then some v else get j m)
  unfolding get set
  get-set k j v [] = refl
  get-set k j v ((i, w) ∷ m) = ground (arith, eq_iff k j, eq_iff i k, eq_iff i j, get-set k j v m)

  pub get-delete :
      (k j : String) (m : Map V) → get j (delete k m) ≡ (if k == j then none else get j m)
  unfolding get delete
  get-delete k j [] = ground arith
  get-delete k j ((i, w) ∷ m) = ground (arith, eq_iff k j, eq_iff i k, eq_iff i j, get-delete k j m)

  -- What remains of an entry after a pruning.
  abbrev pub unless : (V → Bool) → Option V → Option V
  unless gone none = none
  unless gone (some v) = if gone v then none else some v

-- The key of every entry is that of its value, and no key stands twice.
abbrev pub HasKeys : {V : Type 0} → (V → String) → Map V → Type 0
HasKeys key [] = Unit
HasKeys key ((k, v) ∷ m) = (k ≡ key v) × (get k m ≡ none) × HasKeys key m

module _ {V : Type 0} where
  -- The values of the map are what `get` finds.
  pub get-In : (k : String) (v : V) (m : Map V) → get k m ≡ some v → In v (values m)
  unfolding get values
  get-In k v [] e = cc
  get-In k v ((i, w) ∷ m) e = ground (arith, get-In k v m)

module _ {V : Type 0} (key : V → String) where
  pub get_key : (k : String) (v : V) (m : Map V) → HasKeys key m → get k m ≡ some v → k ≡ key v
  unfolding get
  get_key k v [] h e = cc
  get_key k v ((j, w) ∷ m) h e = ground (arith, eq_iff j k, get_key k v m h.2)

  pub get-prune :
      (gone : V → Bool) (j : String) (m : Map V)
      → HasKeys key m
      → get j (prune gone m) ≡ unless gone (get j m)
  unfolding get prune
  get-prune gone j [] h = refl
  get-prune gone j ((i, w) ∷ m) h = ground (arith, eq_iff i j, get-prune gone j m h.2)

  pub set-HasKeys : (v : V) (m : Map V) → HasKeys key m → HasKeys key (set (key v) v m)
  unfolding set get
  set-HasKeys v [] h = (refl, refl, tt)
  set-HasKeys v ((i, w) ∷ m) h =
      ground (arith, eq_iff i (key v), eq_iff (key v) i, get-set (key v) i v m, set-HasKeys v m h.2)

  -- An entry that is found may be replaced by a value of the same key.
  pub update-HasKeys :
      (k : String) (w v : V) (m : Map V)
      → HasKeys key m
      → get k m ≡ some w
      → key v ≡ key w
      → HasKeys key (set k v m)
  update-HasKeys k w v m h e same = rw (get_key k w m h e, ← same) (set-HasKeys v m h)

  pub delete-HasKeys : (k : String) (m : Map V) → HasKeys key m → HasKeys key (delete k m)
  unfolding delete get
  delete-HasKeys k [] h = tt
  delete-HasKeys k ((i, w) ∷ m) h = ground (arith, get-delete k i m, delete-HasKeys k m h.2)

  pub prune-HasKeys : (gone : V → Bool) (m : Map V) → HasKeys key m → HasKeys key (prune gone m)
  unfolding prune get
  prune-HasKeys gone [] h = tt
  prune-HasKeys gone ((i, w) ∷ m) h =
      ground (arith, get-prune gone i m h.2, prune-HasKeys gone m h.2)

  pub In-get : (v : V) (m : Map V) → HasKeys key m → In v (values m) → get (key v) m ≡ some v
  unfolding get values
  In-get v [] h i = absurd i
  In-get v ((i, w) ∷ m) h (inl e) = ground (arith, eq_iff i (key v), ap key e)
  In-get v ((i, w) ∷ m) h (inr p) = ground (arith, eq_iff i (key v), In-get v m h.2 p)
