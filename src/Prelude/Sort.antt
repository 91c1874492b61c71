-- ===== src/Prelude/Sort.antt =====
-- `Array.prototype.sort`: a stable sort by a comparison. The comparison is given as the test
-- `le a b`, which is `compare(a, b) <= 0` of the source.
use Prim.Native.Nat.{ℕ, zero, suc}
use mathlib.Core.Path.{◌≡◌, refl}
use mathlib.Core.Logic.{◌⊎◌, inl, inr}
use mathlib.Core.Bool.{Bool, true, false}
use mathlib.Core.List.{List, [], ◌∷◌, Perm}
use mathlib.Core.List.Perm
use native.Mathlib.Omega.{arith}
use onlykas.Prelude.Tests.{if◌then◌else◌}
use onlykas.Prelude.Lists.{All, In, length, take}

module _ {A : Type 0} (le : A → A → Bool) where
  unfoldable pub insert_sorted : A → List A → List A
  insert_sorted x [] = x ∷ []
  insert_sorted x (y ∷ ys) =
      let rest = insert_sorted x ys in if le x y then x ∷ y ∷ ys else y ∷ rest

  unfoldable pub sort : List A → List A
  unfolding insert_sorted
  sort [] = []
  sort (x ∷ xs) = insert_sorted x (sort xs)

  abbrev pub IsSorted : List A → Type 0
  IsSorted [] = Unit
  IsSorted (x ∷ xs) = All (λ y. le x y ≡ true) xs × IsSorted xs

  insert_sorted-perm : (x : A) (xs : List A) → Perm (insert_sorted x xs) (x ∷ xs)
  unfolding insert_sorted
  insert_sorted-perm x [] = Perm.refl (x ∷ [])
  insert_sorted-perm x (y ∷ ys) =
      elim (le x y) as (λ b. Perm (if b then x ∷ y ∷ ys else y ∷ insert_sorted x ys) (x ∷ y ∷ ys)) [
        | true ↦ Perm.refl (x ∷ y ∷ ys)
        | false ↦ Perm.trans (Perm.cons y (insert_sorted-perm x ys)) (Perm.swap x y ys)
      ]

  pub sort-perm : (xs : List A) → Perm (sort xs) xs
  unfolding sort
  sort-perm [] = Perm.refl []
  sort-perm (x ∷ xs) = Perm.trans (insert_sorted-perm x (sort xs)) (Perm.cons x (sort-perm xs))

  insert_sorted-In : (a x : A) (xs : List A) → In a (insert_sorted x xs) → (a ≡ x) ⊎ In a xs
  unfolding insert_sorted
  insert_sorted-In a x [] i = i
  insert_sorted-In a x (y ∷ ys) i = ground (arith, insert_sorted-In a x ys)

  In-insert_sorted : (a x : A) (xs : List A) → (a ≡ x) ⊎ In a xs → In a (insert_sorted x xs)
  unfolding insert_sorted
  In-insert_sorted a x [] i = i
  In-insert_sorted a x (y ∷ ys) i = ground (arith, In-insert_sorted a x ys)

  pub sort-In : (a : A) (xs : List A) → In a (sort xs) → In a xs
  unfolding sort
  sort-In a [] i = i
  sort-In a (x ∷ xs) i = ground (arith, insert_sorted-In a x (sort xs) i, sort-In a xs)

  pub In-sort : (a : A) (xs : List A) → In a xs → In a (sort xs)
  unfolding sort
  In-sort a [] i = i
  In-sort a (x ∷ xs) (inl e) = In-insert_sorted a x (sort xs) (inl e)
  In-sort a (x ∷ xs) (inr i) = In-insert_sorted a x (sort xs) (inr (In-sort a xs i))

module _ {A : Type 0} (le : A → A → Bool) where
  length-insert_sorted : (x : A) (xs : List A) → length (insert_sorted le x xs) ≡ suc (length xs)
  unfolding insert_sorted
  length-insert_sorted x [] = refl
  length-insert_sorted x (y ∷ ys) = ground (arith, length-insert_sorted x ys)

  pub length-sort : (xs : List A) → length (sort le xs) ≡ length xs
  unfolding sort
  length-sort [] = refl
  length-sort (x ∷ xs) = ground (arith, length-insert_sorted x (sort le xs), length-sort xs)

  All-take : (P : A → Type 0) (n : ℕ) (xs : List A) → All P xs → All P (take n xs)
  All-take P zero xs h = tt
  All-take P (suc n) [] h = tt
  All-take P (suc n) (x ∷ xs) h = (h.0, All-take P n xs h.1)

  pub IsSorted-take : (n : ℕ) (xs : List A) → IsSorted le xs → IsSorted le (take n xs)
  IsSorted-take zero xs h = tt
  IsSorted-take (suc n) [] h = tt
  IsSorted-take (suc n) (x ∷ xs) h =
      (All-take (λ y. le x y ≡ true) n xs h.0, IsSorted-take n xs h.1)

-- A comparison that orders any two items, and does so transitively.
pub record IsOrder {A : Type 0} (le : A → A → Bool) : Type 0 where
  pub total : (a b : A) → le a b ≡ false → le b a ≡ true
  pub trans : (a b c : A) → le a b ≡ true → le b c ≡ true → le a c ≡ true

module _ {A : Type 0} (le : A → A → Bool) (o : IsOrder le) where
  le-All :
      (x y : A) (ys : List A)
      → le x y ≡ true
      → All (λ z. le y z ≡ true) ys
      → All (λ z. le x z ≡ true) ys
  le-All x y [] h hs = tt
  le-All x y (z ∷ zs) h hs = (o.trans x y z h hs.0, le-All x y zs h hs.1)

  All-insert_sorted :
      (y x : A) (ys : List A)
      → le y x ≡ true
      → All (λ z. le y z ≡ true) ys
      → All (λ z. le y z ≡ true) (insert_sorted le x ys)
  unfolding insert_sorted
  All-insert_sorted y x [] h hs = (h, tt)
  All-insert_sorted y x (z ∷ zs) h hs = ground (arith, All-insert_sorted y x zs)

  insert_sorted-IsSorted :
      (x : A) (xs : List A) → IsSorted le xs → IsSorted le (insert_sorted le x xs)
  unfolding insert_sorted
  insert_sorted-IsSorted x [] h = (tt, tt)
  insert_sorted-IsSorted x (y ∷ ys) h =
      ground (
        arith,
        le-All x y ys,
        o.total x y,
        All-insert_sorted y x ys,
        insert_sorted-IsSorted x ys h.1,
      )

  -- The result is in order.
  pub sort-IsSorted : (xs : List A) → IsSorted le (sort le xs)
  unfolding sort
  sort-IsSorted [] = tt
  sort-IsSorted (x ∷ xs) = insert_sorted-IsSorted x (sort le xs) (sort-IsSorted xs)
