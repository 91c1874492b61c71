-- ===== src/Price/Trim.antt =====
-- Texts of digits and points under the operations of the price grammar (shared/src/index.ts).
use onlykas.Prelude.{
  ℕ, ◌≤◌, ◌≡◌, refl, Bool, true, false, ◌&&◌, ◌||◌, [], ◌∷◌, ◌++◌, eqb, arith, inl, inr, Bool-cases,
  if◌then◌else◌,
}
use onlykas.Prelude.Lists.{length, all}
use onlykas.Price.{
  Text, is_space, trim_start, trim_end, trim, is_empty, is_digit, span_digits, pad_end, all_zero,
  ends_here, strip,
}

abbrev pub AreDigits : Text → Type 0
AreDigits t = all is_digit t ≡ true

-- A digit or a point.
abbrev pub is_plain : ℕ → Bool
is_plain c = is_digit c || eqb c 46

is_plain-not_space : (c : ℕ) → is_plain c ≡ true → is_space c ≡ false
unfolding is_space
is_plain-not_space c h = ground arith

trim_end_plain : (t : Text) → all is_plain t ≡ true → trim_end t ≡ t
unfolding trim_end
trim_end_plain [] h = refl
trim_end_plain (c ∷ t) h = ground (arith, is_plain-not_space c, trim_end_plain t)

pub trim_plain : (t : Text) → all is_plain t ≡ true → trim t ≡ t
unfolding trim trim_start
trim_plain [] h = trim_end_plain [] h
trim_plain (c ∷ t) h = ground (arith, is_plain-not_space c, trim_end_plain (c ∷ t) h)

pub span_digits_all : (t : Text) → AreDigits t → span_digits t ≡ (t, [])
unfolding span_digits
span_digits_all [] h = refl
span_digits_all (c ∷ t) h = ground (arith, span_digits_all t)

pub span_digits-append :
    (t u : Text) (c : ℕ)
    → AreDigits t
    → is_digit c ≡ false
    → span_digits (t ++ (c ∷ u)) ≡ (t, c ∷ u)
unfolding span_digits
span_digits-append [] u c h k = ground (arith, k)
span_digits-append (d ∷ t) u c h k = ground (arith, k, span_digits-append t u c)

pad_end_zero : (t : Text) → all_zero t ≡ true → pad_end (length t) [] ≡ t
unfolding pad_end
pad_end_zero [] h = refl
pad_end_zero (c ∷ t) h = ground (arith, pad_end_zero t)

-- Zeros that are cut off digits are added again.
pub pad_end-strip : (t : Text) → AreDigits t → pad_end (length t) (strip t) ≡ t
unfolding strip ends_here pad_end
pad_end-strip [] h = refl
pad_end-strip (c ∷ t) h = elim (Bool-cases (all_zero (c ∷ t))) [
  | inl e ↦ ground (arith, e, pad_end_zero (c ∷ t) e)
  | inr e ↦ ground (arith, e, pad_end-strip t)
]

pub strip-AreDigits : (t : Text) → AreDigits t → AreDigits (strip t)
unfolding strip
strip-AreDigits [] h = refl
strip-AreDigits (c ∷ t) h = ground (arith, strip-AreDigits t)

pub length-strip : (t : Text) → length (strip t) ≤ length t
unfolding strip
length-strip [] = omega arith
length-strip (c ∷ t) = ground (arith, length-strip t)

-- Only zeros are cut off to nothing.
pub strip-nil : (t : Text) → AreDigits t → is_empty (strip t) ≡ (is_empty t || all_zero t)
unfolding strip ends_here
strip-nil [] h = refl
strip-nil (c ∷ t) h = ground arith

-- The point of a price is cut off if only zeros follow it.
pub strip-append :
    (t u : Text)
    → AreDigits t
    → is_empty u ≡ false
    → strip (t ++ (46 ∷ u)) ≡ (if all_zero u then t else t ++ (46 ∷ strip u))
unfolding strip ends_here
strip-append [] u h k = ground (arith, k)
strip-append (c ∷ t) u h k = ground (arith, k, not_all_zero t u, strip-append t u)
  where
    not_all_zero : (t u : Text) → all_zero (t ++ (46 ∷ u)) ≡ false
    not_all_zero [] u = refl
    not_all_zero (c ∷ t) u = ground (arith, not_all_zero t u)

pub all-append : (p : ℕ → Bool) (t u : Text) → all p (t ++ u) ≡ (all p t && all p u)
all-append p [] u = refl
all-append p (c ∷ t) u = ground (arith, all-append p t u)

pub digits_plain : (t : Text) → AreDigits t → all is_plain t ≡ true
digits_plain [] h = refl
digits_plain (c ∷ t) h = ground (arith, digits_plain t)
