-- ===== src/Price/Digits.antt =====
-- Decimal digits and their values (`toString`, `padStart`, `slice` and `BigInt` in shared/src/index.ts
-- and frontend/src/format.ts).
use onlykas.Prelude.{
  ℕ, zero, suc, ◌+◌, ◌-◌, ◌*◌, ◌/◌, ◌%◌, ◌≤◌, ◌<◌, ◌≡◌, refl, ap, ◌∙◌, true, false, [], ◌∷◌, ◌++◌,
  ltb, arith, inl, inr, Bool-cases, ltb→lt,
}
use onlykas.Prelude.Lists.{length, take, length-append}
use onlykas.Price.{Text, is_digit, value_from, digits_on, digits, zeros, pad_start, drop}
use onlykas.Price.Trim.{AreDigits, all-append}

pub value_from-append : (n : ℕ) (t u : Text) → value_from n (t ++ u) ≡ value_from (value_from n t) u
unfolding value_from
value_from-append n [] u = refl
value_from-append n (c ∷ t) u = value_from-append (n * 10 + (c - 48)) t u

abbrev pub pow10 : ℕ → ℕ
pow10 zero = 1
pow10 (suc k) = 10 * pow10 k

-- What stands before the digits counts by their number.
pub value_from_lem : (n : ℕ) (t : Text) → value_from n t ≡ n * pow10 (length t) + value_from 0 t
unfolding value_from
value_from_lem n [] = omega arith
value_from_lem n (c ∷ t) =
    grind (arith, value_from_lem (n * 10 + (c - 48)) t, value_from_lem (c - 48) t)

digits_on_last :
    (fuel n : ℕ) (after : Text) → ltb n 10 ≡ true → digits_on (suc fuel) n after ≡ (48 + n) ∷ after
unfolding digits_on
digits_on_last fuel n after e = rw (e, digits_on) refl

digits_on_more :
    (fuel n : ℕ) (after : Text)
    → ltb n 10 ≡ false
    → digits_on (suc fuel) n after ≡ digits_on fuel (n / 10) ((48 + n % 10) ∷ after)
unfolding digits_on
digits_on_more fuel n after e = rw (e, digits_on) refl

digits_on-value :
    (fuel n : ℕ) (after : Text)
    → n < fuel
    → value_from 0 (digits_on fuel n after) ≡ value_from n after
unfolding value_from
digits_on-value zero n after h = absurd (omega arith)
digits_on-value (suc fuel) n after h = elim (Bool-cases (ltb n 10)) [
  | inl e ↦
      ap (value_from 0) (digits_on_last fuel n after e) ∙ ap (λ k. value_from k after) (omega arith)
  | inr e ↦
      let smaller : n / 10 < fuel = ground (arith, e, h) in
      ap (value_from 0) (digits_on_more fuel n after e)
      ∙ digits_on-value fuel (n / 10) ((48 + n % 10) ∷ after) smaller
      ∙ ap (λ k. value_from k after) (omega arith)
]

digits_on-AreDigits :
    (fuel n : ℕ) (after : Text) → AreDigits after → AreDigits (digits_on fuel n after)
unfolding digits_on
digits_on-AreDigits zero n after h = h
digits_on-AreDigits (suc fuel) n after h = elim (Bool-cases (ltb n 10)) [
  | inl e ↦ ground (arith, e, ltb→lt n 10 e)
  | inr e ↦ ground (arith, e, digits_on-AreDigits fuel (n / 10) ((48 + n % 10) ∷ after))
]

digits-value : (n : ℕ) → value_from 0 (digits n) ≡ n
unfolding digits value_from
digits-value n = digits_on-value (n + 1) n [] (omega arith) ∙ refl

zeros-value : (k : ℕ) (t : Text) → value_from 0 (zeros k ++ t) ≡ value_from 0 t
unfolding zeros value_from
zeros-value zero t = refl
zeros-value (suc k) t = zeros-value k t

zeros-AreDigits : (k : ℕ) → AreDigits (zeros k)
unfolding zeros
zeros-AreDigits zero = refl
zeros-AreDigits (suc k) = zeros-AreDigits k

length-zeros : (k : ℕ) → length (zeros k) ≡ k
unfolding zeros
length-zeros zero = refl
length-zeros (suc k) = ap suc (length-zeros k)

-- Padded digits are digits, enough of them, and keep the value.
pub padded :
    (width n : ℕ)
    → AreDigits (pad_start width (digits n))
      × (width ≤ length (pad_start width (digits n)))
      × (value_from 0 (pad_start width (digits n)) ≡ n)
unfolding pad_start digits
padded width n =
    let ds = digits n in
    (
      ground (
        arith,
        all-append is_digit (zeros (width - length ds)) ds,
        zeros-AreDigits (width - length ds),
        digits_on-AreDigits (n + 1) n [] refl,
      ),
      omega (arith, length-append (zeros (width - length ds)) ds, length-zeros (width - length ds)),
      zeros-value (width - length ds) ds ∙ digits-value n,
    )

pub take-drop : (n : ℕ) (t : Text) → take n t ++ drop n t ≡ t
unfolding drop
take-drop zero t = refl
take-drop (suc n) [] = refl
take-drop (suc n) (c ∷ t) = ap (λ u. c ∷ u) (take-drop n t)

pub length-drop : (n : ℕ) (t : Text) → length (drop n t) ≡ length t - n
unfolding drop
length-drop zero t = omega arith
length-drop (suc n) [] = omega arith
length-drop (suc n) (c ∷ t) = omega (arith, length-drop n t)
