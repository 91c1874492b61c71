-- ===== src/Price/Roundtrip.antt =====
-- `formatKas` of frontend/src/format.ts against the price grammar of shared/src/index.ts.
use onlykas.Prelude.{
  ℕ, zero, suc, ◌-◌, ◌≤◌, ◌<◌, ◌≡◌, refl, ap, sym, ◌∙◌, true, false, ◌&&◌, none, some, [], ◌∷◌,
  ◌++◌, leb, ltb, arith, inl, inr, Bool-cases, Option-cases, ◌↔◌, if◌then◌else◌,
}
use onlykas.Prelude.Lists.{length, take, all}
use onlykas.Price.{
  Text, is_digit, is_empty, trim, match_price, value_from, pad_end, sompi_of, parse_kas_to_sompi,
  membership_price_problem, parse_membership_price, parse_post_price, min_membership_price,
  max_membership_price, digits, pad_start, drop, all_zero, strip, format_kas,
}
use onlykas.Price.Trim.{
  AreDigits, is_plain, trim_plain, span_digits_all, span_digits-append, pad_end-strip,
  strip-AreDigits, length-strip, strip-nil, strip-append, all-append, digits_plain,
}
use onlykas.Price.Digits.{value_from-append, pow10, value_from_lem, padded, take-drop, length-drop}

-- The groups that the grammar finds in digits, and in digits with a point and digits.
match-whole : (t : Text) → AreDigits t → is_empty t ≡ false → match_price t ≡ some (t, [])
unfolding match_price
match-whole t h k = ground (arith, span_digits_all t h, k)

match-part :
    (t u : Text)
    → AreDigits t
    → is_empty t ≡ false
    → AreDigits u
    → is_empty u ≡ false
    → length u ≤ 8
    → match_price (t ++ (46 ∷ u)) ≡ some (t, u)
unfolding match_price
match-part t u h k g l m =
    ground (arith, span_digits-append t u 46 h refl, span_digits_all u g, k, l, m)

module _ (t u : Text) (h : AreDigits t) (k : is_empty t ≡ false) (g : AreDigits u)
    (l : length u ≡ 8) where
  not_empty : is_empty u ≡ false
  not_empty = positive u (omega (arith, l))
    where
      positive : (u : Text) → 0 < length u → is_empty u ≡ false
      positive [] p = absurd (omega arith)
      positive (c ∷ u) p = refl

  plain : all is_plain (t ++ (46 ∷ strip u)) ≡ true
  plain = ground (
    arith,
    all-append is_plain t (46 ∷ strip u),
    digits_plain t h,
    digits_plain (strip u) (strip-AreDigits u g),
  )

  -- What the grammar makes of a price whose zeros at the end were cut off.
  match-strip : match_price (trim (strip (t ++ (46 ∷ u)))) ≡ some (t, strip u)
  match-strip =
      let cut = strip-append t u h not_empty in
      elim (Bool-cases (all_zero u)) [
        | inl e ↦
            let nothing = empty_nil (strip u) (ground (arith, strip-nil u g, e)) in
            ground (arith, cut, e, nothing, trim_plain t (digits_plain t h), match-whole t h k)
        | inr e ↦ ground (
          arith,
          cut,
          e,
          trim_plain (t ++ (46 ∷ strip u)) plain,
          match-part t (strip u) h k (strip-AreDigits u g)
              (ground (arith, strip-nil u g, e, not_empty)) (omega (arith, length-strip u, l)),
        )
      ]
    where
      empty_nil : (u : Text) → is_empty u ≡ true → u ≡ []
      empty_nil [] e = refl
      empty_nil (c ∷ u) e = cc

  sompi-strip : sompi_of (t, strip u) ≡ value_from 0 (t ++ u)
  unfolding sompi_of
  sompi-strip =
      let padded : pad_end 8 (strip u) ≡ u = rw (← l) (pad_end-strip u g) in
      let eight : pow10 (length u) ≡ 100_000_000 = rw l refl in
      ground (arith, padded, eight, value_from-append 0 t u, value_from_lem (value_from 0 t) u)

-- What the grammar makes of a formatted amount.
format_kas-match :
    (n : ℕ)
    → (groups : Text × Text) × (match_price (trim (format_kas n)) ≡ some groups)
      × (sompi_of groups ≡ n)
unfolding format_kas
format_kas-match n =
    let p = pad_start 9 (digits n) in
    let k = length p - 8 in
    let (are_digits, long, value) = padded 9 n in
    let whole = take-drop k p in
    let split : (all is_digit (take k p) && all is_digit (drop k p)) ≡ true =
      sym (all-append is_digit (take k p) (drop k p)) ∙ ap (all is_digit) whole ∙ are_digits in
    let eight : length (drop k p) ≡ 8 = omega (arith, length-drop k p, long) in
    let front : AreDigits (take k p) = ground (arith, split) in
    let back : AreDigits (drop k p) = ground (arith, split) in
    let some_front : is_empty (take k p) ≡ false = front_not_empty k p (omega (arith, long)) long in
    (
      (take k p, strip (drop k p)),
      match-strip (take k p) (drop k p) front some_front back eight,
      sompi-strip (take k p) (drop k p) front some_front back eight
          ∙ ap (value_from 0) whole
          ∙ value,
    )
  where
    front_not_empty : (k : ℕ) (p : Text) → 0 < k → 9 ≤ length p → is_empty (take k p) ≡ false
    front_not_empty zero p h l = absurd (omega arith)
    front_not_empty (suc k) [] h l = absurd (omega arith)
    front_not_empty (suc k) (c ∷ p) h l = refl

-- The text that the client shows for an amount of sompi is read back as that amount, by the grammar
-- of post prices for every amount, by that of positive amounts unless it is 0, and by that of
-- membership prices if it is from 1 KAS to 1,000,000 KAS.
pub parse-format_kas :
    (n : ℕ)
    → (parse_post_price (format_kas n) ≡ some n)
      × (parse_kas_to_sompi (format_kas n) ≡ (if ltb 0 n then some n else none))
      × (parse_membership_price (format_kas n)
          ≡ (if leb min_membership_price n && leb n max_membership_price then some n else none))
unfolding parse_post_price parse_kas_to_sompi parse_membership_price membership_price_problem
parse-format_kas n = let (groups, found, value) = format_kas-match n in ground (arith, found, value)

-- A text is accepted as a membership price exactly if it is a price by the grammar of posts that is
-- from 1 KAS to 1,000,000 KAS, and then it is that amount.
pub parse_membership_price_iff :
    (value : Text) (n : ℕ)
    → (parse_membership_price value ≡ some n) ↔ (
        (parse_post_price value ≡ some n) × (min_membership_price ≤ n) × (n ≤ max_membership_price))
unfolding parse_post_price parse_kas_to_sompi parse_membership_price membership_price_problem
parse_membership_price_iff value n = elim (Option-cases (match_price (trim value))) [
  | inl e ↦ ((λ h. absurd (ground (arith, e, h))), (λ h. absurd (ground (arith, e, h))))
  | inr (groups, e) ↦ ((λ h. ground (arith, e, h)), (λ h. ground (arith, e, h)))
]
