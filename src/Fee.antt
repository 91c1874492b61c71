-- ===== src/Fee.antt =====
-- backend/src/payment-fee.ts and `membershipFeeSompi` of shared/src/index.ts: the platform's share of
-- a payment. Amounts are natural numbers; the source throws on a negative one, which no price is.
use onlykas.Prelude.{ℕ, ◌+◌, ◌*◌, ◌/◌, ◌≤◌, ◌<◌, ◌≡◌, arith, leb, if◌then◌else◌, ◌⊎◌}

abbrev pub platform_fee_bps : ℕ
platform_fee_bps = 100

abbrev pub bps_denominator : ℕ
bps_denominator = 10_000

abbrev pub min_platform_fee_sompi : ℕ
min_platform_fee_sompi = 100_000_000

unfoldable pub platform_fee_sompi : ℕ → ℕ
platform_fee_sompi amount =
    let fee = (amount * platform_fee_bps + bps_denominator / 2) / bps_denominator in
    if leb min_platform_fee_sompi fee then fee else 0

unfoldable pub membership_fee_sompi : ℕ → ℕ
membership_fee_sompi price = let fee = (price + 50) / 100 in if leb 100_000_000 fee then fee else 0

-- The two fee routines agree on every amount: rounding to basis points is rounding to hundredths.
pub platform_fee-eq-membership_fee :
    (amount : ℕ) → platform_fee_sompi amount ≡ membership_fee_sompi amount
unfolding platform_fee_sompi membership_fee_sompi
platform_fee-eq-membership_fee amount = ground arith

-- The fee is nothing below the least fee, which amounts of at least 9,999,999,950 sompi reach, and from
-- there it is the hundredth part rounded to the nearest: 100 times the fee is within 50 of the amount.
-- It never exceeds the amount, so what the creator is paid does not fall below zero.
pub platform_fee_bounds :
    (amount : ℕ)
    → ((amount < 9_999_999_950) × (platform_fee_sompi amount ≡ 0)
        ⊎ (9_999_999_950 ≤ amount)
          × (min_platform_fee_sompi ≤ platform_fee_sompi amount)
          × (100 * platform_fee_sompi amount ≤ amount + 50)
          × (amount < 100 * platform_fee_sompi amount + 50))
      × (platform_fee_sompi amount ≤ amount)
unfolding platform_fee_sompi
platform_fee_bounds amount = ground arith

-- A larger payment never has a smaller fee.
pub platform_fee_mono : (a b : ℕ) → a ≤ b → platform_fee_sompi a ≤ platform_fee_sompi b
unfolding platform_fee_sompi
platform_fee_mono a b h = ground arith
