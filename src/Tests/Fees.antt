-- ===== src/Tests/Fees.antt =====
-- The fees of concrete amounts.
use onlykas.Prelude.{◌≡◌, refl, ◌<◌, ◌≤◌, ◌*◌, ◌+◌, ◌⊎◌}
use onlykas.Fee.{platform_fee_sompi, min_platform_fee_sompi, platform_fee_bounds}

ten_billion : platform_fee_sompi 10_000_000_000 ≡ 100_000_000
unfolding platform_fee_sompi
ten_billion = refl

platform_fee_bounds_example :
    ((10_000_000_000 < 9_999_999_950) × (platform_fee_sompi 10_000_000_000 ≡ 0)
      ⊎ (9_999_999_950 ≤ 10_000_000_000)
        × (min_platform_fee_sompi ≤ platform_fee_sompi 10_000_000_000)
        × (100 * platform_fee_sompi 10_000_000_000 ≤ 10_000_000_000 + 50)
        × (10_000_000_000 < 100 * platform_fee_sompi 10_000_000_000 + 50))
    × (platform_fee_sompi 10_000_000_000 ≤ 10_000_000_000)
platform_fee_bounds_example = platform_fee_bounds 10_000_000_000
