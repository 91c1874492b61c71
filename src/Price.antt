-- ===== src/Price.antt =====
-- shared/src/index.ts, the grammar of prices, and `formatKas` of frontend/src/format.ts. A text is the
-- list of its code points; amounts are in sompi, of which a KAS has 10 ^ 8.
pub mod Digits
pub mod Trim
pub mod Roundtrip
use Prim.Native.Char.{Char, code}
use Prim.Native.String
use onlykas.Prelude.{
  ℕ, zero, suc, ◌+◌, ◌-◌, ◌*◌, ◌/◌, ◌%◌, String, Bool, true, false, not, ◌&&◌, ◌||◌, Option, none,
  some, List, [], ◌∷◌, ◌++◌, leb, ltb, eqb, if◌then◌else◌,
}
use onlykas.Prelude.Lists.{length, take, all}

abbrev pub Text : Type 0
Text = List ℕ

-- The code points of a text.
unfoldable pub codes : String → Text
codes String.[] = []
codes (String.◌∷◌ c s) = code c ∷ codes s

-- What `trim()` takes for white space and line ends.
unfoldable pub is_space : ℕ → Bool
is_space c =
    (leb 9 c && leb c 13)
    || eqb c 32
    || eqb c 160
    || eqb c 5760
    || (leb 8192 c && leb c 8202)
    || eqb c 8232
    || eqb c 8233
    || eqb c 8239
    || eqb c 8287
    || eqb c 12288
    || eqb c 65279

unfoldable pub trim_start : Text → Text
trim_start [] = []
trim_start (c ∷ t) = let rest = trim_start t in if is_space c then rest else c ∷ t

abbrev pub is_empty : Text → Bool
is_empty [] = true
is_empty (_ ∷ _) = false

unfoldable pub trim_end : Text → Text
trim_end [] = []
trim_end (c ∷ t) = let rest = trim_end t in if is_empty rest && is_space c then [] else c ∷ rest

unfoldable pub trim : Text → Text
trim t = trim_end (trim_start t)

-- `\d`
abbrev pub is_digit : ℕ → Bool
is_digit c = leb 48 c && leb c 57

-- `\d*`, and what follows.
unfoldable pub span_digits : Text → Text × Text
span_digits [] = ([], [])
span_digits (c ∷ t) =
    let (ds, rest) = span_digits t in if is_digit c then (c ∷ ds, rest) else ([], c ∷ t)

-- The groups of `/^(\d+)(?:\.(\d{1,8}))?$/`; the second is empty where it takes no part.
unfoldable pub match_price : Text → Option (Text × Text)
match_price t =
    let (whole, rest) = span_digits t in
    if is_empty whole then none else elim rest [
      | [] ↦ some (whole, [])
      | c ∷ u ↦
          let (part, end) = span_digits u in
          if eqb c 46 && (is_empty end && (leb 1 (length part) && leb (length part) 8))
          then some (whole, part)
          else none
    ]

-- `BigInt` of decimal digits, after those that make `n`.
unfoldable pub value_from : ℕ → Text → ℕ
value_from n [] = n
value_from n (c ∷ t) = value_from (n * 10 + (c - 48)) t

-- `padEnd(width, "0")`
unfoldable pub pad_end : ℕ → Text → Text
pad_end zero t = t
pad_end (suc width) [] = 48 ∷ pad_end width []
pad_end (suc width) (c ∷ t) = c ∷ pad_end width t

unfoldable pub sompi_of : Text × Text → ℕ
sompi_of (whole, part) = value_from 0 whole * 100_000_000 + value_from 0 (pad_end 8 part)

unfoldable pub parse_kas_to_sompi : Text → Option ℕ
parse_kas_to_sompi value = elim (match_price (trim value)) [
  | none ↦ none
  | some groups ↦ if ltb 0 (sompi_of groups) then some (sompi_of groups) else none
]

pub data MembershipPriceProblem : Type 0 where
  is_missing format below_min above_max : MembershipPriceProblem

abbrev pub min_membership_price : ℕ
min_membership_price = 100_000_000

abbrev pub max_membership_price : ℕ
max_membership_price = 100_000_000_000_000

unfoldable pub membership_price_problem : Text → Option MembershipPriceProblem
membership_price_problem value = elim (match_price (trim value)) [
  | none ↦ some (if is_empty (trim value) then is_missing else format)
  | some groups ↦
      if ltb (sompi_of groups) min_membership_price
      then some below_min
      else if ltb max_membership_price (sompi_of groups)
      then some above_max
      else none
]

unfoldable pub parse_membership_price : Text → Option ℕ
parse_membership_price value = elim (membership_price_problem value) [
  | some _ ↦ none
  | none ↦ parse_kas_to_sompi value
]

unfoldable pub parse_post_price : Text → Option ℕ
parse_post_price value = elim (match_price (trim value)) [
  | none ↦ none
  | some groups ↦ some (sompi_of groups)
]

-- `toString()` of a number, on fuel.
unfoldable pub digits_on : ℕ → ℕ → Text → Text
digits_on zero n after = after
digits_on (suc fuel) n after = elim (ltb n 10) [
  | true ↦ (48 + n) ∷ after
  | false ↦ digits_on fuel (n / 10) ((48 + n % 10) ∷ after)
]

unfoldable pub digits : ℕ → Text
digits n = digits_on (n + 1) n []

-- `padStart(width, "0")` adds what is missing.
unfoldable pub zeros : ℕ → Text
zeros zero = []
zeros (suc n) = 48 ∷ zeros n

unfoldable pub pad_start : ℕ → Text → Text
unfolding zeros
pad_start width t = zeros (width - length t) ++ t

unfoldable pub drop : ℕ → Text → Text
drop zero t = t
drop (suc n) [] = []
drop (suc n) (c ∷ t) = drop n t

-- `0*$` matches here.
abbrev pub all_zero : Text → Bool
all_zero t = all (λ c. eqb c 48) t

-- `\.?0+$` matches here.
unfoldable pub ends_here : Text → Bool
ends_here [] = false
ends_here (c ∷ t) = all_zero (c ∷ t) || (eqb c 46 && (not (is_empty t) && all_zero t))

-- `replace(/\.?0+$/, "")`: the first place where the expression matches.
unfoldable pub strip : Text → Text
strip [] = []
strip (c ∷ t) = let rest = strip t in if ends_here (c ∷ t) then [] else c ∷ rest

-- `formatKas`, of the value of its argument.
unfoldable pub format_kas : ℕ → Text
format_kas sompi =
    let padded = pad_start 9 (digits sompi) in
    let split = length padded - 8 in strip (take split padded ++ (46 ∷ drop split padded))
