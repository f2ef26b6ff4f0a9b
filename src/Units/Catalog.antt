-- ===== src/Units/Catalog.antt =====
-- src/modules/units/catalog.ts, the exact decimals: a quantity is multiplied and divided exactly and
-- rounded once. A `number` argument is passed as the text that `numberToPlain` gives.
pub mod Rounding
use ckitchen_backend.Prelude.{
  ℕ, suc, ◌+◌, ◌*◌, ◌/◌, ◌%◌, ◌^◌, Bool, true, false, not, ◌&&◌, Option, none, some, List, [], ◌∷◌,
  ◌++◌, Text, trim, codes, ltb, leb, ◌==◌, if◌then◌else◌, length, Result, ok, err, ◌>>=◌, ◌>>◌,
  throw_if, or_throw,
}
use ckitchen_backend.Prelude.Int.{ℤ, pos, pos_part, neg_part, neg, ltb_ℤ, ◌==ℤ◌, ◌*ℤ◌}
use ckitchen_backend.Stock.Decimal.{
  DecimalMatch, match_decimal, match_fraction, span_digits, to_bigint, pad_start, minus_sign, show,
}

-- `QuantityError`, one constructor for each message of the file and of service.ts.
pub data QuantityError : Type 0 where
  not_a_number too_many_decimals zero_factor not_convertible : QuantityError

-- The value is digits / 10^scale.
pub record Decimal : Type 0 where
  pub digits : ℤ
  pub scale : ℕ

abbrev pub quantity_scale : ℕ
quantity_scale = 6

-- The second alternative of `DECIMAL_RE`: `^([+-]?)\.(\d+)$`, of which the whole part is "0".
unfoldable pub match_point : Bool → Text → Option DecimalMatch
unfolding match_fraction span_digits
match_point minus [] = none
match_point minus (c ∷ s) =
    if c == b'.' then match_fraction minus (b'0' ∷ []) (span_digits s) else none

unfoldable pub match_bare_fraction : Text → Option DecimalMatch
unfolding match_point
match_bare_fraction [] = none
match_bare_fraction (c ∷ s) =
    if c == b'-'
    then match_point true s
    else if c == b'+'
    then match_point false s
    else match_point false (c ∷ s)

-- `DECIMAL_RE`
unfoldable pub match_quantity : Text → Option DecimalMatch
unfolding match_decimal match_bare_fraction
match_quantity t = elim (match_decimal t) [ some m ↦ some m | none ↦ match_bare_fraction t ]

unfoldable pub parse_decimal : Text → Result QuantityError Decimal
unfolding match_quantity trim
parse_decimal value = do
  m ← or_throw (match_quantity (trim value)) not_a_number
  throw_if (ltb 30 (length m.fraction)) too_many_decimals
  let digits = pos (to_bigint (m.whole ++ m.fraction))
  ok (record { digits = if m.minus then neg digits else digits; scale = length m.fraction })

abbrev pub magnitude : ℤ → ℕ
magnitude x = pos_part x + neg_part x

-- The sign of a number that is below 0 or not.
abbrev pub with_sign : Bool → ℕ → ℤ
with_sign negative q = if negative then neg (pos q) else pos q

abbrev pub xor : Bool → Bool → Bool
xor true b = not b
xor false b = b

-- `divideRounded`: half away from zero.
unfoldable pub divide_rounded : ℤ → ℤ → ℤ
divide_rounded numerator denominator =
    with_sign (xor (ltb_ℤ numerator (pos 0)) (ltb_ℤ denominator (pos 0)))
      ((magnitude numerator * 2 + magnitude denominator) / (magnitude denominator * 2))

unfoldable pub format_scaled : ℤ → ℕ → Text
unfolding show
format_scaled digits scale =
    let divisor = 10 ^ scale in
    let whole = show (magnitude digits / divisor) in
    let fraction =
      if scale == 0 then [] else b'.' ∷ pad_start (show (magnitude digits % divisor)) scale in
    minus_sign (ltb_ℤ digits (pos 0) && not (magnitude digits == 0)) ++ (whole ++ fraction)

-- The result of `scaleQuantity` as a number of units of 10^-out_scale.
unfoldable pub scale_digits : Decimal → Decimal → Decimal → ℕ → ℤ
unfolding divide_rounded ◌*ℤ◌
scale_digits v m d out_scale =
    divide_rounded (v.digits *ℤ m.digits *ℤ pos (10 ^ (d.scale + out_scale)))
      (d.digits *ℤ pos (10 ^ (v.scale + m.scale)))

unfoldable pub scale_quantity : Text → Text → Text → ℕ → Result QuantityError Text
unfolding parse_decimal scale_digits format_scaled
scale_quantity value multiplier divisor out_scale = do
  v ← parse_decimal value
  m ← parse_decimal multiplier
  d ← parse_decimal divisor
  throw_if (d.digits ==ℤ pos 0) zero_factor
  ok (format_scaled (scale_digits v m d out_scale) out_scale)

unfoldable pub normalize_quantity : Text → Result QuantityError Text
unfolding scale_quantity
normalize_quantity value = scale_quantity value (codes "1") (codes "1") quantity_scale
