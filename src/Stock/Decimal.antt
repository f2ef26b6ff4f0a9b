-- ===== src/Stock/Decimal.antt =====
-- src/modules/stock/decimal.ts: fixed-scale decimals over BigInt. A `number` argument is passed as
-- the text that `String(value)` gives; the result is the scaled integer.
mod Print
pub mod Digits
pub mod RoundTrip
unfoldable pub use Print.{show}
use mathlib.Core.List.{foldl}
use ckitchen_backend.Prelude.{
  ℕ, zero, suc, ◌+◌, ◌-◌, ◌*◌, ◌/◌, ◌%◌, ◌^◌, Bool, true, false, not, ◌&&◌, Option, none, some,
  List, [], ◌∷◌, ◌++◌, ◌≡◌, refl, Text, trim, is_empty, codes, ltb, leb, ◌==◌, if◌then◌else◌,
  length, take, drop, replicate, all, Result, ok, err, ◌>>=◌, ◌>>◌, throw_if, or_throw,
}
use ckitchen_backend.Prelude.Int.{ℤ, pos, pos_part, neg_part, neg, ltb_ℤ, ◌*ℤ◌, sub_ℕ}

-- `DecimalValidationError`, one constructor for each message.
pub data DecimalError : Type 0 where
  invalid_scale invalid_value exceeds_precision product_exceeds : DecimalError

abbrev pub is_digit : ℕ → Bool
is_digit c = leb b'0' c && leb c b'9'

-- `BigInt(digits)`; the empty text is 0.
abbrev pub value_from : ℕ → Text → ℕ
value_from n [] = n
value_from n (c ∷ s) = value_from (n * 10 + (c - b'0')) s

abbrev pub to_bigint : Text → ℕ
to_bigint s = value_from 0 s

-- `\d*`: the digits that a text begins with, and the rest.
unfoldable pub span_digits : Text → Text × Text
span_digits [] = ([], [])
span_digits (c ∷ s) =
    let (ds, rest) = span_digits s in if is_digit c then (c ∷ ds, rest) else ([], c ∷ s)

-- The groups of `/^([+-]?)(\d+)(?:\.(\d+))?$/`.
pub record DecimalMatch : Type 0 where
  pub minus : Bool
  pub whole : Text
  pub fraction : Text

unfoldable pub match_fraction : Bool → Text → Text × Text → Option DecimalMatch
match_fraction minus whole ([], rest) = none
match_fraction minus whole (f ∷ fs, []) =
    some (record { minus = minus; whole = whole; fraction = f ∷ fs })
match_fraction minus whole (f ∷ fs, c ∷ rest) = none

unfoldable pub match_body : Bool → Text × Text → Option DecimalMatch
unfolding match_fraction span_digits
match_body minus ([], rest) = none
match_body minus (d ∷ ds, []) = some (record { minus = minus; whole = d ∷ ds; fraction = [] })
match_body minus (d ∷ ds, c ∷ rest) =
    if c == b'.' then match_fraction minus (d ∷ ds) (span_digits rest) else none

unfoldable pub match_decimal : Text → Option DecimalMatch
unfolding match_body span_digits
match_decimal [] = none
match_decimal (c ∷ s) =
    if c == b'-'
    then match_body true (span_digits s)
    else if c == b'+'
    then match_body false (span_digits s)
    else match_body false (span_digits (c ∷ s))

-- `s.padEnd(n, "0")` and `s.padStart(n, "0")`
abbrev pub pad_end : Text → ℕ → Text
pad_end s n = s ++ replicate (n - length s) b'0'

abbrev pub pad_start : Text → ℕ → Text
pad_start s n = replicate (n - length s) b'0' ++ s

-- The scaled integer that the groups denote.
abbrev pub magnitude_of : DecimalMatch → ℕ → ℕ
magnitude_of m scale =
    let padded = pad_end (take scale m.fraction) scale in
    to_bigint m.whole * 10 ^ scale + to_bigint (if is_empty padded then b'0' ∷ [] else padded)

unfoldable pub parse_fixed : Text → ℕ → Result DecimalError ℤ
unfolding match_decimal trim
parse_fixed value scale = do
  throw_if (ltb 12 scale) invalid_scale
  m ← or_throw (match_decimal (trim value)) invalid_value
  throw_if (ltb scale (length m.fraction) && not (all (λ c. c == b'0') (drop scale m.fraction)))
      exceeds_precision
  ok (if m.minus then neg (pos (magnitude_of m scale)) else pos (magnitude_of m scale))

abbrev pub minus_sign : Bool → Text
minus_sign negative = if negative then b'-' ∷ [] else []

unfoldable pub format_fixed : ℤ → ℕ → Text
unfolding show
format_fixed value scale =
    let negative = ltb_ℤ value (pos 0) in
    let magnitude = pos_part value + neg_part value in
    let divisor = 10 ^ scale in
    let whole = show (magnitude / divisor) in
    if scale == 0
    then minus_sign negative ++ whole
    else minus_sign negative ++ (whole ++ (b'.' ∷ pad_start (show (magnitude % divisor)) scale))

unfoldable pub normalize_fixed : Text → ℕ → Result DecimalError Text
unfolding parse_fixed format_fixed
normalize_fixed value scale = do v ← parse_fixed value scale; ok (format_fixed v scale)

-- `%` and `/` of BigInt keep the dividend's sign.
unfoldable pub divide_exact : ℤ → ℕ → Result DecimalError ℤ
divide_exact product divisor =
    if (pos_part product + neg_part product) % divisor == 0
    then ok (sub_ℕ (pos_part product / divisor) (neg_part product / divisor))
    else err product_exceeds

-- The product of `multiplyFixedExact` as a scaled integer, and its text.
unfoldable pub multiply_fixed : Text → ℕ → Text → ℕ → ℕ → Result DecimalError ℤ
unfolding parse_fixed divide_exact ◌*ℤ◌
multiply_fixed left left_scale right right_scale output_scale = do
  l ← parse_fixed left left_scale
  r ← parse_fixed right right_scale
  let product = l *ℤ r
  let product_scale = left_scale + right_scale
  if ltb product_scale output_scale
      then ok (product *ℤ pos (10 ^ (output_scale - product_scale)))
      else divide_exact product (10 ^ (product_scale - output_scale))

unfoldable pub multiply_fixed_exact : Text → ℕ → Text → ℕ → ℕ → Result DecimalError Text
unfolding multiply_fixed format_fixed
multiply_fixed_exact left left_scale right right_scale output_scale = do
  v ← multiply_fixed left left_scale right right_scale output_scale
  ok (format_fixed v output_scale)
