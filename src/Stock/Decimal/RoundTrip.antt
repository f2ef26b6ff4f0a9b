-- ===== src/Stock/Decimal/RoundTrip.antt =====
-- Reading a decimal that `formatFixed` printed.
use native.Mathlib.Nat.{mod-lt, div-add-mod', one-le-pow}
use mathlib.Core.List.{reverse, reverse-reverse}
use ckitchen_backend.Prelude.{
  ℕ, zero, suc, ◌+◌, ◌-◌, ◌*◌, ◌/◌, ◌%◌, ◌^◌, ◌≤◌, ◌<◌, ◌≡◌, refl, Bool, true, false, some, [], ◌∷◌,
  ◌++◌, Text, trim, trim_start, is_space, is_empty, arith, ltb, ◌==◌, if◌then◌else◌, length, take,
  append-nil, All, All-append, All-reverse, All-map, ok,
}
use ckitchen_backend.Prelude.Int.{ℤ, pos, negsuc, neg, pos_part, neg_part, ltb_ℤ}
use ckitchen_backend.Stock.Decimal.{
  is_digit, to_bigint, span_digits, match_fraction, match_body, match_decimal, pad_start, pad_end,
  minus_sign, parse_fixed, format_fixed, normalize_fixed, show,
}
use ckitchen_backend.Stock.Decimal.Digits.{
  IsDigit, to_bigint-show, show-IsDigit, show-length, show-ne-nil, pad_start-value,
  pad_start-IsDigit, pad_start-length, span_digits-digits, span_digits-append,
}

abbrev IsInk : ℕ → Type 0
IsInk c = is_space c ≡ false

trim_start-ink : (s : Text) → All IsInk s → trim_start s ≡ s
unfolding trim_start
trim_start-ink [] h = refl
trim_start-ink (c ∷ s) h = rw h.0

trim-ink : (s : Text) → All IsInk s → trim s ≡ s
unfolding trim
trim-ink s h =
    rw (trim_start-ink s h, trim_start-ink (reverse s) (All-reverse IsInk s h)) (reverse-reverse s)

digit-IsInk : (c : ℕ) → IsDigit c → IsInk c
digit-IsInk c h = ground arith

match_whole :
    (minus : Bool) (w : Text)
    → All IsDigit w
    → 0 < length w
    → match_body minus (span_digits w) ≡ some (record { minus = minus; whole = w; fraction = [] })
unfolding match_body
match_whole minus [] h l = absurd (omega arith)
match_whole minus (c ∷ w) h l = rw (span_digits-digits (c ∷ w) h)

match_point :
    (minus : Bool) (w f : Text)
    → All IsDigit w
    → All IsDigit f
    → 0 < length w
    → 0 < length f
    → match_body minus (span_digits (w ++ (b'.' ∷ f)))
      ≡ some (record { minus = minus; whole = w; fraction = f })
unfolding match_body match_fraction
match_point minus [] f hw hf lw lf = absurd (omega arith)
match_point minus (c ∷ w) [] hw hf lw lf = absurd (omega arith)
match_point minus (c ∷ w) (d ∷ f) hw hf lw lf =
    rw (span_digits-append (c ∷ w) b'.' (d ∷ f) hw refl, span_digits-digits (d ∷ f) hf)

-- A sign before a body that begins with a digit.
match_sign :
    (negative : Bool) (c : ℕ) (s : Text)
    → is_digit c ≡ true
    → match_decimal (minus_sign negative ++ (c ∷ s)) ≡ match_body negative (span_digits (c ∷ s))
unfolding match_decimal
match_sign true c s h = refl
match_sign false c s h = ground arith

match_printed :
    (negative : Bool) (w r : Text)
    → All IsDigit w
    → 0 < length w
    → match_decimal (minus_sign negative ++ (w ++ r)) ≡ match_body negative (span_digits (w ++ r))
match_printed negative [] r h l = absurd (omega arith)
match_printed negative (c ∷ w) r h l = match_sign negative c (w ++ r) h.0

minus_sign-IsInk : (negative : Bool) → All IsInk (minus_sign negative)
minus_sign-IsInk true = (refl, tt)
minus_sign-IsInk false = tt

printed-IsInk :
    (negative : Bool) (w r : Text)
    → All IsDigit w
    → All IsInk r
    → All IsInk (minus_sign negative ++ (w ++ r))
printed-IsInk negative w r hw hr =
    All-append IsInk (minus_sign negative) (w ++ r) (minus_sign-IsInk negative)
      (All-append IsInk w r (All-map IsDigit IsInk digit-IsInk w hw) hr)

take_all : (s : Text) (n : ℕ) → length s ≡ n → take n s ≡ s
take_all [] zero h = refl
take_all [] (suc n) h = refl
take_all (c ∷ s) zero h = absurd (omega arith)
take_all (c ∷ s) (suc n) h = rw (take_all s n (omega arith))

pad_end_full : (s : Text) (n : ℕ) → length s ≡ n → pad_end s n ≡ s
pad_end_full s n h = let e : n - length s ≡ 0 = omega arith in rw (e, append-nil)

-- The sign of the printed number and its magnitude give the number.
signed_back :
    (v : ℤ)
    → (if ltb_ℤ v (pos 0)
        then neg (pos (pos_part v + neg_part v))
        else pos (pos_part v + neg_part v))
      ≡ v
signed_back (pos n) = ground arith
signed_back (negsuc n) = ground arith

parse_printed_whole :
    (negative : Bool) (m : ℕ)
    → parse_fixed (minus_sign negative ++ show m) 0 ≡ ok (if negative then neg (pos m) else pos m)
unfolding parse_fixed
parse_printed_whole negative m =
    let e : minus_sign negative ++ show m ≡ minus_sign negative ++ (show m ++ []) = rw append-nil in
    rw
      (
        e,
        trim-ink _ (printed-IsInk negative (show m) [] (show-IsDigit m) tt),
        match_printed negative (show m) [] (show-IsDigit m) (show-ne-nil m),
        append-nil,
        match_whole negative (show m) (show-IsDigit m) (show-ne-nil m),
      )
      (let q : to_bigint (show m) * 1 + 0 ≡ m = omega (arith, to_bigint-show m) in rw q)

value_or_zero : (f : Text) → to_bigint (if is_empty f then b'0' ∷ [] else f) ≡ to_bigint f
value_or_zero [] = refl
value_or_zero (c ∷ f) = refl

-- The two parts of the print add up to the number.
magnitude_printed :
    (m k : ℕ)
    → let f = pad_start (show (m % 10 ^ suc k)) (suc k) in
      to_bigint (show (m / 10 ^ suc k)) * 10 ^ suc k
        + to_bigint (if is_empty f then b'0' ∷ [] else f)
      ≡ m
magnitude_printed m k =
    let r = show (m % 10 ^ suc k) in
    rw
      (
        value_or_zero (pad_start r (suc k)),
        pad_start-value r (suc k),
        to_bigint-show (m / 10 ^ suc k),
        to_bigint-show (m % 10 ^ suc k),
      )
      (div-add-mod' m (10 ^ suc k))

parse_printed_point :
    (negative : Bool) (m k : ℕ)
    → k < 12
    → parse_fixed
        (minus_sign negative
          ++ (show (m / 10 ^ suc k) ++ (b'.' ∷ pad_start (show (m % 10 ^ suc k)) (suc k))))
        (suc k)
      ≡ ok (if negative then neg (pos m) else pos m)
unfolding parse_fixed
parse_printed_point negative m k h =
    let w = show (m / 10 ^ suc k) in
    let f = pad_start (show (m % 10 ^ suc k)) (suc k) in
    let hw : All IsDigit w = show-IsDigit _ in
    let hf : All IsDigit f = pad_start-IsDigit _ (suc k) (show-IsDigit _) in
    let p : 0 < 10 ^ suc k = one-le-pow (suc k) 10 (omega arith) in
    let lf : length f ≡ suc k = pad_start-length _ (suc k) (show-length k _ (mod-lt m p)) in
    let scale : ltb 12 (suc k) ≡ false = ground arith in
    let long : ltb (suc k) (length f) ≡ false = ground arith in
    rw
      (
        scale,
        trim-ink _
            (printed-IsInk negative w (b'.' ∷ f) hw (refl, All-map IsDigit IsInk digit-IsInk f hf)),
        match_printed negative w (b'.' ∷ f) hw (show-ne-nil _),
        match_point negative w f hw hf (show-ne-nil _) (omega arith),
        long,
        take_all f (suc k) lf,
        pad_end_full f (suc k) lf,
      )
      (rw (magnitude_printed m k))

-- For every integer and every scale up to 12, the text that formatFixed prints is accepted by
-- parseFixed at that scale and gives the integer back.
pub parse_fixed-format_fixed :
    (v : ℤ) (scale : ℕ) → scale ≤ 12 → parse_fixed (format_fixed v scale) scale ≡ ok v
unfolding format_fixed
parse_fixed-format_fixed v zero h =
    rw (parse_printed_whole (ltb_ℤ v (pos 0)) ((pos_part v + neg_part v) / 1)) (
      let q : (pos_part v + neg_part v) / 1 ≡ pos_part v + neg_part v = omega arith in
      rw (q, signed_back v))
parse_fixed-format_fixed v (suc k) h =
    let t : (suc k == 0) ≡ false = ground arith in
    rw (t, parse_printed_point (ltb_ℤ v (pos 0)) (pos_part v + neg_part v) k h) (rw (signed_back v))

-- normalizeFixed gives a text that stands for the same integer at that scale, and normalising that
-- text again changes nothing, for every text that parseFixed accepts at a scale up to 12.
pub normalize_fixed_stable :
    (t : Text) (scale : ℕ) {v : ℤ}
    → scale ≤ 12
    → parse_fixed t scale ≡ ok v
    → (n : Text) × (normalize_fixed t scale ≡ ok n)
      × (parse_fixed n scale ≡ ok v)
      × (normalize_fixed n scale ≡ ok n)
unfolding normalize_fixed
normalize_fixed_stable t scale {v} h e =
    let back : parse_fixed (format_fixed v scale) scale ≡ ok v =
      parse_fixed-format_fixed v scale h in
    (format_fixed v scale, rw e, back, rw back)
