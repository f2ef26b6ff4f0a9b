-- ===== src/Stock/Decimal/Digits.antt =====
-- The digits that a number prints as, and what is read back from them.
use native.Mathlib.Nat.{pow-suc}
use ckitchen_backend.Prelude.{
  ℕ, zero, suc, ◌+◌, ◌-◌, ◌*◌, ◌/◌, ◌%◌, ◌^◌, ◌≤◌, ◌<◌, ◌≡◌, refl, true, false, [], ◌∷◌, ◌++◌, Text,
  arith, ltb, length, replicate, length-append, length-replicate, Bool-cases, inl, inr, All,
  All-append,
}
use ckitchen_backend.Stock.Decimal.Print.{show_fuel, show}
use ckitchen_backend.Stock.Decimal.{is_digit, value_from, to_bigint, span_digits, pad_start}

abbrev pub IsDigit : ℕ → Type 0
IsDigit c = is_digit c ≡ true

pub value_from-append :
    (xs ys : Text) (n : ℕ) → value_from n (xs ++ ys) ≡ value_from (value_from n xs) ys
value_from-append [] ys n = refl
value_from-append (c ∷ xs) ys n = value_from-append xs ys (n * 10 + (c - b'0'))

show_fuel-value : (f n : ℕ) → n < f → to_bigint (show_fuel f n) ≡ n
unfolding show_fuel
show_fuel-value zero n h = elim h [ ]
show_fuel-value (suc f) n h = elim (Bool-cases (ltb n 10)) [
  | inl small ↦ rw small (ground arith)
  | inr large ↦
      rw (large, value_from-append (show_fuel f (n / 10)) ((b'0' + n % 10) ∷ []) 0)
        (omega (arith, show_fuel-value f (n / 10) (ground arith)))
]

-- Reading the digits of a number gives the number.
pub to_bigint-show : (n : ℕ) → to_bigint (show n) ≡ n
unfolding show
to_bigint-show n = show_fuel-value (suc n) n (omega arith)

show_fuel-IsDigit : (f n : ℕ) → All IsDigit (show_fuel f n)
unfolding show_fuel
show_fuel-IsDigit zero n = tt
show_fuel-IsDigit (suc f) n = elim (Bool-cases (ltb n 10)) [
  | inl small ↦ rw small (ground arith, tt)
  | inr large ↦ rw large (
      All-append IsDigit (show_fuel f (n / 10)) _ (show_fuel-IsDigit f (n / 10)) (ground arith, tt))
]

pub show-IsDigit : (n : ℕ) → All IsDigit (show n)
unfolding show
show-IsDigit n = show_fuel-IsDigit (suc n) n

show_fuel-length : (s f n : ℕ) → n < 10 ^ suc s → length (show_fuel f n) ≤ suc s
unfolding show_fuel
show_fuel-length s zero n h = omega arith
show_fuel-length zero (suc f) n h = elim (Bool-cases (ltb n 10)) [
  | inl small ↦ rw small (omega arith)
  | inr large ↦ absurd (ground arith)
]
show_fuel-length (suc s) (suc f) n h = elim (Bool-cases (ltb n 10)) [
  | inl small ↦ rw small (omega arith)
  | inr large ↦
      rw (large, length-append (show_fuel f (n / 10)) ((b'0' + n % 10) ∷ []))
        (omega (arith, show_fuel-length s f (n / 10) (omega (arith, pow-suc 10 (suc s)))))
]

-- A number below 10 ^ s prints in s digits, when s is positive.
pub show-length : (s n : ℕ) → n < 10 ^ suc s → length (show n) ≤ suc s
unfolding show
show-length s n h = show_fuel-length s (suc n) n h

-- A printed number is not empty.
pub show-ne-nil : (n : ℕ) → 0 < length (show n)
unfolding show show_fuel
show-ne-nil n = elim (Bool-cases (ltb n 10)) [
  | inl small ↦ rw small (omega arith)
  | inr large ↦
      rw (large, length-append (show_fuel n (n / 10)) ((b'0' + n % 10) ∷ [])) (omega arith)
]

value_zeros : (k : ℕ) (s : Text) → to_bigint (replicate k b'0' ++ s) ≡ to_bigint s
value_zeros zero s = refl
value_zeros (suc k) s = value_zeros k s

replicate-IsDigit : (k : ℕ) → All IsDigit (replicate k b'0')
replicate-IsDigit zero = tt
replicate-IsDigit (suc k) = (refl, replicate-IsDigit k)

-- Padding with zeros at the front keeps the value and the digits, and reaches the width.
pub pad_start-value : (s : Text) (k : ℕ) → to_bigint (pad_start s k) ≡ to_bigint s
pad_start-value s k = value_zeros (k - length s) s

pub pad_start-IsDigit : (s : Text) (k : ℕ) → All IsDigit s → All IsDigit (pad_start s k)
pad_start-IsDigit s k h =
    All-append IsDigit (replicate (k - length s) b'0') s (replicate-IsDigit (k - length s)) h

pub pad_start-length : (s : Text) (k : ℕ) → length s ≤ k → length (pad_start s k) ≡ k
pad_start-length s k h = omega (
  arith,
  length-append (replicate (k - length s) b'0') s,
  length-replicate {A = ℕ} (k - length s) b'0',
)

-- The scan stops where the digits do.
pub span_digits-digits : (s : Text) → All IsDigit s → span_digits s ≡ (s, [])
unfolding span_digits
span_digits-digits [] h = refl
span_digits-digits (c ∷ s) h = rw (h.0, span_digits-digits s h.1)

pub span_digits-append :
    (s : Text) (c : ℕ) (r : Text)
    → All IsDigit s
    → is_digit c ≡ false
    → span_digits (s ++ (c ∷ r)) ≡ (s, c ∷ r)
unfolding span_digits
span_digits-append [] c r h e = rw e
span_digits-append (d ∷ s) c r h e = rw (h.0, span_digits-append s c r h.1 e)
