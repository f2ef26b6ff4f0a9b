-- ===== src/Units/Catalog/Rounding.antt =====
-- The rounding of a quantity, and its text.
use ckitchen_backend.Prelude.{
  ℕ, ◌+◌, ◌*◌, ◌/◌, ◌≤◌, ◌<◌, ◌≡◌, refl, ◌∙◌, Bool, true, false, not, ◌&&◌, append-nil, ◌==◌,
  Bool-cases, inl, inr, arith,
}
use native.Mathlib.Nat.{mul_assoc, mul_left_comm, mul-div-le, lt-mul-div-succ}
use ckitchen_backend.Prelude.Int.{ℤ, pos, ltb_ℤ}
use ckitchen_backend.Stock.Decimal.{format_fixed}
use ckitchen_backend.Units.Catalog.{magnitude, with_sign, xor, divide_rounded, format_scaled}

-- formatScaled prints every number at every scale as formatFixed does.
pub format_scaled-format_fixed : (v : ℤ) (scale : ℕ) → format_scaled v scale ≡ format_fixed v scale
unfolding format_scaled format_fixed
format_scaled-format_fixed v scale = elim (Bool-cases (scale == 0)) [
  | inl e ↦ rw (e, sign v, append-nil)
  | inr e ↦ rw (e, sign v)
]
  where
    sign : (v : ℤ) → (ltb_ℤ v (pos 0) && not (magnitude v == 0)) ≡ ltb_ℤ v (pos 0)
    sign v = ground arith

magnitude-with_sign : (negative : Bool) (q : ℕ) → magnitude (with_sign negative q) ≡ q
magnitude-with_sign true q = ground arith
magnitude-with_sign false q = ground arith

twice : (d q : ℕ) → d * 2 * q ≡ 2 * (d * q)
twice d q = mul_assoc d 2 q ∙ mul_left_comm d 2 q

-- divideRounded gives the nearest whole number, and of two that are as near the one further from 0:
-- for a divisor that is not 0, the magnitude q of what it returns is the one with
-- 2bq <= 2a + b < 2b(q + 1), where a and b are the magnitudes of its arguments, and it has a minus
-- sign before q when exactly one of them is below 0.
pub divide_rounded-nearest :
    (x y : ℤ)
    → 0 < magnitude y
    → (2 * (magnitude y * magnitude (divide_rounded x y)) ≤ 2 * magnitude x + magnitude y)
      × (2 * magnitude x + magnitude y < 2 * (magnitude y * (magnitude (divide_rounded x y) + 1)))
      × (divide_rounded x y
          ≡ with_sign (xor (ltb_ℤ x (pos 0)) (ltb_ℤ y (pos 0))) (magnitude (divide_rounded x y)))
unfolding divide_rounded
divide_rounded-nearest x y h =
    let a = magnitude x in
    let b = magnitude y in
    let q = (a * 2 + b) / (b * 2) in
    let low = mul-div-le (a * 2 + b) (b * 2) in
    let high = lt-mul-div-succ (a * 2 + b) {b = b * 2} (omega (arith, h)) in
    rw (magnitude-with_sign (xor (ltb_ℤ x (pos 0)) (ltb_ℤ y (pos 0))) q)
      (omega (arith, low, twice b q), omega (arith, high, twice b (q + 1)), refl)
