-- ===== src/Transfers/Lines/Amounts.antt =====
-- What src/modules/transfers/service.ts guarantees of the lines of an order.
use ckitchen_backend.Prelude.{
  is_empty, trim, for_each, ℕ, zero, suc, ◌+◌, ◌^◌, ◌/◌, ◌%◌, ◌≤◌, ◌≡◌, refl, sym, ap, subst, ◌∙◌,
  true, false, not, ◌&&◌, ◌||◌, List, [], ◌∷◌, Text, ltb, length, map, includes, ◌==◌,
  if◌then◌else◌, inl, inr, Bool-cases, Result, ok, err, ◌>>=◌, throw_if-eq-ok, >>=-eq-ok, >>-eq-ok,
  ok-injective, All, arith,
}
use ckitchen_backend.Prelude.Int.{ℤ, pos, sub_ℕ, negsuc, ◌*ℤ◌, ◌<ℤ◌, leb_ℤ}
use ckitchen_backend.Stock.Types.{Db}
use ckitchen_backend.Transfers.Types.{
  transfer_error, validation, uom_mismatch, TransferError, TransferLineInput,
}
use ckitchen_backend.Transfers.Lines.{
  caught, uncaught, check_pinned_lot, ResolvedLine, check_line_inputs, check_transfer_item,
  conversion_by_key, resolve_line, resolve_lines, resolve_and_validate_lines, transfer_min_lines,
  transfer_max_lines,
}
use ckitchen_backend.Stock.Decimal.{
  DecimalError, product_exceeds, divide_exact, parse_fixed, format_fixed, multiply_fixed,
}
use ckitchen_backend.Stock.Decimal.RoundTrip.{parse_fixed-format_fixed}

-- A line that is resolved: its quantity is above 0, and its base quantity is exactly the quantity
-- times the factor, which both have a scale.
abbrev pub IsExact : ResolvedLine → Type 0
IsExact r =
    (pos 0 <ℤ r.entered_quantity)
    × (r.base_quantity *ℤ pos (10 ^ 8) ≡ r.entered_quantity *ℤ r.conversion_factor)

whole_back :
    (n : ℕ)
    → ((n + 0) % 10 ^ 8 == 0) ≡ true
    → sub_ℕ (n / 10 ^ 8) (0 / 10 ^ 8) *ℤ pos (10 ^ 8) ≡ pos n
unfolding ◌*ℤ◌
whole_back n h = ground arith

minus_back :
    (n : ℕ)
    → ((0 + suc n) % 10 ^ 8 == 0) ≡ true
    → sub_ℕ (0 / 10 ^ 8) (suc n / 10 ^ 8) *ℤ pos (10 ^ 8) ≡ negsuc n
unfolding ◌*ℤ◌
minus_back n h = ground arith

divide_exact-back : (p : ℤ) {b : ℤ} → divide_exact p (10 ^ 8) ≡ ok b → b *ℤ pos (10 ^ 8) ≡ p
unfolding divide_exact
divide_exact-back (pos n) h = elim (Bool-cases ((n + 0) % 10 ^ 8 == 0)) [
  | inl e ↦
      subst (λ b. b *ℤ pos (10 ^ 8) ≡ pos n) (ok-injective (rw (e, divide_exact) at h))
        (whole_back n e)
  | inr e ↦ absurd (refused (rw (e, divide_exact) at h))
]
  where
    refused : {b : ℤ} → ◌≡◌ {A = Result DecimalError ℤ} (err product_exceeds) (ok b) → ⊥
    refused h = cc
divide_exact-back (negsuc n) h = elim (Bool-cases ((0 + suc n) % 10 ^ 8 == 0)) [
  | inl e ↦
      subst (λ b. b *ℤ pos (10 ^ 8) ≡ negsuc n) (ok-injective (rw (e, divide_exact) at h))
        (minus_back n e)
  | inr e ↦ absurd (refused (rw (e, divide_exact) at h))
]
  where
    refused : {b : ℤ} → ◌≡◌ {A = Result DecimalError ℤ} (err product_exceeds) (ok b) → ⊥
    refused h = cc

-- A line input that the first loop accepts.
IsPositive : TransferLineInput → Type 0
IsPositive line = (q : ℤ) × (parse_fixed line.entered_quantity 6 ≡ ok q) × (pos 0 <ℤ q)

caught-eq-ok :
    {A : Type 0} (e : TransferError) (r : Result DecimalError A) {a : A}
    → caught e r ≡ ok a
    → r ≡ ok a
unfolding caught
caught-eq-ok e (ok a) h = ap ok (ok-injective h)
caught-eq-ok e (err x) h = cc

check_line_inputs-ArePositive :
    (seen : List ℕ) (lines : List TransferLineInput)
    → check_line_inputs seen lines ≡ ok tt
    → All IsPositive lines
unfolding check_line_inputs IsPositive
check_line_inputs-ArePositive seen [] h = tt
check_line_inputs-ArePositive seen (line ∷ lines) h =
    let (_, h₁) = throw_if-eq-ok (is_empty (trim line.entered_uom)) _ _ h in
    let (_, h₂) = throw_if-eq-ok (not (line.lot_id == 0) && includes seen line.lot_id) _ _ h₁ in
    let (q, parsed, h₃) =
      >>=-eq-ok (caught (transfer_error validation 400) (parse_fixed line.entered_quantity 6)) _
        h₂ in
    let (above, h₄) = throw_if-eq-ok (leb_ℤ q (pos 0)) _ _ h₃ in
    (
      (q, caught-eq-ok _ _ parsed, positive q above),
      check_line_inputs-ArePositive (if line.lot_id == 0 then seen else line.lot_id ∷ seen) lines
          h₄,
    )
  where
    positive : (q : ℤ) → leb_ℤ q (pos 0) ≡ false → pos 0 <ℤ q
    positive q a = ground arith

multiply_fixed-back :
    (t : Text) (q factor : ℤ) {b : ℤ}
    → parse_fixed t 6 ≡ ok q
    → multiply_fixed t 6 (format_fixed factor 8) 8 6 ≡ ok b
    → b *ℤ pos (10 ^ 8) ≡ q *ℤ factor
unfolding multiply_fixed
multiply_fixed-back t q factor parsed h =
    let f = parse_fixed-format_fixed factor 8 (omega arith) in
    divide_exact-back (q *ℤ factor) (rw (parsed, f) at h)

uncaught-eq-ok : {A : Type 0} (r : Result DecimalError A) {a : A} → uncaught r ≡ ok a → r ≡ ok a
uncaught-eq-ok (ok a) h = ap ok (ok-injective h)
uncaught-eq-ok (err x) h = cc

resolve_line-IsExact :
    (db : Db) (number : ℕ) (line : TransferLineInput) {r : ResolvedLine}
    → IsPositive line
    → resolve_line db number line ≡ ok r
    → IsExact r × (r.line_no ≡ number)
unfolding resolve_line IsPositive
resolve_line-IsExact db number line (q, parsed, above) h =
    let (_, h₁) = >>-eq-ok (check_pinned_lot db.lots line) _ h in
    let (factor, _, h₂) = >>=-eq-ok (conversion_by_key db line) _ h₁ in
    let (base, base_eq, h₃) =
      >>=-eq-ok
        (caught (transfer_error uom_mismatch 409)
          (multiply_fixed line.entered_quantity 6 (format_fixed factor 8) 8 6))
        _ h₂ in
    let (entered, entered_eq, h₄) =
      >>=-eq-ok (uncaught (parse_fixed line.entered_quantity 6)) _ h₃ in
    let same : entered ≡ q = ok-injective (sym (uncaught-eq-ok _ entered_eq) ∙ parsed) in
    let back =
      multiply_fixed-back line.entered_quantity q factor parsed (caught-eq-ok _ _ base_eq) in
    subst (λ (x : ResolvedLine). IsExact x × (x.line_no ≡ number)) (ok-injective h₄)
      (
        (
          subst (λ x. pos 0 <ℤ x) (sym same) above,
          subst (λ x. base *ℤ pos (10 ^ 8) ≡ x *ℤ factor) (sym same) back,
        ),
        refl,
      )

-- `from`, and the numbers after it.
abbrev pub numbers : ℕ → ℕ → List ℕ
numbers from zero = []
numbers from (suc n) = from ∷ numbers (from + 1) n

resolve_lines-AreExact :
    (db : Db) (number : ℕ) (lines : List TransferLineInput) {rs : List ResolvedLine}
    → All IsPositive lines
    → resolve_lines db number lines ≡ ok rs
    → All IsExact rs × (map (λ (r : ResolvedLine). r.line_no) rs ≡ numbers number (length lines))
unfolding resolve_lines
resolve_lines-AreExact db number [] each h =
    subst (λ rs. All IsExact rs × (map (λ (r : ResolvedLine). r.line_no) rs ≡ [])) (ok-injective h)
      (tt, refl)
resolve_lines-AreExact db number (line ∷ lines) each h =
    let (r, r_eq, h₁) = >>=-eq-ok (resolve_line db number line) _ h in
    let (rs, rs_eq, h₂) = >>=-eq-ok (resolve_lines db (number + 1) lines) _ h₁ in
    let (exact, same) = resolve_line-IsExact db number line each.0 r_eq in
    let (all_exact, all_same) = resolve_lines-AreExact db (number + 1) lines each.1 rs_eq in
    subst
      (λ xs.
        All IsExact xs
        × (map (λ (x : ResolvedLine). x.line_no) xs ≡ number ∷ numbers (number + 1) (length lines)))
      (ok-injective h₂) ((exact, all_exact), rw (same, all_same))

-- The lines of an order that is created or edited: there are between 1 and 200 of them, numbered
-- from 1 in the order of the input, and each has a quantity above 0 and a base quantity that is
-- exactly its quantity times its factor.
pub resolve_and_validate_lines-bounds :
    (db : Db) (lines : List TransferLineInput) {rs : List ResolvedLine}
    → resolve_and_validate_lines db lines ≡ ok rs
    → (1 ≤ length lines)
      × (length lines ≤ 200)
      × All IsExact rs
      × (map (λ (r : ResolvedLine). r.line_no) rs ≡ numbers 1 (length lines))
unfolding resolve_and_validate_lines
resolve_and_validate_lines-bounds db lines h =
    let (count, h₁) =
      throw_if-eq-ok
        (ltb (length lines) transfer_min_lines || ltb transfer_max_lines (length lines)) _ _ h in
    let (inputs, h₂) = >>-eq-ok (check_line_inputs [] lines) _ h₁ in
    let (_, h₃) = >>-eq-ok (for_each (check_transfer_item db) lines) _ h₂ in
    let (_, h₄) =
      >>-eq-ok (for_each (λ line. conversion_by_key db line >>= (λ _. ok tt)) lines) _ h₃ in
    let (exact, numbered) =
      resolve_lines-AreExact db 1 lines (check_line_inputs-ArePositive [] lines inputs) h₄ in
    (least (length lines) count, most (length lines) count, exact, numbered)
  where
    least : (n : ℕ) → (ltb n 1 || ltb 200 n) ≡ false → 1 ≤ n
    least n h = ground arith

    most : (n : ℕ) → (ltb n 1 || ltb 200 n) ≡ false → n ≤ 200
    most n h = ground arith
