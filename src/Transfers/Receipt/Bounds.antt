-- ===== src/Transfers/Receipt/Bounds.antt =====
-- What src/modules/transfers/service.ts guarantees of the lines of a receipt.
use ckitchen_backend.Prelude.{
  ◌≡◌, refl, subst, false, List, [], ◌∷◌, map, ok, throw_if-eq-ok, >>=-eq-ok, ok-injective, All,
  arith,
}
use ckitchen_backend.Prelude.Int.{ℤ, pos, ◌≤ℤ◌, ◌<ℤ◌, ltb_ℤ, leb_ℤ}
use ckitchen_backend.Stock.Types.{Item}
use ckitchen_backend.Transfers.Types.{TransferOrderLine, TransferDb, ReceiveInput, ReceiptLineInput}
use ckitchen_backend.Transfers.Guards.{fetch_lines}
use ckitchen_backend.Transfers.Phases.Prepares.{prepare_receipt-eq-ok}
use ckitchen_backend.Transfers.Receipt.{
  ReceiptPlan, prepare_receipt, ReceiptLine, dispatched_base, override_of, received_base,
  resolve_receipt_line, resolve_receipt_lines,
}

-- What arrives of a line: more than nothing, and no more than was dispatched.
abbrev pub IsWithin : ReceiptLine → Type 0
IsWithin r = (pos 0 <ℤ r.received_quantity) × (r.received_quantity ≤ℤ dispatched_base r.line)

within : (d q : ℤ) → leb_ℤ q (pos 0) ≡ false → ltb_ℤ d q ≡ false → (pos 0 <ℤ q) × (q ≤ℤ d)
within d q a b = (ground arith, ground arith)

resolve_receipt_line-IsWithin :
    (items : List Item) (inputs : List ReceiptLineInput) (line : TransferOrderLine)
    {r : ReceiptLine}
    → resolve_receipt_line items inputs line ≡ ok r
    → IsWithin r × (r.line ≡ line)
unfolding resolve_receipt_line
resolve_receipt_line-IsWithin items inputs line {r} h =
    let (q, _, h₁) =
      >>=-eq-ok (received_base (dispatched_base line) (override_of inputs line.id)) _ h in
    let (above, h₂) = throw_if-eq-ok (leb_ℤ q (pos 0)) _ _ h₁ in
    let (below, h₃) = throw_if-eq-ok (ltb_ℤ (dispatched_base line) q) _ _ h₂ in
    subst (λ (x : ReceiptLine). IsWithin x × (x.line ≡ line)) (ok-injective h₃)
      (within (dispatched_base line) q above below, refl)

resolve_receipt_lines-AreWithin :
    (items : List Item) (inputs : List ReceiptLineInput) (lines : List TransferOrderLine)
    {rs : List ReceiptLine}
    → resolve_receipt_lines items inputs lines ≡ ok rs
    → All IsWithin rs × (map (λ (r : ReceiptLine). r.line) rs ≡ lines)
unfolding resolve_receipt_lines
resolve_receipt_lines-AreWithin items inputs [] h =
    subst (λ rs. All IsWithin rs × (map (λ (r : ReceiptLine). r.line) rs ≡ [])) (ok-injective h)
      (tt, refl)
resolve_receipt_lines-AreWithin items inputs (line ∷ lines) h =
    let (r, r_eq, h₁) = >>=-eq-ok (resolve_receipt_line items inputs line) _ h in
    let (rs, rs_eq, h₂) = >>=-eq-ok (resolve_receipt_lines items inputs lines) _ h₁ in
    let (fits, same) = resolve_receipt_line-IsWithin items inputs line r_eq in
    let (all_fit, all_same) = resolve_receipt_lines-AreWithin items inputs lines rs_eq in
    subst (λ xs. All IsWithin xs × (map (λ (x : ReceiptLine). x.line) xs ≡ line ∷ lines))
      (ok-injective h₂) ((fits, all_fit), rw (same, all_same))

-- A receipt that is prepared receives every line of its order, and nothing else: of each line more
-- than 0, and at most what was dispatched.
pub prepare_receipt-IsWithin :
    (db : TransferDb) (input : ReceiveInput) {plan : ReceiptPlan} {db' : TransferDb}
    → prepare_receipt db input ≡ ok (plan, db')
    → All IsWithin plan.resolved
      × (map (λ (r : ReceiptLine). r.line) plan.resolved ≡ fetch_lines db.lines (plan.order).id)
prepare_receipt-IsWithin db input {plan} h =
    let p = prepare_receipt-eq-ok db input h in
    resolve_receipt_lines-AreWithin db.stock.items input.receipt_lines
      (fetch_lines db.lines (plan.order).id) p.resolved_eq
