-- ===== src/Transfers/Lines.antt =====
-- src/modules/transfers/service.ts, `resolveAndValidateLines`: the lines of a transfer order, with
-- the base quantity that each of them stands for.
pub mod Amounts
use ckitchen_backend.Prelude.{
  ℕ, ◌+◌, ◌^◌, Bool, true, false, ◌&&◌, ◌||◌, not, Option, none, List, [], ◌∷◌, Text, lower, trim,
  is_empty, text_eq, find?, includes, length, ltb, ◌==◌, if◌then◌else◌, Result, ok, err, ◌>>=◌,
  ◌>>◌, throw_if, or_throw, for_each,
}
use ckitchen_backend.Prelude.Int.{ℤ, pos, leb_ℤ}
use ckitchen_backend.Stock.Decimal.{DecimalError, parse_fixed, format_fixed, multiply_fixed}
use ckitchen_backend.Stock.Types.{LotStatus, disposed, exhausted, Lot, Db}
use ckitchen_backend.Stock.Locks.{uom_of}
use ckitchen_backend.Transfers.Types.{
  TransferError, transfer_error, uncaught_decimal, validation, uom_mismatch, lot_not_eligible,
  duplicate_line, TransferLineInput, draft, TransferOrderLine,
}

-- `TRANSFER_MIN_LINES` and `TRANSFER_MAX_LINES`
abbrev pub transfer_min_lines : ℕ
transfer_min_lines = 1

abbrev pub transfer_max_lines : ℕ
transfer_max_lines = 200

-- `ResolvedLine`
pub record ResolvedLine : Type 0 where
  pub line_no : ℕ
  pub item_id : ℕ
  pub lot_id : ℕ
  pub entered_uom : Text
  pub entered_quantity : ℤ
  pub conversion_factor : ℤ
  pub base_quantity : ℤ
  pub remarks : Option Text

-- A decimal error that the service turns into an error of its own.
unfoldable pub caught :
    {A : Type 0} → TransferError → Result DecimalError A → Result TransferError A
caught thrown (ok a) = ok a
caught thrown (err e) = err thrown

-- The first loop: `seen` holds the lots that were pinned so far.
unfoldable pub check_line_inputs : List ℕ → List TransferLineInput → Result TransferError (Unit {0})
unfolding caught
check_line_inputs seen [] = ok tt
check_line_inputs seen (line ∷ lines) = do
  throw_if (is_empty (trim line.entered_uom)) (transfer_error validation 400)
  throw_if (not (line.lot_id == 0) && includes seen line.lot_id) (transfer_error duplicate_line 400)
  q ← caught (transfer_error validation 400) (parse_fixed line.entered_quantity 6)
  throw_if (leb_ℤ q (pos 0)) (transfer_error validation 400)
  check_line_inputs (if line.lot_id == 0 then seen else line.lot_id ∷ seen) lines

unfoldable pub check_transfer_item : Db → TransferLineInput → Result TransferError (Unit {0})
check_transfer_item db line = do
  item ← or_throw (find? (λ i. i.id == line.item_id) db.items) (transfer_error validation 409)
  throw_if (not item.is_active) (transfer_error validation 409)

-- `conversionByKey`: the factor of an item and a unit.
unfoldable pub conversion_by_key : Db → TransferLineInput → Result TransferError ℤ
conversion_by_key db line = do
  item ← or_throw (find? (λ i. i.id == line.item_id) db.items) (transfer_error validation 409)
  let uom = uom_of line.entered_uom
  let conversion =
      find? (λ c. c.item_id == line.item_id && text_eq (lower c.from_uom) uom && c.is_active)
        db.conversions
  if text_eq (uom_of item.unit) uom
      then ok (pos (10 ^ 8))
      else or_throw conversion (transfer_error uom_mismatch 409) >>= (λ c. ok c.to_base_factor)

abbrev pub is_spent : LotStatus → Bool
is_spent disposed = true
is_spent exhausted = true
is_spent status = false

unfoldable pub check_pinned_lot : List Lot → TransferLineInput → Result TransferError (Unit {0})
check_pinned_lot lots line =
    if line.lot_id == 0
    then ok tt
    else or_throw (find? (λ l. l.id == line.lot_id) lots) (transfer_error validation 404)
      >>= (λ lot.
          throw_if (not (lot.item_id == line.item_id)) (transfer_error validation 409)
          >> throw_if (is_spent lot.status) (transfer_error lot_not_eligible 409))

abbrev pub uncaught : {A : Type 0} → Result DecimalError A → Result TransferError A
uncaught (ok a) = ok a
uncaught (err e) = err (uncaught_decimal e)

-- The last loop; `number` is the line's number.
unfoldable pub resolve_line : Db → ℕ → TransferLineInput → Result TransferError ResolvedLine
unfolding conversion_by_key check_pinned_lot caught
resolve_line db number line = do
  check_pinned_lot db.lots line
  factor ← conversion_by_key db line
  base ←
      caught (transfer_error uom_mismatch 409)
        (multiply_fixed line.entered_quantity 6 (format_fixed factor 8) 8 6)
  entered ← uncaught (parse_fixed line.entered_quantity 6)
  ok (record {
    line_no = number;
    item_id = line.item_id;
    lot_id = line.lot_id;
    entered_uom = line.entered_uom;
    entered_quantity = entered;
    conversion_factor = factor;
    base_quantity = base;
    remarks = line.remarks;
  })

unfoldable pub resolve_lines :
    Db → ℕ → List TransferLineInput → Result TransferError (List ResolvedLine)
unfolding resolve_line
resolve_lines db number [] = ok []
resolve_lines db number (line ∷ lines) = do
  first ← resolve_line db number line
  rest ← resolve_lines db (number + 1) lines
  ok (first ∷ rest)

unfoldable pub resolve_and_validate_lines :
    Db → List TransferLineInput → Result TransferError (List ResolvedLine)
unfolding check_line_inputs check_transfer_item conversion_by_key resolve_lines
resolve_and_validate_lines db lines = do
  throw_if (ltb (length lines) transfer_min_lines || ltb transfer_max_lines (length lines))
      (transfer_error validation 400)
  check_line_inputs [] lines
  for_each (check_transfer_item db) lines
  for_each (λ line. conversion_by_key db line >>= (λ _. ok tt)) lines
  resolve_lines db 1 lines

-- The inserted row: the columns that are not written are null, and the status has its default.
abbrev pub inserted_line : (ℕ → ℕ) → ℕ → ResolvedLine → TransferOrderLine
inserted_line new_id order_id r = record {
  id = new_id r.line_no;
  order_id = order_id;
  line_no = r.line_no;
  item_id = r.item_id;
  lot_id = r.lot_id;
  entered_uom = r.entered_uom;
  entered_quantity = r.entered_quantity;
  conversion_factor = r.conversion_factor;
  base_quantity = r.base_quantity;
  dispatched_quantity = none;
  received_quantity = none;
  status = draft;
  dispatch_posting_line_id = none;
  receipt_posting_line_id = none;
  remarks = r.remarks;
}
