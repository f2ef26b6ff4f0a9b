-- ===== src/Transfers/Receipt.antt =====
-- src/modules/transfers/service.ts: the first transaction of `receiveTransferOrder`, which resolves
-- what arrives of each line.
pub mod Bounds
use ckitchen_backend.Prelude.{
  ℕ, Bool, true, false, ◌&&◌, ◌||◌, not, Option, none, some, List, [], ◌∷◌, Text, codes, any, find?,
  includes, ◌==◌, Result, ok, ◌>>=◌, ◌>>◌, throw_if, for_each,
}
use ckitchen_backend.Prelude.Int.{ℤ, pos, leb_ℤ, ltb_ℤ}
use ckitchen_backend.Stock.Decimal.{parse_fixed}
use ckitchen_backend.Stock.Types.{Item}
use ckitchen_backend.Stock.Guards.{Actor}
use ckitchen_backend.Transfers.Types.{
  dispatched, received, ◌is◌, TransferError, transfer_error, validation, invalid_transition,
  duplicate_line, concurrent_modification, TransferOrder, TransferOrderLine, TransferDb,
  ReceiptLineInput, ReceiveInput,
}
use ckitchen_backend.Transfers.Guards.{
  transfer_roles, transfer_order_receipt_module, authorize_transfer_actor, assert_location_in_scope,
  assert_feature_enabled, ensure_operational_document, lock_order, fetch_lines,
}
use ckitchen_backend.Transfers.Lines.{caught}

-- The loop that fills `overridesByLineId`; `seen` holds its keys so far.
unfoldable pub check_overrides : List ℕ → List ReceiptLineInput → Result TransferError (Unit {0})
check_overrides seen [] = ok tt
check_overrides seen (r ∷ rs) = do
  throw_if (includes seen r.line_id) (transfer_error duplicate_line 400)
  check_overrides (r.line_id ∷ seen) rs

unfoldable pub check_known :
    List TransferOrderLine → ReceiptLineInput → Result TransferError (Unit {0})
check_known lines r =
    throw_if (not (any (λ l. l.id == r.line_id) lines)) (transfer_error validation 400)

abbrev pub is_missing : {A : Type 0} → Option A → Bool
is_missing none = true
is_missing (some a) = false

abbrev pub lacks_dispatch : TransferOrderLine → Bool
lacks_dispatch l =
    is_missing l.dispatch_posting_line_id || l.lot_id == 0 || is_missing l.dispatched_quantity

-- A line of the receipt: the quantity that arrives, and the unit of the item.
pub record ReceiptLine : Type 0 where
  pub line : TransferOrderLine
  pub received_quantity : ℤ
  pub unit : Text

-- `overridesByLineId.get(line.id)?.receivedQuantity`
abbrev pub override_of : List ReceiptLineInput → ℕ → Option Text
override_of inputs id = elim (find? (λ (r : ReceiptLineInput). r.line_id == id) inputs) [
  | none ↦ none
  | some r ↦ r.received_quantity
]

abbrev pub unit_of : List Item → TransferOrderLine → Text
unit_of items line = elim (find? (λ i. i.id == line.item_id) items) [
  | none ↦ line.entered_uom
  | some i ↦ i.unit
]

abbrev pub dispatched_base : TransferOrderLine → ℤ
dispatched_base line = elim line.dispatched_quantity [ none ↦ pos 0 | some q ↦ q ]

unfoldable pub received_base : ℤ → Option Text → Result TransferError ℤ
unfolding caught
received_base dispatched_quantity none = ok dispatched_quantity
received_base dispatched_quantity (some t) =
    caught (transfer_error validation 400) (parse_fixed t 6)

unfoldable pub resolve_receipt_line :
    List Item → List ReceiptLineInput → TransferOrderLine → Result TransferError ReceiptLine
unfolding received_base
resolve_receipt_line items inputs line = do
  q ← received_base (dispatched_base line) (override_of inputs line.id)
  throw_if (leb_ℤ q (pos 0)) (transfer_error validation 400)
  throw_if (ltb_ℤ (dispatched_base line) q) (transfer_error validation 400)
  ok (record { line = line; received_quantity = q; unit = unit_of items line })

unfoldable pub resolve_receipt_lines :
    List Item
    → List ReceiptLineInput
    → List TransferOrderLine
    → Result TransferError (List ReceiptLine)
unfolding resolve_receipt_line
resolve_receipt_lines items inputs [] = ok []
resolve_receipt_lines items inputs (line ∷ lines) = do
  first ← resolve_receipt_line items inputs line
  rest ← resolve_receipt_lines items inputs lines
  ok (first ∷ rest)

pub record ReceiptPlan : Type 0 where
  pub actor : Actor
  pub order : TransferOrder
  pub resolved : List ReceiptLine
  pub document : Text × Text

unfoldable pub prepare_receipt :
    TransferDb → ReceiveInput → Result TransferError (ReceiptPlan × TransferDb)
unfolding fetch_lines check_overrides resolve_receipt_lines
prepare_receipt db input = do
  assert_feature_enabled db.stock
  actor ← authorize_transfer_actor db.stock input.caller transfer_roles
  order ← lock_order db input.order_id
  assert_location_in_scope actor.allowed_location_ids order.destination_location_id
  throw_if (not (order.status is dispatched) && not (order.status is received))
      (transfer_error invalid_transition 409)
  throw_if (order.status is dispatched && not (order.version == input.expected_version))
      (transfer_error concurrent_modification 409)
  let lines = fetch_lines db.lines order.id
  check_overrides [] input.receipt_lines
  for_each (check_known lines) input.receipt_lines
  throw_if (any lacks_dispatch lines) (transfer_error invalid_transition 409)
  resolved ← resolve_receipt_lines db.stock.items input.receipt_lines lines
  let documents =
      ensure_operational_document transfer_order_receipt_module order.document_no
        order.destination_location_id (codes "DISPATCHED") db.stock.documents
  ok (
    record {
      actor = actor;
      order = order;
      resolved = resolved;
      document = (transfer_order_receipt_module, order.document_no);
    },
    record db { stock = record db.stock { documents = documents } },
  )
