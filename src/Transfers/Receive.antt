-- ===== src/Transfers/Receive.antt =====
-- src/modules/transfers/service.ts, `receiveTransferOrder`: a transaction that prepares, the call of
-- the posting service, and a transaction that finishes.
use ckitchen_backend.Prelude.{
  ℕ, ◌+◌, ◌^◌, Bool, ◌&&◌, none, some, List, [], ◌∷◌, ◌++◌, map, codes, update_where, ◌==◌, Result,
  ok, err, ◌>>=◌,
}
use ckitchen_backend.Prelude.Int.{ℤ, pos}
use ckitchen_backend.Stock.Decimal.{format_fixed}
use ckitchen_backend.Stock.Types.{
  PostingError, PostingResult, Db, stock_in, MovementInput, PostingInput, LedgerLine,
}
use ckitchen_backend.Transfers.Types.{
  dispatched, received, TransferError, posting_failed, TransferOrder, TransferOrderLine,
  transfer_order_received, TransferDb, ReceiveInput, OrderWithLines,
}
use ckitchen_backend.Transfers.Guards.{transfer_order_receipt_module, fetch_lines}
use ckitchen_backend.Transfers.Posted.{
  LineMetadata, PostingService, delete_untouched, compensated, settled, posting_line_id,
}
use ckitchen_backend.Transfers.Updates.{audit_of, conclude}
use ckitchen_backend.Transfers.Receipt.{is_missing, ReceiptLine, ReceiptPlan, prepare_receipt}

abbrev pub is_unreceived : ℕ → TransferOrderLine → Bool
is_unreceived id l = l.id == id && is_missing l.receipt_posting_line_id

abbrev pub received_line : ℤ → ℕ × ℕ → TransferOrderLine → TransferOrderLine
received_line quantity posting_line l = record l {
  received_quantity = some quantity;
  receipt_posting_line_id = some posting_line;
  status = received;
}

abbrev pub received_by_plan : ReceiptPlan → TransferOrder → TransferOrder
received_by_plan plan o = record o {
  status = received;
  receipt_document_id = some plan.document;
  received_by = some plan.actor.id;
  version = plan.order.version + 1;
}

module _ (json : LineMetadata) where
  abbrev pub in_movement : TransferOrder → ReceiptLine → MovementInput
  in_movement order r = record {
    warehouse_id = order.destination_warehouse_id;
    item_id = r.line.item_id;
    lot_id = r.line.lot_id;
    movement_type = stock_in;
    quantity = format_fixed r.received_quantity 6;
    entered_quantity = some (format_fixed r.received_quantity 6);
    entered_uom = r.unit;
    conversion_factor = some (format_fixed (pos (10 ^ 8)) 8);
    unit_cost = none;
    reason_code = none;
    source_policy = none;
    metadata = json.text_of r.line.id r.line.line_no;
  }

  unfoldable pub receipt_posting : ReceiptPlan → ReceiveInput → PostingInput
  receipt_posting plan input = record {
    idempotency_key = plan.order.document_no ++ codes ":RECEIVE";
    source_module = transfer_order_receipt_module;
    source_document_no = plan.order.document_no;
    location_id = plan.order.destination_location_id;
    actor_user_id = plan.actor.id;
    session_id = input.caller.session_id;
    correlation_id = plan.order.document_no ++ codes ":RECEIVE";
    movements = map (in_movement plan.order) plan.resolved;
  }

  -- The loop over the lines of the plan.
  unfoldable pub receive_lines :
      List LedgerLine
      → ℕ
      → List ReceiptLine
      → List TransferOrderLine
      → Result TransferError (List TransferOrderLine)
  unfolding posting_line_id
  receive_lines ledger posting [] rows = ok rows
  receive_lines ledger posting (r ∷ resolved) rows = do
    posting_line ← posting_line_id json ledger posting r.line.id
    receive_lines ledger posting resolved (
        update_where (is_unreceived r.line.id) (received_line r.received_quantity posting_line)
          rows)

  -- The last transaction: a retry finds the order received, and returns it as it is.
  unfoldable pub finish_receipt :
      TransferDb
      → ReceiveInput
      → ReceiptPlan
      → ℕ
      → Result TransferError (OrderWithLines × TransferDb)
  unfolding receive_lines fetch_lines conclude
  finish_receipt db input plan posting = do
    rows ← receive_lines db.stock.ledger posting plan.resolved db.lines
    let id = plan.order.id
    conclude (record db { lines = rows }) id dispatched received input.expected_version
        (received_by_plan plan)
        (audit_of plan.actor input.caller plan.order.destination_location_id transfer_order_received
          id)
        (fetch_lines rows id)

module _ (json : LineMetadata) where
  -- What follows the call of the posting service.
  unfoldable pub answer_receipt :
      TransferDb
      → ReceiveInput
      → ReceiptPlan
      → Result PostingError (PostingResult × Db)
      → TransferDb × Result TransferError OrderWithLines
  unfolding delete_untouched finish_receipt
  answer_receipt db input plan (err e) =
      (compensated plan.document (codes "DISPATCHED") db, err (posting_failed e))
  answer_receipt db input plan (ok (result, stock)) =
      settled (record db { stock = stock })
        (finish_receipt json (record db { stock = stock }) input plan result.posting_id)

  -- What follows the first transaction.
  unfoldable pub post_receipt :
      PostingService
      → TransferDb
      → ReceiveInput
      → Result TransferError (ReceiptPlan × TransferDb)
      → TransferDb × Result TransferError OrderWithLines
  unfolding receipt_posting answer_receipt
  post_receipt post db input (err e) = (db, err e)
  post_receipt post db input (ok (plan, prepared)) =
      answer_receipt prepared input plan (post prepared.stock (receipt_posting json plan input))

-- The whole operation: what it leaves, and what it returns or throws.
module _ (json : LineMetadata) (post : PostingService) where
  unfoldable pub receive_transfer_order :
      TransferDb → ReceiveInput → TransferDb × Result TransferError OrderWithLines
  unfolding prepare_receipt post_receipt
  receive_transfer_order db input = post_receipt json post db input (prepare_receipt db input)
