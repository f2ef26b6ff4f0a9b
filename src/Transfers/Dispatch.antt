-- ===== src/Transfers/Dispatch.antt =====
-- src/modules/transfers/service.ts, `dispatchTransferOrder`: a transaction that prepares, the call of
-- the posting service, and a transaction that finishes.
use ckitchen_backend.Prelude.{
  ℕ, ◌+◌, Bool, true, false, ◌&&◌, not, none, some, List, [], ◌∷◌, ◌++◌, map, Text, codes,
  update_where, ◌==◌, Result, ok, err, ◌>>=◌, ◌>>◌, throw_if,
}
use ckitchen_backend.Prelude.Int.{ℤ}
use ckitchen_backend.Stock.Decimal.{format_fixed}
use ckitchen_backend.Stock.Types.{
  stock_out, PostingError, MovementInput, PostingInput, PostingResult, LedgerLine, Db,
}
use ckitchen_backend.Stock.Guards.{Actor}
use ckitchen_backend.Transfers.Types.{
  approved, dispatched, ◌is◌, TransferError, transfer_error, posting_failed, invalid_transition,
  concurrent_modification, TransferOrder, TransferOrderLine, transfer_order_dispatched, TransferDb,
  VersionInput, OrderWithLines,
}
use ckitchen_backend.Transfers.Guards.{
  transfer_roles, transfer_order_dispatch_module, authorize_transfer_actor,
  assert_location_in_scope, assert_feature_enabled, ensure_operational_document, lock_order,
  fetch_lines,
}
use ckitchen_backend.Transfers.Updates.{audit_of, conclude}
use ckitchen_backend.Transfers.Fefo.{pin_lots}
use ckitchen_backend.Transfers.Posted.{
  LineMetadata, PostingService, delete_untouched, compensated, settled, posting_line_id,
}

-- What the first transaction hands on.
pub record DispatchPlan : Type 0 where
  pub actor : Actor
  pub order : TransferOrder
  pub resolved : List (TransferOrderLine × ℕ)
  pub document : Text × Text

module _ (collates_before : Text → Text → Bool) where
  unfoldable pub prepare_dispatch :
      ℕ → TransferDb → VersionInput → Result TransferError (DispatchPlan × TransferDb)
  unfolding fetch_lines pin_lots
  prepare_dispatch today db input = do
    assert_feature_enabled db.stock
    actor ← authorize_transfer_actor db.stock input.caller transfer_roles
    order ← lock_order db input.order_id
    assert_location_in_scope actor.allowed_location_ids order.source_location_id
    throw_if (not (order.status is approved) && not (order.status is dispatched))
        (transfer_error invalid_transition 409)
    throw_if (order.status is approved && not (order.version == input.expected_version))
        (transfer_error concurrent_modification 409)
    resolved ←
        pin_lots collates_before db.stock today order.source_warehouse_id
          (fetch_lines db.lines order.id)
    let documents =
        ensure_operational_document transfer_order_dispatch_module order.document_no
          order.source_location_id (codes "APPROVED") db.stock.documents
    ok (
      record {
        actor = actor;
        order = order;
        resolved = resolved;
        document = (transfer_order_dispatch_module, order.document_no);
      },
      record db { stock = record db.stock { documents = documents } },
    )

abbrev pub is_undispatched : ℕ → TransferOrderLine → Bool
is_undispatched id l =
    l.id == id && elim l.dispatch_posting_line_id [ none ↦ true | some _ ↦ false ]

abbrev pub dispatched_line : ℕ → ℤ → ℕ × ℕ → TransferOrderLine → TransferOrderLine
dispatched_line lot quantity posting_line l = record l {
  lot_id = lot;
  dispatched_quantity = some quantity;
  dispatch_posting_line_id = some posting_line;
  status = dispatched;
}

abbrev pub dispatched_by_plan : DispatchPlan → TransferOrder → TransferOrder
dispatched_by_plan plan o = record o {
  status = dispatched;
  dispatch_document_id = some plan.document;
  dispatched_by = some plan.actor.id;
  version = plan.order.version + 1;
}

module _ (json : LineMetadata) where
  abbrev pub out_movement : TransferOrder → TransferOrderLine × ℕ → MovementInput
  out_movement order (line, lot) = record {
    warehouse_id = order.source_warehouse_id;
    item_id = line.item_id;
    lot_id = lot;
    movement_type = stock_out;
    quantity = format_fixed line.base_quantity 6;
    entered_quantity = some (format_fixed line.entered_quantity 6);
    entered_uom = line.entered_uom;
    conversion_factor = some (format_fixed line.conversion_factor 8);
    unit_cost = none;
    reason_code = none;
    source_policy = none;
    metadata = json.text_of line.id line.line_no;
  }

  unfoldable pub dispatch_posting : DispatchPlan → VersionInput → PostingInput
  dispatch_posting plan input = record {
    idempotency_key = plan.order.document_no ++ codes ":DISPATCH";
    source_module = transfer_order_dispatch_module;
    source_document_no = plan.order.document_no;
    location_id = plan.order.source_location_id;
    actor_user_id = plan.actor.id;
    session_id = input.caller.session_id;
    correlation_id = plan.order.document_no ++ codes ":DISPATCH";
    movements = map (out_movement plan.order) plan.resolved;
  }

  -- The loop over the lines of the plan.
  unfoldable pub dispatch_lines :
      List LedgerLine
      → ℕ
      → List (TransferOrderLine × ℕ)
      → List TransferOrderLine
      → Result TransferError (List TransferOrderLine)
  unfolding posting_line_id
  dispatch_lines ledger posting [] rows = ok rows
  dispatch_lines ledger posting ((line, lot) ∷ resolved) rows = do
    posting_line ← posting_line_id json ledger posting line.id
    dispatch_lines ledger posting resolved (
        update_where (is_undispatched line.id) (dispatched_line lot line.base_quantity posting_line)
          rows)

  -- The last transaction: a retry finds the order dispatched, and returns it as it is.
  unfoldable pub finish_dispatch :
      TransferDb
      → VersionInput
      → DispatchPlan
      → ℕ
      → Result TransferError (OrderWithLines × TransferDb)
  unfolding dispatch_lines fetch_lines conclude
  finish_dispatch db input plan posting = do
    rows ← dispatch_lines db.stock.ledger posting plan.resolved db.lines
    let id = plan.order.id
    conclude (record db { lines = rows }) id approved dispatched input.expected_version
        (dispatched_by_plan plan)
        (audit_of plan.actor input.caller plan.order.source_location_id transfer_order_dispatched
          id)
        (fetch_lines rows id)

module _ (json : LineMetadata) where
  -- What follows the call of the posting service.
  unfoldable pub answer_dispatch :
      TransferDb
      → VersionInput
      → DispatchPlan
      → Result PostingError (PostingResult × Db)
      → TransferDb × Result TransferError OrderWithLines
  unfolding delete_untouched finish_dispatch
  answer_dispatch db input plan (err e) =
      (compensated plan.document (codes "APPROVED") db, err (posting_failed e))
  answer_dispatch db input plan (ok (result, stock)) =
      settled (record db { stock = stock })
        (finish_dispatch json (record db { stock = stock }) input plan result.posting_id)

  -- What follows the first transaction.
  unfoldable pub post_dispatch :
      PostingService
      → TransferDb
      → VersionInput
      → Result TransferError (DispatchPlan × TransferDb)
      → TransferDb × Result TransferError OrderWithLines
  unfolding dispatch_posting answer_dispatch
  post_dispatch post db input (err e) = (db, err e)
  post_dispatch post db input (ok (plan, prepared)) =
      answer_dispatch prepared input plan (post prepared.stock (dispatch_posting json plan input))

-- The whole operation: what it leaves, and what it returns or throws.
module _ (json : LineMetadata) (collates_before : Text → Text → Bool) (post : PostingService) where
  unfoldable pub dispatch_transfer_order :
      ℕ → TransferDb → VersionInput → TransferDb × Result TransferError OrderWithLines
  unfolding prepare_dispatch post_dispatch
  dispatch_transfer_order today db input =
      post_dispatch json post db input (prepare_dispatch collates_before today db input)
