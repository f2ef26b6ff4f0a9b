-- ===== src/Transfers/Lifecycle.antt =====
-- src/modules/transfers/service.ts: create, update, submit, approve and cancel.
pub mod Runs
pub mod Created
pub mod Stale
use ckitchen_backend.Prelude.{
  ℕ, ◌+◌, Bool, false, ◌||◌, not, Option, none, some, List, ◌∷◌, ◌++◌, map, Text, trim, is_empty,
  select, length, ◌==◌, Result, ok, ◌>>=◌, ◌>>◌, throw_if,
}
use ckitchen_backend.Stock.Guards.{Actor}
use ckitchen_backend.Transfers.Types.{
  TransferStatus, draft, submitted, approved, cancelled, ◌is◌, TransferError, transfer_error,
  validation, segregation_of_duties, TransferOrder, TransferOrderLine, transfer_order_created,
  transfer_order_submitted, transfer_order_approved, transfer_order_cancelled, TransferDb,
  CreateInput, UpdateInput, VersionInput, CancelInput, TransferLineInput, OrderWithLines,
}
use ckitchen_backend.Transfers.Guards.{
  transfer_roles, transfer_approve_roles, authorize_transfer_actor, assert_location_in_scope,
  resolve_header_route, fetch_lines,
}
use ckitchen_backend.Transfers.Lines.{resolve_and_validate_lines, inserted_line}
use ckitchen_backend.Transfers.Updates.{audit_of, update_current, open_order, audited}

-- What the database draws for an inserted order: its id, its number, and the ids of its lines.
pub record Fresh : Type 0 where
  pub order_id : ℕ
  pub document_no : Text
  pub line_id : ℕ → ℕ

-- The inserted order, with the defaults of its columns.
abbrev pub inserted_order : Fresh → CreateInput → Actor → ℕ → ℕ → ℕ → ℕ → TransferOrder
inserted_order fresh input actor source destination source_location destination_location = record {
  id = fresh.order_id;
  document_no = fresh.document_no;
  status = draft;
  version = 1;
  source_warehouse_id = source;
  destination_warehouse_id = destination;
  source_location_id = source_location;
  destination_location_id = destination_location;
  dispatch_document_id = none;
  receipt_document_id = none;
  remarks = input.remarks;
  requested_by = none;
  approved_by = none;
  dispatched_by = none;
  received_by = none;
  cancelled_by = none;
  cancel_reason = none;
  created_by = some actor.id;
}

unfoldable pub create_transfer_order_draft :
    Fresh → TransferDb → CreateInput → Result TransferError (OrderWithLines × TransferDb)
create_transfer_order_draft fresh db input = do
  actor ← authorize_transfer_actor db.stock input.caller transfer_roles
  route ← resolve_header_route db.stock input.source_warehouse_id input.destination_warehouse_id
  assert_location_in_scope actor.allowed_location_ids (route.0).location_id
  resolved ← resolve_and_validate_lines db.stock input.lines
  let source = route.0
  let destination = route.1
  let order =
      inserted_order fresh input actor source.id destination.id source.location_id
        destination.location_id
  let lines = map (inserted_line fresh.line_id order.id) resolved
  ok (
    (order, lines),
    record db {
      orders = order ∷ db.orders;
      lines = db.lines ++ lines;
      audits =
          audit_of actor input.caller source.location_id transfer_order_created order.id
          ∷ db.audits;
    },
  )

-- The lines after an update, if it has any.
unfoldable pub replace_lines :
    (ℕ → ℕ)
    → TransferDb
    → ℕ
    → Option (List TransferLineInput)
    → Result TransferError (List TransferOrderLine)
replace_lines new_id db id none = ok db.lines
replace_lines new_id db id (some inputs) = do
  resolved ← resolve_and_validate_lines db.stock inputs
  ok (select (λ l. not (l.order_id == id)) db.lines ++ map (inserted_line new_id id) resolved)

-- `if ("remarks" in input) setClause.remarks = input.remarks ?? null`
abbrev pub remarks_after : Option (Option Text) → Option Text → Option Text
remarks_after none old = old
remarks_after (some given) old = given

abbrev pub edited : Option (Option Text) → TransferOrder → TransferOrder
edited remarks o = record o { version = o.version + 1; remarks = remarks_after remarks o.remarks }

unfoldable pub update_transfer_order_draft :
    (ℕ → ℕ) → TransferDb → UpdateInput → Result TransferError (OrderWithLines × TransferDb)
unfolding open_order replace_lines update_current fetch_lines
update_transfer_order_draft new_id db input = do
  opened ←
      open_order db input.caller input.order_id input.expected_version transfer_roles
        (λ s. s is draft)
  lines ← replace_lines new_id db input.order_id input.lines
  updated ←
      update_current input.order_id draft input.expected_version (edited input.remarks)
        (record db { lines = lines })
  ok ((updated.0, fetch_lines lines input.order_id), updated.1)

abbrev pub submitted_by : ℕ → TransferOrder → TransferOrder
submitted_by actor o = record o {
  status = submitted;
  requested_by = some actor;
  version = o.version + 1;
}

unfoldable pub submit_transfer_order :
    TransferDb → VersionInput → Result TransferError (OrderWithLines × TransferDb)
unfolding open_order update_current fetch_lines
submit_transfer_order db input = do
  opened ←
      open_order db input.caller input.order_id input.expected_version transfer_roles
        (λ s. s is draft)
  let actor = opened.0
  let order = opened.1
  let lines = fetch_lines db.lines order.id
  throw_if (length lines == 0) (transfer_error validation 400)
  route ← resolve_header_route db.stock order.source_warehouse_id order.destination_warehouse_id
  updated ← update_current input.order_id draft input.expected_version (submitted_by actor.id) db
  ok (
    (updated.0, lines),
    audited (audit_of actor input.caller order.source_location_id transfer_order_submitted order.id)
        updated.1,
  )

-- `actor.id === order.requestedBy`
abbrev pub is_by : ℕ → Option ℕ → Bool
is_by actor none = false
is_by actor (some user) = actor == user

abbrev pub approved_by_actor : ℕ → TransferOrder → TransferOrder
approved_by_actor actor o = record o {
  status = approved;
  approved_by = some actor;
  version = o.version + 1;
}

unfoldable pub approve_transfer_order :
    TransferDb → VersionInput → Result TransferError (OrderWithLines × TransferDb)
unfolding open_order update_current fetch_lines
approve_transfer_order db input = do
  opened ←
      open_order db input.caller input.order_id input.expected_version transfer_approve_roles
        (λ s. s is submitted)
  let actor = opened.0
  let order = opened.1
  throw_if (is_by actor.id order.requested_by) (transfer_error segregation_of_duties 409)
  updated ←
      update_current input.order_id submitted input.expected_version (approved_by_actor actor.id) db
  ok (
    (updated.0, fetch_lines db.lines order.id),
    audited (audit_of actor input.caller order.source_location_id transfer_order_approved order.id)
        updated.1,
  )

-- `["DRAFT", "SUBMITTED", "APPROVED"].includes(order.status)`
abbrev pub is_before_dispatch : TransferStatus → Bool
is_before_dispatch s = s is draft || s is submitted || s is approved

abbrev pub cancelled_by_actor : ℕ → Text → TransferOrder → TransferOrder
cancelled_by_actor actor reason o = record o {
  status = cancelled;
  cancelled_by = some actor;
  cancel_reason = some reason;
  version = o.version + 1;
}

unfoldable pub cancel_transfer_order :
    TransferDb → CancelInput → Result TransferError (OrderWithLines × TransferDb)
unfolding open_order update_current fetch_lines
cancel_transfer_order db input = do
  opened ←
      open_order db input.caller input.order_id input.expected_version transfer_roles
        is_before_dispatch
  let actor = opened.0
  let order = opened.1
  throw_if (is_empty (trim input.cancel_reason)) (transfer_error validation 400)
  updated ←
      update_current input.order_id order.status input.expected_version
        (cancelled_by_actor actor.id input.cancel_reason) db
  ok (
    (updated.0, fetch_lines db.lines order.id),
    audited (audit_of actor input.caller order.source_location_id transfer_order_cancelled order.id)
        updated.1,
  )
