-- ===== src/Transfers/Examples/Sample.antt =====
-- Runs of src/modules/transfers on concrete tables: 2 kg of an item go from the headquarters'
-- warehouse to an outlet's, pinned to no lot.
use ckitchen_backend.Prelude.{
  ℕ, ◌^◌, ◌≡◌, refl, true, false, Option, none, some, [], ◌∷◌, Text, codes, ok, text_eq, lower,
  trim,
}
use ckitchen_backend.Prelude.Int.{pos, ◌*ℤ◌}
use ckitchen_backend.Auth.Roles.{RoleName, normalize_role, outlet_scope_for_role}
use ckitchen_backend.Stock.Decimal.{parse_fixed, format_fixed, multiply_fixed, divide_exact, show}
use ckitchen_backend.Stock.Types.{hq_main, outlet_storage, available, Db, Balance, Lot}
use ckitchen_backend.Transfers.Types.{
  draft, TransferOrder, TransferOrderLine, TransferAction, transfer_order_created, TransferAudit,
  TransferDb, Caller, TransferLineInput, CreateInput,
}
use ckitchen_backend.Transfers.Guards.{
  permitted_role, authorize_transfer_actor, assert_location_in_scope, active_warehouse,
  resolve_header_route,
}
use ckitchen_backend.Transfers.Lines.{
  ResolvedLine, caught, check_line_inputs, check_transfer_item, conversion_by_key, check_pinned_lot,
  resolve_line, resolve_lines, resolve_and_validate_lines, inserted_line,
}
use ckitchen_backend.Transfers.Lifecycle.{Fresh, create_transfer_order_draft}
use ckitchen_backend.Transfers.Posted.{LineMetadata}

abbrev pub json : LineMetadata
json = record { text_of = λ id no. id ∷ no ∷ []; order_line_id = line_id }
  where
    line_id : Text → Option ℕ
    line_id [] = none
    line_id (c ∷ t) = some c

abbrev pub lot_9 : Lot
lot_9 = record {
  id = 9;
  item_id = 3;
  lot_code = codes "L-9";
  status = available;
  expires_at = some 20500;
}

abbrev pub held : Balance
held = record { warehouse_id = 1; lot_id = 9; on_hand = pos 5000000; reserved = pos 0; version = 3 }

abbrev pub stock : Db
stock = record {
  users =
      record { id = 5; role = RoleName.warehouse_main; active = true }
      ∷ record { id = 6; role = RoleName.owner; active = true }
      ∷ [];
  sessions = [];
  access = [];
  flags =
      record { key = codes "stock.lot_writes"; enabled = true }
      ∷ record { key = codes "stock.transfers"; enabled = true }
      ∷ [];
  warehouses =
      record { id = 1; location_id = 11; purpose = some hq_main; is_active = true }
      ∷ record { id = 2; location_id = 12; purpose = some outlet_storage; is_active = true }
      ∷ [];
  open_exceptions = 0;
  items = record { id = 3; unit = codes "kg"; is_active = true; is_service = false } ∷ [];
  conversions = [];
  lots = lot_9 ∷ [];
  documents = [];
  postings = [];
  balances = held ∷ [];
  ledger = [];
  audits = [];
  outbox = [];
}

abbrev pub start : TransferDb
start = record { stock = stock; orders = []; lines = []; audits = [] }

abbrev pub maker : Caller
maker = record { actor_user_id = 5; session_id = 0 }

abbrev pub checker : Caller
checker = record { actor_user_id = 6; session_id = 0 }

abbrev pub two_kg : TransferLineInput
two_kg = record {
  item_id = 3;
  lot_id = 0;
  entered_quantity = codes "2";
  entered_uom = codes "KG";
  remarks = none;
}

abbrev pub create_input : CreateInput
create_input = record {
  caller = maker;
  source_warehouse_id = 1;
  destination_warehouse_id = 2;
  remarks = none;
  lines = two_kg ∷ [];
}

abbrev pub fresh : Fresh
fresh = record { order_id = 21; document_no = codes "TO-1"; line_id = λ n. n }

abbrev pub resolved_line : ResolvedLine
resolved_line = record {
  line_no = 1;
  item_id = 3;
  lot_id = 0;
  entered_uom = codes "KG";
  entered_quantity = pos 2000000;
  conversion_factor = pos (10 ^ 8);
  base_quantity = pos 2000000;
  remarks = none;
}

abbrev pub order_line : TransferOrderLine
order_line = inserted_line (λ n. n) 21 resolved_line

abbrev pub drafted : TransferOrder
drafted = record {
  id = 21;
  document_no = codes "TO-1";
  status = draft;
  version = 1;
  source_warehouse_id = 1;
  destination_warehouse_id = 2;
  source_location_id = 11;
  destination_location_id = 12;
  dispatch_document_id = none;
  receipt_document_id = none;
  remarks = none;
  requested_by = none;
  approved_by = none;
  dispatched_by = none;
  received_by = none;
  cancelled_by = none;
  cancel_reason = none;
  created_by = some 5;
}

abbrev pub audit : ℕ → ℕ → TransferAction → TransferAudit
audit actor location action = record {
  actor_user_id = actor;
  session_id = 0;
  location_id = location;
  action = action;
  entity_id = 21;
}

abbrev pub created_db : TransferDb
created_db = record {
  stock = stock;
  orders = drafted ∷ [];
  lines = order_line ∷ [];
  audits = audit 5 11 transfer_order_created ∷ [];
}

pub lines_resolved : resolve_and_validate_lines stock (two_kg ∷ []) ≡ ok (resolved_line ∷ [])
unfolding resolve_and_validate_lines check_line_inputs caught parse_fixed trim check_transfer_item
    conversion_by_key resolve_lines resolve_line check_pinned_lot multiply_fixed format_fixed show
    divide_exact ◌*ℤ◌ lower text_eq
lines_resolved = refl

pub order_created :
    create_transfer_order_draft fresh start create_input
    ≡ ok ((drafted, order_line ∷ []), created_db)
unfolding create_transfer_order_draft authorize_transfer_actor permitted_role normalize_role
    outlet_scope_for_role resolve_header_route active_warehouse assert_location_in_scope
order_created = rw lines_resolved refl
