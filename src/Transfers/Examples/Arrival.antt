-- ===== src/Transfers/Examples/Arrival.antt =====
-- The receipt of the order of Transfers/Examples/Runthrough.antt: 1.5 kg of 2 kg arrive.
use ckitchen_backend.Prelude.{
  ◌≡◌, refl, true, false, none, some, [], ◌∷◌, codes, ok, text_eq, text_lt, lower, trim,
}
use ckitchen_backend.Prelude.Int.{pos, ◌+ℤ◌, ◌-ℤ◌, ◌*ℤ◌}
use ckitchen_backend.Auth.Roles.{Role, normalize_role, outlet_scope_for_role}
use ckitchen_backend.Stock.Decimal.{parse_fixed, format_fixed, divide_exact, show}
use ckitchen_backend.Stock.Types.{
  stock_in, Line, PostingResult, Balance, Document, Posting, Event, Db,
}
use ckitchen_backend.Stock.Canonical.{
  normalize_movement, same_line, add_group, sort_key_lt, canonical_movements,
}
use ckitchen_backend.Stock.Guards.{
  validate_input, authorize_actor, assert_feature_flags, assert_topology_ready,
  lock_operational_document,
}
use ckitchen_backend.Stock.Locks.{
  keys_of, check_warehouse, check_item, configured_factor, check_conversions, check_quantity,
  check_lot_exists, check_lot, ensure_balances, lock_balances, check_movements, lock_movement_keys,
}
use ckitchen_backend.Stock.Route.{is_out_eligible, route_rejects, validate_route}
use ckitchen_backend.Stock.Ledger.{plan_lines, write_balances, advance_document, complete_posting}
use ckitchen_backend.Stock.Posting.{post_claimed, transaction_body, execute_posting}
use ckitchen_backend.Transfers.Types.{TransferDb, ReceiveInput}
use ckitchen_backend.Transfers.Guards.{
  transfer_order_receipt_module, permitted_role, authorize_transfer_actor, assert_location_in_scope,
  assert_feature_enabled, new_document, ensure_operational_document, lock_order, fetch_lines,
}
use ckitchen_backend.Transfers.Lines.{caught}
use ckitchen_backend.Transfers.Receipt.{
  check_overrides, check_known, received_base, resolve_receipt_line, resolve_receipt_lines,
  ReceiptPlan, prepare_receipt,
}
use ckitchen_backend.Transfers.Receive.{receipt_posting}
use ckitchen_backend.Transfers.Examples.Sample.{json, checker}
use ckitchen_backend.Transfers.Examples.Runthrough.{
  dispatched_tables, dispatched_order, dispatched_row, dispatched_stock, posting_service,
}

abbrev pub receive_input : ReceiveInput
receive_input = record {
  caller = checker;
  order_id = 21;
  expected_version = 4;
  receipt_lines = record { line_id = 1; received_quantity = some (codes "1.5") } ∷ [];
}

abbrev pub receipt_plan : ReceiptPlan
receipt_plan = record {
  actor = record { id = 6; role = Role.owner; allowed_location_ids = none };
  order = dispatched_order;
  resolved =
      record { line = dispatched_row; received_quantity = pos 1500000; unit = codes "kg" } ∷ [];
  document = (transfer_order_receipt_module, codes "TO-1");
}

abbrev pub receipt_document : Document
receipt_document = new_document transfer_order_receipt_module (codes "TO-1") 12 (codes "DISPATCHED")

abbrev pub receiving_db : TransferDb
receiving_db = record dispatched_tables {
  stock = record dispatched_stock { documents = receipt_document ∷ dispatched_stock.documents };
}

pub receipt_prepared :
    prepare_receipt dispatched_tables receive_input ≡ ok (receipt_plan, receiving_db)
unfolding prepare_receipt assert_feature_enabled authorize_transfer_actor permitted_role
    normalize_role outlet_scope_for_role lock_order assert_location_in_scope fetch_lines
    check_overrides check_known resolve_receipt_lines resolve_receipt_line received_base caught
    parse_fixed ensure_operational_document text_eq
receipt_prepared = refl

abbrev receipt_line : Line
receipt_line = record {
  line_no = 1;
  warehouse_id = 2;
  item_id = 3;
  lot_id = 9;
  movement_type = stock_in;
  quantity = pos 1500000;
  balance_before = pos 0;
  balance_after = pos 1500000;
}

abbrev pub receipt_answer : PostingResult
receipt_answer = record {
  posting_id = 78;
  replayed = false;
  idempotency_key = codes "TO-1:RECEIVE";
  request_hash = 12;
  source_module = transfer_order_receipt_module;
  source_document_no = codes "TO-1";
  lines = receipt_line ∷ [];
}

abbrev receipt_event : Event
receipt_event = record {
  posting_id = 78;
  location_id = 12;
  correlation_id = codes "TO-1:RECEIVE";
  line_count = 1;
  document_status = codes "RECEIVED";
}

abbrev arrived : Balance
arrived = record {
  warehouse_id = 2;
  lot_id = 9;
  on_hand = pos 1500000;
  reserved = pos 0;
  version = 2;
}

abbrev receipt_row : Posting
receipt_row = record {
  id = 78;
  idempotency_key = codes "TO-1:RECEIVE";
  request_hash = 12;
  hash_version = 1;
  source_module = transfer_order_receipt_module;
  source_document_no = codes "TO-1";
  location_id = 12;
  actor_user_id = 6;
  completed = true;
  result = some receipt_answer;
}

abbrev pub received_stock : Db
received_stock = record dispatched_stock {
  documents =
      record receipt_document { status = codes "RECEIVED"; version = 2; stock_posting_id = some 78 }
      ∷ dispatched_stock.documents;
  postings = receipt_row ∷ dispatched_stock.postings;
  balances = arrived ∷ dispatched_stock.balances;
  ledger =
      record { posting_id = 78; line = receipt_line; metadata = 1 ∷ 1 ∷ [] }
      ∷ dispatched_stock.ledger;
  audits = receipt_event ∷ dispatched_stock.audits;
  outbox = receipt_event ∷ dispatched_stock.outbox;
}

pub receipt_posted :
    posting_service 78 receiving_db.stock (receipt_posting json receipt_plan receive_input)
    ≡ ok (receipt_answer, received_stock)
unfolding execute_posting transaction_body post_claimed canonical_movements normalize_movement
    add_group sort_key_lt same_line authorize_actor assert_feature_flags assert_topology_ready
    lock_operational_document normalize_role outlet_scope_for_role text_eq text_lt validate_input
    parse_fixed lock_movement_keys check_movements check_warehouse check_item check_conversions
    check_quantity check_lot_exists check_lot configured_factor divide_exact ensure_balances
    lock_balances validate_route route_rejects is_out_eligible keys_of lower trim ◌+ℤ◌ ◌-ℤ◌ ◌*ℤ◌
    plan_lines write_balances advance_document complete_posting receipt_posting format_fixed show
receipt_posted = refl
