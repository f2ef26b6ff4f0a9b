-- ===== src/Transfers/Examples/Runthrough.antt =====
-- The life of a transfer order on the tables of Transfers/Examples/Sample.antt, with the posting service of
-- src/modules/stock.
use ckitchen_backend.Prelude.{
  ℕ, ◌≡◌, refl, Bool, true, false, none, some, [], ◌∷◌, Text, codes, ok, text_eq, text_lt,
  if◌then◌else◌, lower, trim,
}
use ckitchen_backend.Prelude.Int.{pos, ◌+ℤ◌, ◌-ℤ◌, ◌*ℤ◌}
use ckitchen_backend.Auth.Roles.{Role, normalize_role, outlet_scope_for_role}
use ckitchen_backend.Stock.Decimal.{parse_fixed, format_fixed, divide_exact, show}
use ckitchen_backend.Stock.Types.{stock_out, Line, PostingResult, Document, Event, Db}
use ckitchen_backend.Stock.Canonical.{
  normalize_movement, same_line, add_group, sort_key_lt, Plan, canonical_movements,
}
use ckitchen_backend.Stock.Guards.{
  validate_input, authorize_actor, assert_feature_flags, assert_topology_ready,
  lock_operational_document,
}
use ckitchen_backend.Stock.Locks.{
  keys_of, check_warehouse, check_item, configured_factor, check_conversions, check_quantity,
  check_lot_exists, check_lot, ensure_balances, lock_balances, check_movements, lock_movement_keys,
}
use ckitchen_backend.Stock.Route.{is_out_eligible, route_rejects, validate_route}
use ckitchen_backend.Stock.Ledger.{plan_lines, write_balances, advance_document, complete_posting}
use ckitchen_backend.Stock.Posting.{
  Dependencies, Env, post_claimed, transaction_body, execute_posting,
}
use ckitchen_backend.CustomerOrders.Allocation.{candidates_of, insert_candidate, goes_before}
use ckitchen_backend.Transfers.Types.{
  submitted, approved, dispatched, TransferOrder, TransferOrderLine, TransferDb, VersionInput,
  transfer_order_submitted, transfer_order_approved, transfer_order_dispatched,
}
use ckitchen_backend.Transfers.Guards.{
  transfer_order_dispatch_module, transfer_order_receipt_module, transfer_order_dispatch_policy,
  transfer_order_receipt_policy, permitted_role, authorize_transfer_actor, assert_location_in_scope,
  assert_feature_enabled, active_warehouse, resolve_header_route, new_document,
  ensure_operational_document, lock_order, fetch_lines,
}
use ckitchen_backend.Transfers.Updates.{update_current, open_order, conclude}
use ckitchen_backend.Transfers.Lifecycle.{submit_transfer_order, approve_transfer_order}
use ckitchen_backend.Transfers.Posted.{PostingService, posting_line_id}
use ckitchen_backend.Transfers.Fefo.{select_fefo_lot, pin_lots}
use ckitchen_backend.Transfers.Dispatch.{
  DispatchPlan, prepare_dispatch, dispatch_posting, dispatch_lines, finish_dispatch,
}
use ckitchen_backend.Transfers.Examples.Sample.{
  json, maker, checker, audit, drafted, order_line, stock, held, created_db,
}

abbrev pub submit_input : VersionInput
submit_input = record { caller = maker; order_id = 21; expected_version = 1 }

abbrev pub submitted_order : TransferOrder
submitted_order = record drafted { status = submitted; version = 2; requested_by = some 5 }

abbrev pub submitted_db : TransferDb
submitted_db = record created_db {
  orders = submitted_order ∷ [];
  audits = audit 5 11 transfer_order_submitted ∷ created_db.audits;
}

pub order_submitted :
    submit_transfer_order created_db submit_input
    ≡ ok ((submitted_order, order_line ∷ []), submitted_db)
unfolding submit_transfer_order open_order lock_order update_current fetch_lines
    authorize_transfer_actor permitted_role normalize_role outlet_scope_for_role
    resolve_header_route active_warehouse assert_location_in_scope
order_submitted = refl

abbrev pub approve_input : VersionInput
approve_input = record { caller = checker; order_id = 21; expected_version = 2 }

abbrev pub approved_order : TransferOrder
approved_order = record submitted_order { status = approved; version = 3; approved_by = some 6 }

abbrev pub approved_db : TransferDb
approved_db = record submitted_db {
  orders = approved_order ∷ [];
  audits = audit 6 11 transfer_order_approved ∷ submitted_db.audits;
}

pub order_approved :
    approve_transfer_order submitted_db approve_input
    ≡ ok ((approved_order, order_line ∷ []), approved_db)
unfolding approve_transfer_order open_order lock_order update_current fetch_lines
    authorize_transfer_actor permitted_role normalize_role outlet_scope_for_role
    assert_location_in_scope
order_approved = refl

-- Lot codes in the order of their code units.
abbrev pub collates : Text → Text → Bool
collates = text_lt

abbrev pub dispatch_input : VersionInput
dispatch_input = record { caller = maker; order_id = 21; expected_version = 3 }

abbrev pub dispatch_plan : DispatchPlan
dispatch_plan = record {
  actor = record { id = 5; role = Role.warehouse_main; allowed_location_ids = none };
  order = approved_order;
  resolved = (order_line, 9) ∷ [];
  document = (transfer_order_dispatch_module, codes "TO-1");
}

abbrev pub dispatch_document : Document
dispatch_document = new_document transfer_order_dispatch_module (codes "TO-1") 11 (codes "APPROVED")

abbrev pub prepared_db : TransferDb
prepared_db = record approved_db { stock = record stock { documents = dispatch_document ∷ [] } }

pub dispatch_prepared :
    prepare_dispatch collates 20000 approved_db dispatch_input ≡ ok (dispatch_plan, prepared_db)
unfolding prepare_dispatch assert_feature_enabled authorize_transfer_actor permitted_role
    normalize_role outlet_scope_for_role lock_order assert_location_in_scope fetch_lines pin_lots
    select_fefo_lot candidates_of insert_candidate goes_before ◌-ℤ◌ ensure_operational_document
    text_eq text_lt
dispatch_prepared = refl

-- `createTransferOrderService` registers the two policies.
abbrev pub dependencies : Dependencies
dependencies = record {
  fault_injector = λ s. none;
  max_serialization_retries = none;
  document_policies = λ name.
      if text_eq name transfer_order_dispatch_module
      then some transfer_order_dispatch_policy
      else if text_eq name transfer_order_receipt_module
      then some transfer_order_receipt_policy
      else none;
}

abbrev pub process : ℕ → Env
process id = record { posting_disabled = false; today = 20000; posting_id = id }

abbrev pub request_hash : Plan → ℕ
request_hash p = p.location_id

abbrev pub posting_service : ℕ → PostingService
posting_service id = execute_posting request_hash (process id) dependencies

abbrev pub dispatch_line : Line
dispatch_line = record {
  line_no = 1;
  warehouse_id = 1;
  item_id = 3;
  lot_id = 9;
  movement_type = stock_out;
  quantity = pos 2000000;
  balance_before = pos 5000000;
  balance_after = pos 3000000;
}

abbrev pub dispatch_answer : PostingResult
dispatch_answer = record {
  posting_id = 77;
  replayed = false;
  idempotency_key = codes "TO-1:DISPATCH";
  request_hash = 11;
  source_module = transfer_order_dispatch_module;
  source_document_no = codes "TO-1";
  lines = dispatch_line ∷ [];
}

abbrev dispatch_event : Event
dispatch_event = record {
  posting_id = 77;
  location_id = 11;
  correlation_id = codes "TO-1:DISPATCH";
  line_count = 1;
  document_status = codes "DISPATCHED";
}

abbrev pub dispatched_stock : Db
dispatched_stock = record stock {
  documents =
      record dispatch_document {
        status = codes "DISPATCHED";
        version = 2;
        stock_posting_id = some 77;
      }
      ∷ [];
  postings =
      record {
        id = 77;
        idempotency_key = codes "TO-1:DISPATCH";
        request_hash = 11;
        hash_version = 1;
        source_module = transfer_order_dispatch_module;
        source_document_no = codes "TO-1";
        location_id = 11;
        actor_user_id = 5;
        completed = true;
        result = some dispatch_answer;
      }
      ∷ [];
  balances = record held { on_hand = pos 3000000; version = 4 } ∷ [];
  ledger = record { posting_id = 77; line = dispatch_line; metadata = 1 ∷ 1 ∷ [] } ∷ [];
  audits = dispatch_event ∷ [];
  outbox = dispatch_event ∷ [];
}

pub dispatch_posted :
    posting_service 77 prepared_db.stock (dispatch_posting json dispatch_plan dispatch_input)
    ≡ ok (dispatch_answer, dispatched_stock)
unfolding execute_posting transaction_body post_claimed canonical_movements normalize_movement
    add_group sort_key_lt same_line authorize_actor assert_feature_flags assert_topology_ready
    lock_operational_document normalize_role outlet_scope_for_role text_eq text_lt validate_input
    parse_fixed lock_movement_keys check_movements check_warehouse check_item check_conversions
    check_quantity check_lot_exists check_lot configured_factor divide_exact ensure_balances
    lock_balances validate_route route_rejects is_out_eligible keys_of lower trim ◌+ℤ◌ ◌-ℤ◌ ◌*ℤ◌
    plan_lines write_balances advance_document complete_posting dispatch_posting format_fixed show
dispatch_posted = refl

abbrev pub dispatched_row : TransferOrderLine
dispatched_row = record order_line {
  lot_id = 9;
  dispatched_quantity = some (pos 2000000);
  dispatch_posting_line_id = some (77, 1);
  status = dispatched;
}

abbrev pub dispatched_order : TransferOrder
dispatched_order = record approved_order {
  status = dispatched;
  version = 4;
  dispatch_document_id = some (transfer_order_dispatch_module, codes "TO-1");
  dispatched_by = some 5;
}

abbrev pub dispatched_tables : TransferDb
dispatched_tables = record {
  stock = dispatched_stock;
  orders = dispatched_order ∷ [];
  lines = dispatched_row ∷ [];
  audits = audit 5 11 transfer_order_dispatched ∷ approved_db.audits;
}

pub dispatch_finished :
    finish_dispatch json
      (record prepared_db { stock = dispatched_stock })
      dispatch_input
      dispatch_plan
      77
    ≡ ok ((dispatched_order, dispatched_row ∷ []), dispatched_tables)
unfolding finish_dispatch dispatch_lines posting_line_id conclude fetch_lines
dispatch_finished = refl
