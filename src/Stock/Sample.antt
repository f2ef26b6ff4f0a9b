-- ===== src/Stock/Sample.antt =====
-- Runs of src/modules/stock on concrete tables: a delivery of 2 kg to the headquarters' warehouse,
-- which already holds 5 kg of the lot with 1 kg of it reserved.
use ckitchen_backend.Prelude.{
  ℕ, Bool-cases, inl, inr, zero, suc, ◌^◌, text_eq, text_lt, lower, trim, true, false, none, some,
  List, [], ◌∷◌, ◌≡◌, refl, Text, codes, ok, All, arith,
}
use ckitchen_backend.Prelude.Int.{pos, neg, ◌+ℤ◌, ◌-ℤ◌, ◌*ℤ◌}
use ckitchen_backend.Auth.Roles.{Role, RoleName, normalize_role, outlet_scope_for_role}
use ckitchen_backend.Stock.Decimal.{parse_fixed, divide_exact}
use ckitchen_backend.Stock.Types.{
  stock_in, receive, hq_main, available, MovementInput, PostingInput, Movement, DocumentPolicy,
  PostingResult, Db, Balance, Document, Event,
}
use ckitchen_backend.Stock.Canonical.{
  Plan, canonical_movements, normalize_movement, add_group, sort_key_lt, same_line,
}
use ckitchen_backend.Stock.Posting.{
  Dependencies, Env, ledger_rows, transaction_body, post_claimed, execute_posting,
}
use ckitchen_backend.Stock.Guards.{
  authorize_actor, assert_feature_flags, assert_topology_ready, lock_operational_document,
  validate_input,
}
use ckitchen_backend.Stock.Route.{validate_route, route_rejects, is_out_eligible}
use ckitchen_backend.Stock.Locks.{
  lock_movement_keys, check_movements, check_warehouse, check_item, check_conversions,
  check_quantity, check_lot_exists, check_lot, configured_factor, ensure_balances, lock_balances,
  keys_of,
}
use ckitchen_backend.Stock.Ledger.{plan_lines, write_balances, advance_document, complete_posting}
use ckitchen_backend.Stock.Retry.{Attempt}
use ckitchen_backend.Stock.Posting.Documents.Rows.{AreUnique}
use ckitchen_backend.Stock.Guards.{is_document}
use ckitchen_backend.Stock.Locks.Rows.{IsSound}

abbrev pub padded_text : Text
padded_text = codes " -12.5 "

pub padded_text_eq : parse_fixed padded_text 6 ≡ ok (neg (pos 12500000))
unfolding parse_fixed
padded_text_eq = refl

abbrev pub delivered : MovementInput
delivered = record {
  warehouse_id = 7;
  item_id = 3;
  lot_id = 9;
  movement_type = stock_in;
  quantity = codes "2";
  entered_quantity = none;
  entered_uom = codes "KG";
  conversion_factor = none;
  unit_cost = some (codes "12.50");
  reason_code = none;
  source_policy = none;
  metadata = codes "{}";
}

abbrev pub request : PostingInput
request = record {
  idempotency_key = codes "receive-1";
  source_module = codes "purchasing";
  source_document_no = codes "PO-1";
  location_id = 1;
  actor_user_id = 5;
  session_id = 0;
  correlation_id = codes "c-1";
  movements = delivered ∷ [];
}

abbrev pub receive_policy : DocumentPolicy
receive_policy = record {
  feature_flag = none;
  route_class = receive;
  allowed_roles = Role.warehouse_main ∷ [];
  from_statuses = codes "APPROVED" ∷ [];
  next_status = codes "RECEIVED";
}

abbrev pub dependencies : Dependencies
dependencies = record {
  fault_injector = λ s. none;
  max_serialization_retries = none;
  document_policies = λ t. some receive_policy;
}

abbrev pub process : Env
process = record { posting_disabled = false; today = 20000; posting_id = 77 }

abbrev pub later : Env
later = record { posting_disabled = false; today = 20001; posting_id = 78 }

abbrev pub request_hash : Plan → ℕ
request_hash p = p.location_id

abbrev pub held : Balance
held = record {
  warehouse_id = 7;
  lot_id = 9;
  on_hand = pos 5000000;
  reserved = pos 1000000;
  version = 3;
}

abbrev pub order : Document
order = record {
  module_name = codes "purchasing";
  document_no = codes "PO-1";
  location_id = 1;
  status = codes "APPROVED";
  version = 2;
  stock_posting_id = none;
}

abbrev pub tables : Db
tables = record {
  users = record { id = 5; role = RoleName.warehouse_main; active = true } ∷ [];
  sessions = [];
  access = [];
  flags = record { key = codes "stock.lot_writes"; enabled = true } ∷ [];
  warehouses = record { id = 7; location_id = 1; purpose = some hq_main; is_active = true } ∷ [];
  open_exceptions = 0;
  items = record { id = 3; unit = codes "kg"; is_active = true; is_service = false } ∷ [];
  conversions = [];
  lots =
      record { id = 9; item_id = 3; lot_code = codes "L-9"; status = available; expires_at = none }
      ∷ [];
  documents = order ∷ [];
  postings = [];
  balances = held ∷ [];
  ledger = [];
  audits = [];
  outbox = [];
}

abbrev pub planned : List Movement
planned =
    record {
      warehouse_id = 7;
      item_id = 3;
      lot_id = 9;
      movement_type = stock_in;
      quantity = pos 2000000;
      entered_quantity = pos 2000000;
      entered_uom = codes "KG";
      conversion_factor = pos (10 ^ 8);
      unit_cost = pos 12500000;
      reason_code = none;
      source_policy = none;
      metadata = codes "{}";
    }
    ∷ []

pub request_planned : canonical_movements request ≡ ok planned
unfolding canonical_movements normalize_movement parse_fixed add_group
request_planned = refl

abbrev pub answer : PostingResult
answer = record {
  posting_id = 77;
  replayed = false;
  idempotency_key = codes "receive-1";
  request_hash = 1;
  source_module = codes "purchasing";
  source_document_no = codes "PO-1";
  lines =
      record {
        line_no = 1;
        warehouse_id = 7;
        item_id = 3;
        lot_id = 9;
        movement_type = stock_in;
        quantity = pos 2000000;
        balance_before = pos 5000000;
        balance_after = pos 7000000;
      }
      ∷ [];
}

abbrev pub event : Event
event = record {
  posting_id = 77;
  location_id = 1;
  correlation_id = codes "c-1";
  line_count = 1;
  document_status = codes "RECEIVED";
}

abbrev pub tables' : Db
tables' = record tables {
  documents =
      record order { status = codes "RECEIVED"; version = 3; stock_posting_id = some 77 } ∷ [];
  postings =
      record {
        id = 77;
        idempotency_key = codes "receive-1";
        request_hash = 1;
        hash_version = 1;
        source_module = codes "purchasing";
        source_document_no = codes "PO-1";
        location_id = 1;
        actor_user_id = 5;
        completed = true;
        result = some answer;
      }
      ∷ [];
  balances = record held { on_hand = pos 7000000; version = 4 } ∷ [];
  ledger = ledger_rows 77 planned answer.lines;
  audits = event ∷ [];
  outbox = event ∷ [];
}

pub request_answered :
    execute_posting request_hash process dependencies tables request ≡ ok (answer, tables')
unfolding execute_posting transaction_body post_claimed canonical_movements normalize_movement
    add_group sort_key_lt same_line authorize_actor assert_feature_flags assert_topology_ready
    lock_operational_document normalize_role outlet_scope_for_role text_eq text_lt validate_input
    parse_fixed lock_movement_keys check_movements check_warehouse check_item check_conversions
    check_quantity check_lot_exists check_lot configured_factor divide_exact ensure_balances
    lock_balances validate_route route_rejects is_out_eligible keys_of lower trim ◌+ℤ◌ ◌-ℤ◌ ◌*ℤ◌
    plan_lines write_balances advance_document complete_posting
request_answered = refl

pub tables-IsSound : All IsSound tables.balances
tables-IsSound = ((omega arith, omega arith), tt)

-- The first attempt is aborted by a serialization failure.
abbrev pub attempts : ℕ → Attempt
attempts zero = record {
  env = process;
  dependencies = dependencies;
  db = tables;
  aborted = some (some (codes "40001") ∷ []);
}
attempts (suc n) = record {
  env = process;
  dependencies = dependencies;
  db = tables;
  aborted = none;
}

-- One row cannot be more than one.
pub one_row-AreUnique : (d : Document) → AreUnique (d ∷ [])
one_row-AreUnique d m n = elim (Bool-cases (is_document m n d)) [
  | inl e ↦ rw e (omega arith)
  | inr e ↦ rw e (omega arith)
]

-- The same delivery under another key.
abbrev pub request_again : PostingInput
request_again = record request { idempotency_key = codes "receive-2" }
