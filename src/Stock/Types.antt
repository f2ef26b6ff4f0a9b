-- ===== src/Stock/Types.antt =====
-- src/modules/stock/types.ts, errors.ts and the rows of db/schema.ts and db/enterprise-schema.ts
-- that the posting service reads. An id is 0 where it is empty or absent, and else one more than
-- the UUID's 128-bit value, so the order of ids is that of their texts. A date is its number of
-- days. A quantity is an integer number of millionths, and a conversion factor of 10^-8.
use ckitchen_backend.Prelude.{ℕ, Bool, true, false, Option, none, some, List, Text, any, ◌==◌}
use ckitchen_backend.Prelude.Int.{ℤ}
use ckitchen_backend.Stock.Decimal.{DecimalError}
use ckitchen_backend.Auth.Roles.{Role, RoleName}

pub data MovementType : Type 0 where
  stock_in stock_out : MovementType

abbrev pub is_in : MovementType → Bool
is_in stock_in = true
is_in stock_out = false

pub data SourcePolicy : Type 0 where
  allocatable custody_move disposition quarantine_release quarantine_hold : SourcePolicy

abbrev pub policy_rank : SourcePolicy → ℕ
policy_rank allocatable = 0
policy_rank custody_move = 1
policy_rank disposition = 2
policy_rank quarantine_release = 3
policy_rank quarantine_hold = 4

-- `movement.sourcePolicy === p`
abbrev pub has_policy : Option SourcePolicy → SourcePolicy → Bool
has_policy none p = false
has_policy (some q) p = policy_rank q == policy_rank p

pub data RouteClass : Type 0 where
  receive order_deduction adjustment internal_transfer hq_transfer outlet_return_dispatch
        return_disposition qa_release production_posting opening_balance :
      RouteClass

pub data Purpose : Type 0 where
  hq_main outlet_storage kitchen production quarantine : Purpose

abbrev pub purpose_rank : Purpose → ℕ
purpose_rank hq_main = 0
purpose_rank outlet_storage = 1
purpose_rank kitchen = 2
purpose_rank production = 3
purpose_rank quarantine = 4

-- `!!warehouse.purpose && purposes.includes(warehouse.purpose)`
abbrev pub purpose_in : List Purpose → Option Purpose → Bool
purpose_in ps none = false
purpose_in ps (some p) = any (λ q. purpose_rank q == purpose_rank p) ps

pub data LotStatus : Type 0 where
  available quarantined expired recalled spoiled disposed exhausted : LotStatus

pub data ErrorCode : Type 0 where
  feature_disabled unauthorized document_not_found invalid_transition idempotency_key_reused
        posting_in_progress invalid_movement lot_not_found lot_item_mismatch lot_not_eligible
        uom_mismatch forbidden_route insufficient_stock concurrent_modification :
      ErrorCode

-- What the service throws: a `StockPostingError` with its status, a `DecimalValidationError`, an
-- error of the fault injector, a read of a property of `undefined`, or an error of the database with
-- the `code` of each link of its cause chain.
pub data PostingError : Type 0 where
  posting_error : ErrorCode → ℕ → PostingError
  decimal_error : DecimalError → PostingError
  type_error : PostingError
  sql_error : List (Option Text) → PostingError

-- A movement as it is requested.
pub record MovementInput : Type 0 where
  pub warehouse_id : ℕ
  pub item_id : ℕ
  pub lot_id : ℕ
  pub movement_type : MovementType
  pub quantity : Text
  pub entered_quantity : Option Text
  pub entered_uom : Text
  pub conversion_factor : Option Text
  pub unit_cost : Option Text
  pub reason_code : Option Text
  pub source_policy : Option SourcePolicy
  pub metadata : Text

pub record PostingInput : Type 0 where
  pub idempotency_key : Text
  pub source_module : Text
  pub source_document_no : Text
  pub location_id : ℕ
  pub actor_user_id : ℕ
  pub session_id : ℕ
  pub correlation_id : Text
  pub movements : List MovementInput

-- A normalised movement: its decimals are the integers that their texts stand for.
pub record Movement : Type 0 where
  pub warehouse_id : ℕ
  pub item_id : ℕ
  pub lot_id : ℕ
  pub movement_type : MovementType
  pub quantity : ℤ
  pub entered_quantity : ℤ
  pub entered_uom : Text
  pub conversion_factor : ℤ
  pub unit_cost : ℤ
  pub reason_code : Option Text
  pub source_policy : Option SourcePolicy
  pub metadata : Text

pub record DocumentPolicy : Type 0 where
  pub feature_flag : Option Text
  pub route_class : RouteClass
  pub allowed_roles : List Role
  pub from_statuses : List Text
  pub next_status : Text

-- A planned ledger line.
pub record Line : Type 0 where
  pub line_no : ℕ
  pub warehouse_id : ℕ
  pub item_id : ℕ
  pub lot_id : ℕ
  pub movement_type : MovementType
  pub quantity : ℤ
  pub balance_before : ℤ
  pub balance_after : ℤ

pub record PostingResult : Type 0 where
  pub posting_id : ℕ
  pub replayed : Bool
  pub idempotency_key : Text
  pub request_hash : ℕ
  pub source_module : Text
  pub source_document_no : Text
  pub lines : List Line

pub record User : Type 0 where
  pub id : ℕ
  pub role : RoleName
  pub active : Bool

pub record Session : Type 0 where
  pub id : ℕ
  pub user_id : ℕ
  pub logged_out : Bool

pub record OutletAccess : Type 0 where
  pub user_id : ℕ
  pub location_id : ℕ

pub record Flag : Type 0 where
  pub key : Text
  pub enabled : Bool

pub record Warehouse : Type 0 where
  pub id : ℕ
  pub location_id : ℕ
  pub purpose : Option Purpose
  pub is_active : Bool

pub record Item : Type 0 where
  pub id : ℕ
  pub unit : Text
  pub is_active : Bool
  pub is_service : Bool

pub record Conversion : Type 0 where
  pub item_id : ℕ
  pub from_uom : Text
  pub to_base_factor : ℤ
  pub is_active : Bool

pub record Lot : Type 0 where
  pub id : ℕ
  pub item_id : ℕ
  pub lot_code : Text
  pub status : LotStatus
  pub expires_at : Option ℕ

-- The unique index on (warehouse, lot) makes the pair the row's identity.
pub record Balance : Type 0 where
  pub warehouse_id : ℕ
  pub lot_id : ℕ
  pub on_hand : ℤ
  pub reserved : ℤ
  pub version : ℕ

-- The unique index on (module, document number) makes the pair the row's identity.
pub record Document : Type 0 where
  pub module_name : Text
  pub document_no : Text
  pub location_id : ℕ
  pub status : Text
  pub version : ℕ
  pub stock_posting_id : Option ℕ

-- `result` is set exactly when the status is COMPLETED.
pub record Posting : Type 0 where
  pub id : ℕ
  pub idempotency_key : Text
  pub request_hash : ℕ
  pub hash_version : ℕ
  pub source_module : Text
  pub source_document_no : Text
  pub location_id : ℕ
  pub actor_user_id : ℕ
  pub completed : Bool
  pub result : Option PostingResult

-- A row of `stock_posting_line`; its posting and its line number identify it.
pub record LedgerLine : Type 0 where
  pub posting_id : ℕ
  pub line : Line
  pub metadata : Text

pub record Event : Type 0 where
  pub posting_id : ℕ
  pub location_id : ℕ
  pub correlation_id : Text
  pub line_count : ℕ
  pub document_status : Text

-- The tables of a posting. `open_exceptions` counts the open topology exceptions.
pub record Db : Type 0 where
  pub users : List User
  pub sessions : List Session
  pub access : List OutletAccess
  pub flags : List Flag
  pub warehouses : List Warehouse
  pub open_exceptions : ℕ
  pub items : List Item
  pub conversions : List Conversion
  pub lots : List Lot
  pub documents : List Document
  pub postings : List Posting
  pub balances : List Balance
  pub ledger : List LedgerLine
  pub audits : List Event
  pub outbox : List Event
