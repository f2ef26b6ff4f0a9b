-- ===== src/Transfers/Types.antt =====
-- src/modules/transfers/types.ts and errors.ts, and the rows of db/transfer-orders-schema.ts. An id
-- is 0 where it is empty or absent, a quantity is an integer number of millionths and a conversion
-- factor of 10^-8. The times of the steps are left out.
use ckitchen_backend.Prelude.{ℕ, Bool, Option, List, Text, ◌==◌}
use ckitchen_backend.Prelude.Int.{ℤ}
use ckitchen_backend.Stock.Types.{PostingError, Db}
use ckitchen_backend.Stock.Decimal.{DecimalError}

pub data TransferStatus : Type 0 where
  draft submitted approved dispatched received cancelled : TransferStatus

abbrev pub transfer_rank : TransferStatus → ℕ
transfer_rank draft = 0
transfer_rank submitted = 1
transfer_rank approved = 2
transfer_rank dispatched = 3
transfer_rank received = 4
transfer_rank cancelled = 5

infix 50 ◌is◌
abbrev pub ◌is◌ : TransferStatus → TransferStatus → Bool
s is t = transfer_rank s == transfer_rank t

pub data TransferErrorCode : Type 0 where
  feature_disabled unauthorized not_found validation invalid_transition route_not_allowed
        uom_mismatch lot_not_eligible insufficient_stock duplicate_line segregation_of_duties
        concurrent_modification :
      TransferErrorCode

-- What an operation throws: a `TransferOrderError` with its status, an error of a decimal that is
-- not caught, or what the posting service throws.
pub data TransferError : Type 0 where
  transfer_error : TransferErrorCode → ℕ → TransferError
  uncaught_decimal : DecimalError → TransferError
  posting_failed : PostingError → TransferError

-- A posting line is known by its posting and its number; a document by its module and its number.
pub record TransferOrder : Type 0 where
  pub id : ℕ
  pub document_no : Text
  pub status : TransferStatus
  pub version : ℕ
  pub source_warehouse_id : ℕ
  pub destination_warehouse_id : ℕ
  pub source_location_id : ℕ
  pub destination_location_id : ℕ
  pub dispatch_document_id : Option (Text × Text)
  pub receipt_document_id : Option (Text × Text)
  pub remarks : Option Text
  pub requested_by : Option ℕ
  pub approved_by : Option ℕ
  pub dispatched_by : Option ℕ
  pub received_by : Option ℕ
  pub cancelled_by : Option ℕ
  pub cancel_reason : Option Text
  pub created_by : Option ℕ

pub record TransferOrderLine : Type 0 where
  pub id : ℕ
  pub order_id : ℕ
  pub line_no : ℕ
  pub item_id : ℕ
  pub lot_id : ℕ
  pub entered_uom : Text
  pub entered_quantity : ℤ
  pub conversion_factor : ℤ
  pub base_quantity : ℤ
  pub dispatched_quantity : Option ℤ
  pub received_quantity : Option ℤ
  pub status : TransferStatus
  pub dispatch_posting_line_id : Option (ℕ × ℕ)
  pub receipt_posting_line_id : Option (ℕ × ℕ)
  pub remarks : Option Text

pub data TransferAction : Type 0 where
  transfer_order_created transfer_order_submitted transfer_order_approved transfer_order_cancelled
        transfer_order_dispatched transfer_order_received :
      TransferAction

-- An audit row, without its texts.
pub record TransferAudit : Type 0 where
  pub actor_user_id : ℕ
  pub session_id : ℕ
  pub location_id : ℕ
  pub action : TransferAction
  pub entity_id : ℕ

-- The tables of the module beside those of the stock. The orders stand newest first, and the lines
-- of an order in the order of their line numbers, in which they are inserted.
pub record TransferDb : Type 0 where
  pub stock : Db
  pub orders : List TransferOrder
  pub lines : List TransferOrderLine
  pub audits : List TransferAudit

-- Who acts: the fields that every input has.
pub record Caller : Type 0 where
  pub actor_user_id : ℕ
  pub session_id : ℕ

pub record TransferLineInput : Type 0 where
  pub item_id : ℕ
  pub lot_id : ℕ
  pub entered_quantity : Text
  pub entered_uom : Text
  pub remarks : Option Text

pub record CreateInput : Type 0 where
  pub caller : Caller
  pub source_warehouse_id : ℕ
  pub destination_warehouse_id : ℕ
  pub remarks : Option Text
  pub lines : List TransferLineInput

-- `remarks` is absent where the input has no such property.
pub record UpdateInput : Type 0 where
  pub caller : Caller
  pub order_id : ℕ
  pub expected_version : ℕ
  pub remarks : Option (Option Text)
  pub lines : Option (List TransferLineInput)

-- The input of a submission, an approval and a dispatch.
pub record VersionInput : Type 0 where
  pub caller : Caller
  pub order_id : ℕ
  pub expected_version : ℕ

pub record CancelInput : Type 0 where
  pub caller : Caller
  pub order_id : ℕ
  pub expected_version : ℕ
  pub cancel_reason : Text

pub record ReceiptLineInput : Type 0 where
  pub line_id : ℕ
  pub received_quantity : Option Text

pub record ReceiveInput : Type 0 where
  pub caller : Caller
  pub order_id : ℕ
  pub expected_version : ℕ
  pub receipt_lines : List ReceiptLineInput

pub record ListInput : Type 0 where
  pub caller : Caller
  pub source_location_id : ℕ
  pub destination_location_id : ℕ
  pub status : Option TransferStatus
  pub search : Text
  pub limit : Option ℕ
  pub offset : ℕ

-- `TransferOrderWithLines`
abbrev pub OrderWithLines : Type 0
OrderWithLines = TransferOrder × List TransferOrderLine
