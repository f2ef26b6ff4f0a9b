-- ===== src/Outbound/Types.antt =====
-- src/modules/outbound/types.ts and errors.ts, the rows of db/outbound-schema.ts, and the columns of
-- the listings and the orders that the module reads. The ids of listings and orders, which the stored
-- key prints, are texts; the others are numbers. A time is a number of milliseconds.
use ckitchen_backend.Prelude.{ℕ, Bool, Option, List, Text, codes, ◌⊎◌}
use ckitchen_backend.Stock.Types.{Flag}

pub data CommandType : Type 0 where
  accept_order reject_order mark_ready update_ready_time pause_store resume_store
        set_item_availability notify_menu_updated contest_cancellation :
      CommandType

-- The value of the enum, which is the text that a stored key holds.
unfoldable pub command_name : CommandType → Text
command_name CommandType.accept_order = codes "ACCEPT_ORDER"
command_name CommandType.reject_order = codes "REJECT_ORDER"
command_name CommandType.mark_ready = codes "MARK_READY"
command_name CommandType.update_ready_time = codes "UPDATE_READY_TIME"
command_name CommandType.pause_store = codes "PAUSE_STORE"
command_name CommandType.resume_store = codes "RESUME_STORE"
command_name CommandType.set_item_availability = codes "SET_ITEM_AVAILABILITY"
command_name CommandType.notify_menu_updated = codes "NOTIFY_MENU_UPDATED"
command_name CommandType.contest_cancellation = codes "CONTEST_CANCELLATION"

abbrev pub is_reject : CommandType → Bool
is_reject CommandType.reject_order = Bool.true
is_reject _ = Bool.false

pub data CommandStatus : Type 0 where
  pending claimed sent failed dead : CommandStatus

abbrev pub is_pending : CommandStatus → Bool
is_pending CommandStatus.pending = Bool.true
is_pending _ = Bool.false

abbrev pub is_claimed : CommandStatus → Bool
is_claimed CommandStatus.claimed = Bool.true
is_claimed _ = Bool.false

-- `undefined` is a key that is absent; `other` is any value but a string or null.
pub data Value : Type 0 where
  string : Text → Value
  null other : Value

pub record Field : Type 0 where
  pub name : Text
  pub value : Value

-- `undefined` or null, an object, or any other value.
pub data Payload : Type 0 where
  no_payload not_an_object : Payload
  object : List Field → Payload

pub record Command : Type 0 where
  pub id : ℕ
  pub aggregator_account_id : Text
  pub order_id : Option Text
  pub command_type : CommandType
  pub payload : Payload
  pub idempotency_key : Text
  pub status : CommandStatus
  pub attempts : ℕ
  pub next_attempt_at : Option ℕ
  pub lease_owner : Option Text
  pub lease_until : Option ℕ
  pub last_error : Option Text
  pub provider_ref : Option Text
  pub created_by : Option ℕ
  pub created_at : ℕ
  pub updated_at : ℕ

pub data ControlMode : Type 0 where
  device shadow api : ControlMode

abbrev pub mode_rank : ControlMode → ℕ
mode_rank ControlMode.device = 0
mode_rank ControlMode.shadow = 1
mode_rank ControlMode.api = 2

pub record Listing : Type 0 where
  pub id : Text
  pub brand_id : ℕ
  pub location_id : ℕ
  pub control_mode : ControlMode
  pub api_merchant_id : Option Text

pub record OptionGroup : Type 0 where
  pub id : Text
  pub brand_id : ℕ

pub record ChannelOrder : Type 0 where
  pub id : Text
  pub aggregator_account_id : Option Text
  pub location_id : ℕ
  pub is_cancelled : Bool
  pub external_ref : Option Text

pub data DisputeReason : Type 0 where
  suspected_fraud already_prepared rider_no_show other_reason : DisputeReason

pub data DisputeStatus : Type 0 where
  opened contested resolved_merchant_favor resolved_aggregator_favor expired : DisputeStatus

pub record Dispute : Type 0 where
  pub id : ℕ
  pub order_id : Text
  pub raised_by : Option ℕ
  pub reason : DisputeReason
  pub status : DisputeStatus
  pub aggregator_command_id : ℕ
  pub evidence_note : Option Text
  pub resolved_at : Option ℕ
  pub resolution_note : Option Text

pub data AuditAction : Type 0 where
  command_enqueued control_mode_changed dispute_raised dispute_resolved : AuditAction

-- An audit row, without its texts and metadata. The entity is a command, a listing or a dispute.
pub record OutboundAudit : Type 0 where
  pub actor_user_id : Option ℕ
  pub session_id : Option ℕ
  pub location_id : Option ℕ
  pub action : AuditAction
  pub entity_id : ℕ ⊎ Text

pub record OutboundDb : Type 0 where
  pub flags : List Flag
  pub listings : List Listing
  pub groups : List OptionGroup
  pub orders : List ChannelOrder
  pub commands : List Command
  pub disputes : List Dispute
  pub audits : List OutboundAudit

pub data OutboundErrorCode : Type 0 where
  not_found validation control_mode_refused out_of_order feature_disabled conflict :
      OutboundErrorCode

-- An `OutboundError` with its code and its status.
pub data OutboundError : Type 0 where
  outbound_error : OutboundErrorCode → ℕ → OutboundError

-- What the worker hands to the adapter, and what the adapter answers: a result, or a thrown error
-- with its message.
pub record CommandRequest : Type 0 where
  pub command_id : ℕ
  pub command_type : CommandType
  pub api_merchant_id : Option Text
  pub external_ref : Option Text
  pub payload : Payload
  pub attempt : ℕ

pub data FailureKind : Type 0 where
  retryable terminal : FailureKind

pub data SendResult : Type 0 where
  accepted : Option Text → SendResult
  refused : FailureKind → Text → SendResult

pub data Answer : Type 0 where
  returned : SendResult → Answer
  threw : Text → Answer
