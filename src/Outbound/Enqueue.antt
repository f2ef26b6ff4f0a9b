-- ===== src/Outbound/Enqueue.antt =====
-- src/modules/outbound/service.ts: a command is checked, and then inserted under its stored key unless
-- a row has that key. The checks read the tables before the transaction, so that another request may
-- commit in between: `record_command` takes the tables that its query sees and the tables that its
-- insertion meets. Without another request, these are the same.
pub mod StoredKeys
pub mod Replays
pub mod Sequence
use ckitchen_backend.Prelude.{
  ℕ, Bool, true, false, ◌&&◌, ◌||◌, not, List, Option, none, some, ◌∷◌, [], ◌++◌, Text, codes,
  text_eq, is_empty, find?, any, ◌==◌, inl, Result, ok, err, ◌>>=◌, ◌>>◌, throw_if, or_throw,
}
use ckitchen_backend.Outbound.Types.{
  CommandType, reject_order, set_item_availability, command_name, is_reject, Command, pending,
  Payload, object, no_payload, ControlMode, api, shadow, mode_rank, Listing, ChannelOrder,
  AuditAction, command_enqueued, OutboundAudit, OutboundDb, OutboundError, outbound_error,
  not_found, validation, control_mode_refused, out_of_order, feature_disabled,
}
use ckitchen_backend.Outbound.Policies.{
  outbound_commands_flag, is_order_scoped, is_listing_scoped, is_shadow_allowed,
  is_blocked_after_reject,
}
use ckitchen_backend.Outbound.Worker.{is_listing, is_order}
use ckitchen_backend.Outbound.Payloads.{
  Readers, assert_valid_reject_reason_payload, assert_valid_item_availability_payload, invalid,
}

-- An input, with the actor's fields that are absent as `none`. An order id is not the empty text.
pub record EnqueueInput : Type 0 where
  pub aggregator_account_id : Text
  pub order_id : Option Text
  pub command_type : CommandType
  pub payload : Payload
  pub idempotency_key : Text
  pub actor_user_id : Option ℕ
  pub session_id : Option ℕ

unfoldable pub is_outbound_enabled : OutboundDb → Bool
is_outbound_enabled db = elim (find? (λ f. text_eq f.key outbound_commands_flag) db.flags) [
  | none ↦ false
  | some flag ↦ flag.enabled
]

abbrev pub is_mode : ControlMode → Listing → Bool
is_mode mode l = mode_rank l.control_mode == mode_rank mode

abbrev pub mode_allows : Listing → CommandType → Bool
mode_allows l type = is_mode api l || is_mode shadow l && is_shadow_allowed type

-- `assertControlModeAllows`
abbrev pub assert_control_mode_allows : Listing → CommandType → Result OutboundError (Unit {0})
assert_control_mode_allows l type =
    throw_if (not (mode_allows l type)) (outbound_error control_mode_refused 409)

abbrev pub order_part : Option Text → Text
order_part none = codes "L"
order_part (some id) = id

-- `buildStoredKey`
unfoldable pub build_stored_key : EnqueueInput → Text
build_stored_key input =
    input.aggregator_account_id
    ++ (codes ":"
        ++ (order_part input.order_id
            ++ (codes ":"
                ++ (command_name input.command_type ++ (codes ":" ++ input.idempotency_key)))))

unfoldable pub check_payload :
    Readers → OutboundDb → Listing → EnqueueInput → Result OutboundError (Unit {0})
check_payload readers db listing input = elim input.command_type [
  | reject_order ↦ assert_valid_reject_reason_payload input.payload
  | set_item_availability ↦ assert_valid_item_availability_payload readers db listing input.payload
  | _ ↦ ok tt
]

abbrev pub is_at : Option Text → Text → Bool
is_at none id = false
is_at (some account) id = text_eq account id

abbrev pub is_present : Option Text → Bool
is_present none = false
is_present (some id) = true

unfoldable pub check_order : OutboundDb → Text → Option Text → Result OutboundError (Unit {0})
check_order db account none = err invalid
check_order db account (some id) = do
  order ← or_throw (find? (is_order id) db.orders) (outbound_error not_found 404)
  throw_if (not (is_at order.aggregator_account_id account)) invalid

unfoldable pub check_scope : OutboundDb → EnqueueInput → Result OutboundError (Unit {0})
check_scope db input = elim (is_order_scoped input.command_type) [
  | true ↦ check_order db input.aggregator_account_id input.order_id
  | false ↦ throw_if (is_listing_scoped input.command_type && is_present input.order_id) invalid
]

abbrev pub is_of_order : Text → Text → Command → Bool
is_of_order account order c =
    text_eq c.aggregator_account_id account && is_at c.order_id order && is_reject c.command_type

abbrev pub rejects : OutboundDb → Text → Option Text → Bool
rejects db account none = false
rejects db account (some order) = any (is_of_order account order) db.commands

-- The out-of-order guard.
abbrev pub check_sequence : OutboundDb → EnqueueInput → Result OutboundError (Unit {0})
check_sequence db input =
    throw_if
      (is_blocked_after_reject input.command_type
        && rejects db input.aggregator_account_id input.order_id)
      (outbound_error out_of_order 409)

unfoldable pub check_command : Readers → OutboundDb → EnqueueInput → Result OutboundError Listing
check_command readers db input = do
  throw_if (not (is_outbound_enabled db)) (outbound_error feature_disabled 503)
  listing ←
      or_throw (find? (is_listing input.aggregator_account_id) db.listings)
        (outbound_error not_found 404)
  assert_control_mode_allows listing input.command_type
  check_payload readers db listing input
  check_scope db input
  check_sequence db input
  ok listing

abbrev pub or_empty : Payload → Payload
or_empty no_payload = object []
or_empty p = p

-- The inserted row, with the defaults of its columns.
abbrev pub new_command : ℕ → ℕ → EnqueueInput → Command
new_command id now input = record {
  id = id;
  aggregator_account_id = input.aggregator_account_id;
  order_id = input.order_id;
  command_type = input.command_type;
  payload = or_empty input.payload;
  idempotency_key = build_stored_key input;
  status = pending;
  attempts = 0;
  next_attempt_at = none;
  lease_owner = none;
  lease_until = none;
  last_error = none;
  provider_ref = none;
  created_by = input.actor_user_id;
  created_at = now;
  updated_at = now;
}

abbrev pub enqueued_audit : ℕ → EnqueueInput → Listing → OutboundAudit
enqueued_audit id input listing = record {
  actor_user_id = input.actor_user_id;
  session_id = input.session_id;
  location_id = some listing.location_id;
  action = command_enqueued;
  entity_id = inl id;
}

abbrev pub has_key : Text → Command → Bool
has_key key c = text_eq c.idempotency_key key

abbrev pub inserted : ℕ → ℕ → EnqueueInput → Listing → OutboundDb → OutboundDb
inserted id now input listing db = record db {
  commands = new_command id now input ∷ db.commands;
  audits = enqueued_audit id input listing ∷ db.audits;
}

-- The insertion fails on a row with the same key, which is then what the caller gets.
unfoldable pub insert_command : ℕ → ℕ → EnqueueInput → Listing → OutboundDb → Command × OutboundDb
insert_command id now input listing current =
    elim (find? (has_key (build_stored_key input)) current.commands) [
      | some race_existing ↦ (race_existing, current)
      | none ↦ (new_command id now input, inserted id now input listing current)
    ]

unfoldable pub record_command :
    ℕ → ℕ → EnqueueInput → Listing → OutboundDb → OutboundDb → Command × OutboundDb
record_command id now input listing seen current =
    elim (find? (has_key (build_stored_key input)) seen.commands) [
      | some existing ↦ (existing, current)
      | none ↦ insert_command id now input listing current
    ]

unfoldable pub enqueue_command :
    Readers → ℕ → ℕ → OutboundDb → EnqueueInput → Result OutboundError (Command × OutboundDb)
enqueue_command readers id now db input = do
  listing ← check_command readers db input
  ok (record_command id now input listing db db)

-- `enqueueLifecycleCommand`
pub data Stage : Type 0 where
  preparing ready : Stage

abbrev pub stage_command : Stage → CommandType
stage_command preparing = CommandType.accept_order
stage_command ready = CommandType.mark_ready

abbrev pub lifecycle_input : Text → Text → Stage → Option ℕ → EnqueueInput
lifecycle_input order account stage actor = record {
  aggregator_account_id = account;
  order_id = some order;
  command_type = stage_command stage;
  payload = object [];
  idempotency_key = codes "AUTO";
  actor_user_id = actor;
  session_id = none;
}

abbrev pub is_api_listing : OutboundDb → Text → Bool
is_api_listing db account = elim (find? (is_listing account) db.listings) [
  | none ↦ false
  | some listing ↦ is_mode api listing
]

abbrev pub with_command : Command × OutboundDb → Result OutboundError (Option Command × OutboundDb)
with_command (c, db) = ok (some c, db)

unfoldable pub enqueue_lifecycle_command :
    Readers
    → ℕ
    → ℕ
    → OutboundDb
    → Text
    → Option Text
    → Stage
    → Option ℕ
    → Result OutboundError (Option Command × OutboundDb)
enqueue_lifecycle_command readers id now db order none stage actor = ok (none, db)
enqueue_lifecycle_command readers id now db order (some account) stage actor =
    elim (is_outbound_enabled db && is_api_listing db account) [
      | false ↦ ok (none, db)
      | true ↦
          enqueue_command readers id now db (lifecycle_input order account stage actor)
          >>= with_command
    ]
