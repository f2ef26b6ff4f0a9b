-- ===== src/Outbound/Disputes.antt =====
-- src/modules/outbound/service.ts: the control mode of a listing, and the disputes. The creation of a
-- dispute enqueues its command in a transaction of its own; its row is inserted in the next one.
use ckitchen_backend.Prelude.{
  ℕ, Bool, true, false, not, Option, none, some, ◌∷◌, Text, codes, is_empty, text_eq, find?,
  update_where, ◌==◌, if◌then◌else◌, inl, inr, Result, ok, ◌>>=◌, ◌>>◌, throw_if, or_throw, [],
  List,
}
use ckitchen_backend.Outbound.Types.{
  CommandType, string, Field, object, Command, ControlMode, Listing, DisputeReason, DisputeStatus,
  contested, opened, Dispute, control_mode_changed, dispute_raised, dispute_resolved, OutboundAudit,
  OutboundDb, OutboundError, outbound_error, not_found, ChannelOrder,
}
use ckitchen_backend.Outbound.Worker.{is_listing, is_order}
use ckitchen_backend.Outbound.Payloads.{Readers, invalid}
use ckitchen_backend.Outbound.Enqueue.{EnqueueInput, is_at, enqueue_command, is_mode}

pub record ControlInput : Type 0 where
  pub aggregator_account_id : Text
  pub control_mode : ControlMode
  pub actor_user_id : ℕ
  pub session_id : Option ℕ

abbrev pub control_audit : ControlInput → Listing → OutboundAudit
control_audit input l = record {
  actor_user_id = some input.actor_user_id;
  session_id = input.session_id;
  location_id = some l.location_id;
  action = control_mode_changed;
  entity_id = inr l.id;
}

abbrev pub with_mode : ControlMode → Listing → Listing
with_mode mode l = record l { control_mode = mode }

unfoldable pub update_control_mode :
    OutboundDb → ControlInput → Result OutboundError (Listing × OutboundDb)
update_control_mode db input = do
  l ←
      or_throw (find? (is_listing input.aggregator_account_id) db.listings)
        (outbound_error not_found 404)
  ok (
      if is_mode input.control_mode l then (l, db) else (
        with_mode input.control_mode l,
        record db {
          listings =
              update_where (is_listing input.aggregator_account_id) (with_mode input.control_mode)
                db.listings;
          audits = control_audit input l ∷ db.audits;
        },
      ))

-- The reason is `none` where it is not in `DISPUTE_REASON_CODES`.
pub record DisputeInput : Type 0 where
  pub aggregator_account_id : Text
  pub order_id : Text
  pub dispute_reason : Option DisputeReason
  pub evidence_note : Option Text
  pub idempotency_key : Text
  pub actor_user_id : Option ℕ
  pub session_id : Option ℕ

abbrev pub reason_name : DisputeReason → Text
reason_name DisputeReason.suspected_fraud = codes "SUSPECTED_FRAUD"
reason_name DisputeReason.already_prepared = codes "ALREADY_PREPARED"
reason_name DisputeReason.rider_no_show = codes "RIDER_NO_SHOW"
reason_name DisputeReason.other_reason = codes "OTHER"

-- An empty note is left out.
abbrev pub note_field : Option Text → List Field
note_field none = []
note_field (some note) =
    if is_empty note then [] else record { name = codes "evidence_note"; value = string note } ∷ []

abbrev pub dispute_command : DisputeInput → DisputeReason → EnqueueInput
dispute_command input reason = record {
  aggregator_account_id = input.aggregator_account_id;
  order_id = some input.order_id;
  command_type = CommandType.contest_cancellation;
  payload = object (
      record { name = codes "dispute_reason"; value = string (reason_name reason) }
      ∷ note_field input.evidence_note);
  idempotency_key = input.idempotency_key;
  actor_user_id = input.actor_user_id;
  session_id = input.session_id;
}

abbrev pub is_dispute_of : Text → Dispute → Bool
is_dispute_of order d = text_eq d.order_id order

abbrev pub is_dispute_by : ℕ → Dispute → Bool
is_dispute_by command d = d.aggregator_command_id == command

-- The checks before the dispute of an order is looked up.
unfoldable pub check_dispute :
    OutboundDb → DisputeInput → Result OutboundError (DisputeReason × ChannelOrder)
check_dispute db input = do
  reason ← or_throw input.dispute_reason invalid
  order ← or_throw (find? (is_order input.order_id) db.orders) (outbound_error not_found 404)
  throw_if (not (is_at order.aggregator_account_id input.aggregator_account_id)) invalid
  throw_if (not order.is_cancelled) invalid
  ok (reason, order)

abbrev pub new_dispute : ℕ → DisputeInput → DisputeReason → ℕ → Dispute
new_dispute id input reason command = record {
  id = id;
  order_id = input.order_id;
  raised_by = input.actor_user_id;
  reason = reason;
  status = opened;
  aggregator_command_id = command;
  evidence_note = input.evidence_note;
  resolved_at = none;
  resolution_note = none;
}

abbrev pub raised_audit : ℕ → DisputeInput → ChannelOrder → OutboundAudit
raised_audit id input order = record {
  actor_user_id = input.actor_user_id;
  session_id = input.session_id;
  location_id = some order.location_id;
  action = dispute_raised;
  entity_id = inl id;
}

-- The second transaction. Its insertion fails on a dispute of the same order, which is then what the
-- caller gets; so it is tried on the tables that it meets.
unfoldable pub insert_dispute :
    ℕ → DisputeInput → DisputeReason → ChannelOrder → ℕ → OutboundDb → Dispute × OutboundDb
insert_dispute id input reason order command db =
    elim (find? (is_dispute_of input.order_id) db.disputes) [
      | some race_existing ↦ (race_existing, db)
      | none ↦ (
        new_dispute id input reason command,
        record db {
          disputes = new_dispute id input reason command ∷ db.disputes;
          audits = raised_audit id input order ∷ db.audits;
        },
      )
    ]

unfoldable pub record_dispute :
    ℕ
    → DisputeInput
    → DisputeReason
    → ChannelOrder
    → Command
    → OutboundDb
    → OutboundDb
    → Dispute × OutboundDb
record_dispute id input reason order command seen current =
    elim (find? (is_dispute_by command.id) seen.disputes) [
      | some already ↦ (already, current)
      | none ↦ insert_dispute id input reason order command.id current
    ]

abbrev pub raise_dispute :
    Readers
    → ℕ
    → ℕ
    → ℕ
    → OutboundDb
    → DisputeInput
    → DisputeReason × ChannelOrder
    → Result OutboundError (Dispute × OutboundDb)
raise_dispute readers id command_id now db input (reason, order) =
    elim (find? (is_dispute_of input.order_id) db.disputes) [
      | some existing ↦ ok (existing, db)
      | none ↦
          enqueue_command readers command_id now db (dispute_command input reason) >>= (λ enqueued.
            ok (record_dispute id input reason order enqueued.0 enqueued.1 enqueued.1))
    ]

unfoldable pub create_dispute :
    Readers → ℕ → ℕ → ℕ → OutboundDb → DisputeInput → Result OutboundError (Dispute × OutboundDb)
create_dispute readers id command_id now db input = do
  checked ← check_dispute db input
  raise_dispute readers id command_id now db input checked

-- The status is not `opened`, which the type of the source leaves out.
pub record ResolveInput : Type 0 where
  pub dispute_id : ℕ
  pub status : DisputeStatus
  pub resolution_note : Option Text
  pub actor_user_id : Option ℕ
  pub session_id : Option ℕ

abbrev pub is_contested : DisputeStatus → Bool
is_contested contested = true
is_contested _ = false

abbrev pub or_else : {A : Type 0} → Option A → Option A → Option A
or_else none b = b
or_else (some a) b = some a

abbrev pub settle : ResolveInput → ℕ → Dispute → Dispute
settle input now d = record d {
  status = input.status;
  resolution_note = or_else input.resolution_note d.resolution_note;
  resolved_at = if is_contested input.status then d.resolved_at else some now;
}

abbrev pub has_dispute_id : ℕ → Dispute → Bool
has_dispute_id id d = d.id == id

abbrev pub resolved_audit : ResolveInput → OutboundAudit
resolved_audit input = record {
  actor_user_id = input.actor_user_id;
  session_id = input.session_id;
  location_id = none;
  action = dispute_resolved;
  entity_id = inl input.dispute_id;
}

unfoldable pub resolve_dispute :
    OutboundDb → ResolveInput → ℕ → Result OutboundError (Dispute × OutboundDb)
resolve_dispute db input now = do
  d ← or_throw (find? (has_dispute_id input.dispute_id) db.disputes) (outbound_error not_found 404)
  ok (
    settle input now d,
    record db {
      disputes = update_where (has_dispute_id input.dispute_id) (settle input now) db.disputes;
      audits = resolved_audit input ∷ db.audits;
    },
  )
