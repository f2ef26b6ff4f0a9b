-- ===== src/Outbound/History.antt =====
-- The life of the tables of src/modules/outbound: the requests and the workers of service.ts and
-- worker.ts, one transaction after the other, with the claimed rows that workers hold in their hands.
-- The checks of an enqueue and of a dispute come before the transaction that inserts, and others may
-- come between, so these have a step each for the insertion after checks on other tables.
pub mod Invariant
pub mod Steps
pub mod Sound
use ckitchen_backend.Prelude.{
  ℕ, ◌≡◌, Bool, true, false, Option, none, some, List, [], ◌∷◌, Text, find?, ok,
}
use ckitchen_backend.Stock.Types.{Flag}
use ckitchen_backend.Outbound.Types.{
  Command, Listing, OptionGroup, ChannelOrder, DisputeReason, Dispute, OutboundDb, CommandRequest,
  Answer,
}
use ckitchen_backend.Outbound.Payloads.{Readers}
use ckitchen_backend.Outbound.Worker.{claim_one, send_one}
use ckitchen_backend.Outbound.Enqueue.{
  EnqueueInput, check_command, record_command, has_key, build_stored_key, enqueue_command,
}
use ckitchen_backend.Outbound.Disputes.{
  ControlInput, update_control_mode, DisputeInput, is_dispute_of, check_dispute, dispute_command,
  record_dispute, create_dispute, ResolveInput, resolve_dispute,
}

-- Tables without a command, and the changes of the tables that other modules write.
abbrev pub with_tables :
    List Flag → List Listing → List OptionGroup → List ChannelOrder → OutboundDb → OutboundDb
with_tables flags listings groups orders db = record db {
  flags = flags;
  listings = listings;
  groups = groups;
  orders = orders;
}

abbrev pub no_commands : OutboundDb
no_commands = record {
  flags = [];
  listings = [];
  groups = [];
  orders = [];
  commands = [];
  disputes = [];
  audits = [];
}

-- A worker may send a claimed row late, or never. `looked` are the tables as the checks read them and
-- `seen` as the query of the transaction read them, each table at its own moment before the insertion;
-- nothing else is asked of them. The Boolean tells whether an enqueue was parted from its checks.
pub data Reach : Bool → OutboundDb → List Command → Type 0 where
  start : Reach false no_commands []
  changed :
      {parted : Bool} {db : OutboundDb} {held : List Command} (flags : List Flag)
      (listings : List Listing) (groups : List OptionGroup) (orders : List ChannelOrder)
      → Reach parted db held
      → Reach parted (with_tables flags listings groups orders db) held
  enqueued :
      {parted : Bool} {db db₁ : OutboundDb} {held : List Command} {c : Command} (readers : Readers)
      (id now : ℕ) (input : EnqueueInput)
      → Reach parted db held
      → enqueue_command readers id now db input ≡ ok (c, db₁)
      → Reach parted db₁ held
  enqueued_late :
      {parted : Bool} {db : OutboundDb} {held : List Command} {l : Listing} (readers : Readers)
      (looked seen : OutboundDb) (id now : ℕ) (input : EnqueueInput)
      → Reach parted db held
      → check_command readers looked input ≡ ok l
      → Reach true (record_command id now input l seen db).1 held
  claimed_by :
      {parted : Bool} {db db₁ : OutboundDb} {held : List Command} {c : Command} (id seconds now : ℕ)
      (owner : Text)
      → Reach parted db held
      → claim_one db id owner seconds now ≡ (some c, db₁)
      → Reach parted db₁ (c ∷ held)
  answered :
      {parted : Bool} {db : OutboundDb} {held : List Command} {c : Command}
      (chosen : Command → Bool) (send_command : CommandRequest → Answer) (owner : Text) (now : ℕ)
      → Reach parted db held
      → find? chosen held ≡ some c
      → Reach parted (send_one send_command db c owner now).1 held
  mode_changed :
      {parted : Bool} {db db₁ : OutboundDb} {held : List Command} {l : Listing}
      (input : ControlInput)
      → Reach parted db held
      → update_control_mode db input ≡ ok (l, db₁)
      → Reach parted db₁ held
  disputed :
      {parted : Bool} {db db₁ : OutboundDb} {held : List Command} {d : Dispute} (readers : Readers)
      (id command_id now : ℕ) (input : DisputeInput)
      → Reach parted db held
      → create_dispute readers id command_id now db input ≡ ok (d, db₁)
      → Reach parted db₁ held
  disputed_late :
      {parted : Bool} {db : OutboundDb} {held : List Command} {reason : DisputeReason}
      {order : ChannelOrder} {command : Command} (looked seen : OutboundDb) (id : ℕ)
      (input : DisputeInput)
      → Reach parted db held
      → check_dispute looked input ≡ ok (reason, order)
      → find? (is_dispute_of input.order_id) looked.disputes ≡ none
      → find? (has_key (build_stored_key (dispute_command input reason))) db.commands ≡ some command
      → Reach parted (record_dispute id input reason order command seen db).1 held
  decided :
      {parted : Bool} {db db₁ : OutboundDb} {held : List Command} {d : Dispute}
      (input : ResolveInput) (now : ℕ)
      → Reach parted db held
      → resolve_dispute db input now ≡ ok (d, db₁)
      → Reach parted db₁ held
