-- ===== src/Transfers/Spec.antt =====
-- What src/modules/transfers/service.ts promises of an order: the moves between the statuses, one
-- version for each of them, and a route that is never changed. Beside it, the calls of the service.
pub mod Refines
pub mod Refinement
pub mod Final
use ckitchen_backend.Prelude.{
  ℕ, ◌+◌, ◌≡◌, ◌⊎◌, Bool, false, includes, map, List, [], ◌∷◌, Text, Result, ok, err,
}
use ckitchen_backend.Transfers.Types.{
  TransferStatus, draft, submitted, approved, dispatched, received, cancelled, TransferError,
  TransferOrder, TransferDb, CreateInput, UpdateInput, VersionInput, CancelInput, ReceiveInput,
  OrderWithLines,
}
use ckitchen_backend.Transfers.Posted.{LineMetadata, PostingService}
use ckitchen_backend.Transfers.Lifecycle.{
  Fresh, create_transfer_order_draft, update_transfer_order_draft, submit_transfer_order,
  approve_transfer_order, cancel_transfer_order,
}
use ckitchen_backend.Transfers.Dispatch.{dispatch_transfer_order}
use ckitchen_backend.Transfers.Receive.{receive_transfer_order}

-- The arrows of the life cycle.
pub data Moves : TransferStatus → TransferStatus → Type 0 where
  edits : Moves draft draft
  submits : Moves draft submitted
  approves : Moves submitted approved
  dispatches : Moves approved dispatched
  receives : Moves dispatched received
  drops_draft : Moves draft cancelled
  drops_submitted : Moves submitted cancelled
  drops_approved : Moves approved cancelled

-- The header that is written once.
abbrev pub route : TransferOrder → Text × ℕ × ℕ × ℕ × ℕ
route o = (
  o.document_no, o.source_warehouse_id, o.destination_warehouse_id, o.source_location_id,
  o.destination_location_id,
)

-- One step of the specification: an order stays, or moves along an arrow.
abbrev pub Advances : TransferOrder → TransferOrder → Type 0
Advances o o' =
    (o' ≡ o) ⊎ (Moves o.status o'.status × (o'.version ≡ o.version + 1) × (route o' ≡ route o))

-- The calls that change orders, with what the database draws.
pub data Call : Type 0 where
  create_draft : Fresh → CreateInput → Call
  update_draft : (ℕ → ℕ) → UpdateInput → Call
  submit approve dispatch : VersionInput → Call
  cancel : CancelInput → Call
  receive : ReceiveInput → Call

-- A transaction that throws is rolled back.
abbrev pub committed : TransferDb → Result TransferError (OrderWithLines × TransferDb) → TransferDb
committed db (ok (answer, db')) = db'
committed db (err e) = db

-- What a call leaves, whether it returns or throws.
module _ (json : LineMetadata) (collates_before : Text → Text → Bool) (post : PostingService)
    (today : ℕ) where
  unfoldable pub run : TransferDb → Call → TransferDb
  run db (create_draft fresh input) = committed db (create_transfer_order_draft fresh db input)
  run db (update_draft new_id input) = committed db (update_transfer_order_draft new_id db input)
  run db (submit input) = committed db (submit_transfer_order db input)
  run db (approve input) = committed db (approve_transfer_order db input)
  run db (cancel input) = committed db (cancel_transfer_order db input)
  run db (dispatch input) = (dispatch_transfer_order json collates_before post today db input).0
  run db (receive input) = (receive_transfer_order json post db input).0

  -- Calls one after the other.
  abbrev pub run_all : TransferDb → List Call → TransferDb
  run_all db [] = db
  run_all db (c ∷ cs) = run_all (run db c) cs

-- The primary key of the orders: a new id is not taken.
abbrev pub IsNew : TransferDb → Call → Type 0
IsNew db (create_draft fresh input) =
    includes (map (λ (o : TransferOrder). o.id) db.orders) fresh.order_id ≡ false
IsNew db call = Unit
