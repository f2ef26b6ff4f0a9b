-- ===== src/Transfers/History.antt =====
-- The states of the transfer orders that src/modules/transfers/service.ts can reach, by any order of
-- its transactions. The phases of a dispatch and of a receipt are steps of their own, so that all
-- the other steps may come between them.
pub mod Sound
use ckitchen_backend.Prelude.{
  ℕ, zero, suc, ap, ◌∙◌, Option, ◌≡◌, refl, sym, subst, Bool, true, false, ◌&&◌, some, List, find?,
  map, update_where, includes, ◌==◌, ==_iff, ok, All, Text, HasDistinct, keys-update_where,
  update_found-All, update_where-All,
}
use ckitchen_backend.Auth.Roles.{Role}
use ckitchen_backend.Stock.Types.{Db}
use ckitchen_backend.Stock.Guards.{Actor}
use ckitchen_backend.Transfers.Types.{
  TransferStatus, draft, submitted, approved, dispatched, received, cancelled, transfer_rank, ◌is◌,
  TransferOrder, TransferDb, CreateInput, UpdateInput, VersionInput, CancelInput, ReceiveInput,
  Caller, OrderWithLines,
}
use ckitchen_backend.Transfers.Posted.{LineMetadata}
use ckitchen_backend.Transfers.Updates.{is_current_transfer}
use ckitchen_backend.Transfers.Lifecycle.{
  Fresh, create_transfer_order_draft, edited, update_transfer_order_draft, submitted_by,
  submit_transfer_order, is_by, approved_by_actor, approve_transfer_order, cancelled_by_actor,
  cancel_transfer_order,
}
use ckitchen_backend.Transfers.Dispatch.{DispatchPlan, dispatched_by_plan, finish_dispatch}
use ckitchen_backend.Transfers.Receipt.{ReceiptPlan}
use ckitchen_backend.Transfers.Receive.{received_by_plan, finish_receipt}
use ckitchen_backend.Transfers.Lifecycle.Runs.{
  Change, update_transfer_order_draft-Change, submit_transfer_order-Change,
  approve_transfer_order-Change, cancel_transfer_order-Change,
}
use ckitchen_backend.Transfers.Lifecycle.Created.{
  create_transfer_order_draft-Created, resolve_header_route-differ,
}
use ckitchen_backend.Transfers.Phases.Finishes.{finish_dispatch-Finished, finish_receipt-Finished}

-- One transaction that commits. The primary key makes a new order's id new; `stocks` is any change
-- of the other tables: a document that is prepared or deleted, a posting, or a change elsewhere.
pub data Step (json : LineMetadata) (db db' : TransferDb) : Type 0 where
  creates :
      (fresh : Fresh) (input : CreateInput) (answer : OrderWithLines)
      → includes (map (λ o. o.id) db.orders) fresh.order_id ≡ false
      → create_transfer_order_draft fresh db input ≡ ok (answer, db')
      → Step json db db'
  updates :
      (new_id : ℕ → ℕ) (input : UpdateInput) (answer : OrderWithLines)
      → update_transfer_order_draft new_id db input ≡ ok (answer, db')
      → Step json db db'
  submits :
      (input : VersionInput) (answer : OrderWithLines)
      → submit_transfer_order db input ≡ ok (answer, db')
      → Step json db db'
  approves :
      (input : VersionInput) (answer : OrderWithLines)
      → approve_transfer_order db input ≡ ok (answer, db')
      → Step json db db'
  cancels :
      (input : CancelInput) (answer : OrderWithLines)
      → cancel_transfer_order db input ≡ ok (answer, db')
      → Step json db db'
  stocks : (stock : Db) → db' ≡ record db { stock = stock } → Step json db db'
  finishes_dispatch :
      (input : VersionInput) (plan : DispatchPlan) (posting : ℕ) (answer : OrderWithLines)
      → finish_dispatch json db input plan posting ≡ ok (answer, db')
      → Step json db db'
  finishes_receipt :
      (input : ReceiveInput) (plan : ReceiptPlan) (posting : ℕ) (answer : OrderWithLines)
      → finish_receipt json db input plan posting ≡ ok (answer, db')
      → Step json db db'

pub data Reach (json : LineMetadata) (start : TransferDb) : TransferDb → Type 0 where
  here : Reach json start start
  next : {db db' : TransferDb} → Reach json start db → Step json db db' → Reach json start db'
