-- ===== src/Transfers/Updates.antt =====
-- src/modules/transfers/service.ts: what the changes of an order share, namely the checks that they
-- begin with, the conditional update and the audit row. A transaction that locks its rows runs alone,
-- so each operation is a function of the tables.
use ckitchen_backend.Prelude.{
  ℕ, Bool, ◌&&◌, not, none, some, List, ◌∷◌, update_where, find?, ◌==◌, if◌then◌else◌, Result, ok,
  err, ◌>>=◌, ◌>>◌, throw_if, or_throw,
}
use ckitchen_backend.Auth.Roles.{Role}
use ckitchen_backend.Stock.Guards.{Actor}
use ckitchen_backend.Transfers.Types.{
  TransferStatus, ◌is◌, TransferError, transfer_error, invalid_transition, concurrent_modification,
  TransferOrder, TransferOrderLine, TransferAction, TransferAudit, TransferDb, Caller,
  OrderWithLines,
}
use ckitchen_backend.Transfers.Guards.{
  authorize_transfer_actor, assert_location_in_scope, lock_order,
}

abbrev pub audit_of : Actor → Caller → ℕ → TransferAction → ℕ → TransferAudit
audit_of actor caller location action id = record {
  actor_user_id = actor.id;
  session_id = caller.session_id;
  location_id = location;
  action = action;
  entity_id = id;
}

-- The condition of the conditional updates: the order, its status and its version.
abbrev pub is_current_transfer : ℕ → TransferStatus → ℕ → TransferOrder → Bool
is_current_transfer id status version o = o.id == id && o.status is status && o.version == version

-- A conditional update of one order, which throws when it matches no row and else returns it.
unfoldable pub update_current :
    ℕ
    → TransferStatus
    → ℕ
    → (TransferOrder → TransferOrder)
    → TransferDb
    → Result TransferError (TransferOrder × TransferDb)
update_current id status version change db = do
  row ←
      or_throw (find? (is_current_transfer id status version) db.orders)
        (transfer_error concurrent_modification 409)
  ok (
    change row,
    record db { orders = update_where (is_current_transfer id status version) change db.orders },
  )

-- The checks that an operation begins with: the actor, the order, its scope, its status and its
-- version.
unfoldable pub open_order :
    TransferDb
    → Caller
    → ℕ
    → ℕ
    → List Role
    → (TransferStatus → Bool)
    → Result TransferError (Actor × TransferOrder)
open_order db caller id version roles accepts = do
  actor ← authorize_transfer_actor db.stock caller roles
  order ← lock_order db id
  assert_location_in_scope actor.allowed_location_ids order.source_location_id
  throw_if (not (accepts order.status)) (transfer_error invalid_transition 409)
  throw_if (not (order.version == version)) (transfer_error concurrent_modification 409)
  ok (actor, order)

abbrev pub audited : TransferAudit → TransferDb → TransferDb
audited a db = record db { audits = a ∷ db.audits }

-- How a dispatch and a receipt end: the conditional update of the order, which may match no row
-- because an earlier attempt has moved the order already; then the order is returned as it is.
unfoldable pub conclude :
    TransferDb
    → ℕ
    → TransferStatus
    → TransferStatus
    → ℕ
    → (TransferOrder → TransferOrder)
    → TransferAudit
    → List TransferOrderLine
    → Result TransferError (OrderWithLines × TransferDb)
conclude db id from reached version change audit lines =
    elim (find? (is_current_transfer id from version) db.orders) [
      | none ↦
          or_throw (find? (λ o. o.id == id) db.orders) (transfer_error concurrent_modification 409)
          >>= (λ current.
              if current.status is reached
              then ok ((current, lines), db)
              else err (transfer_error concurrent_modification 409))
      | some row ↦ ok (
        (change row, lines),
        audited audit (record db {
          orders = update_where (is_current_transfer id from version) change db.orders;
        }),
      )
    ]
