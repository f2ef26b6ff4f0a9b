-- ===== src/Orders/Lifecycle.antt =====
-- src/modules/orders/service.ts: `nextStage`, `advanceOrder` and `cancelOrder`. An order is read
-- before the transaction starts, so each operation takes the tables as they were read and the
-- tables that its transaction works on. The returned events and the outbound hook are left out.
use ckitchen_backend.Prelude.{
  ℕ, Bool, ◌&&◌, not, some, [], Text, trim, any, find?, select, update_where, length, ltb, ◌==◌,
  if◌then◌else◌, Result, ok, err, ◌>>=◌, ◌>>◌, throw_if, or_throw,
}
use ckitchen_backend.Orders.Types.{
  OrderStatus, new, preparing, ready, completed, cancelled, same_status, OrderError,
  validation_error, not_found_error, conflict_error, Doubles, Order, OrderDb,
}
use ckitchen_backend.Orders.Deduction.{
  kitchen_of, deductions, apply_deductions, restocks_of, add_all, post_restocks,
}

unfoldable pub next_stage : OrderStatus → Result OrderError OrderStatus
next_stage new = ok preparing
next_stage preparing = ok ready
next_stage ready = ok completed
next_stage completed = err validation_error
next_stage cancelled = err validation_error

-- The condition of the conditional update.
abbrev pub is_current : ℕ → OrderStatus → Order → Bool
is_current id status o = o.id == id && same_status o.status status

abbrev pub stamp : OrderStatus → ℕ → Order → Order
stamp preparing now o = record o { status = preparing; prep_at = some now }
stamp ready now o = record o { status = ready; ready_at = some now }
stamp completed now o = record o { status = completed; completed_at = some now }
stamp status now o = record o { status = status }

unfoldable pub move_order : ℕ → OrderStatus → (Order → Order) → OrderDb → Result OrderError OrderDb
move_order id status change db = do
  throw_if (not (any (is_current id status) db.orders)) conflict_error
  ok (record db { orders = update_where (is_current id status) change db.orders })

abbrev pub release : ℕ → OrderDb → OrderDb
release id db = record db { reservations = select (λ r. not (r.order_id == id)) db.reservations }

module _ (n : Doubles) where
  unfoldable pub deduct : ℕ → Order → OrderDb → Result OrderError OrderDb
  unfolding kitchen_of deductions apply_deductions
  deduct user order db = do
    kitchen ← kitchen_of db order
    ok (
        release order.id
          (apply_deductions n order.id user kitchen.id (deductions n db order.id) db))

  unfoldable pub advance_order : OrderDb → ℕ → ℕ → ℕ → OrderDb → Result OrderError OrderDb
  unfolding next_stage move_order deduct
  advance_order read id user now db = do
    order ← or_throw (find? (λ o. o.id == id) read.orders) not_found_error
    throw_if (same_status order.status cancelled) validation_error
    next ← next_stage order.status
    moved ← move_order id order.status (stamp next now) db
    if same_status next preparing then deduct user order moved else ok moved

  -- The restock of a cancellation, if the order has log rows.
  unfoldable pub restock_order : Order → OrderDb → Result OrderError OrderDb
  unfolding restocks_of add_all post_restocks
  restock_order order db = do
    let rows = select (λ r. r.order_id == order.id) db.logs
    restocks ← restocks_of n db order rows []
    if length rows == 0
        then ok db
        else ok (record db {
          stock = add_all n restocks db.stock;
          ledger = post_restocks n order.id restocks db.ledger;
          logs = select (λ r. not (r.order_id == order.id)) db.logs;
        })

  unfoldable pub cancel_order : OrderDb → ℕ → Text → OrderDb → Result OrderError OrderDb
  unfolding move_order restock_order
  cancel_order read id reason db = do
    throw_if (length (trim reason) == 0) validation_error
    throw_if (ltb 500 (length (trim reason))) validation_error
    order ← or_throw (find? (λ o. o.id == id) read.orders) not_found_error
    throw_if (same_status order.status cancelled) validation_error
    throw_if (same_status order.status completed) validation_error
    moved ←
        move_order id order.status
          (λ o. record o { status = cancelled; cancel_reason = some (trim reason) }) db
    restock_order order (release id moved)
