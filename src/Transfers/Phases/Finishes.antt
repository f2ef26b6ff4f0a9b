-- ===== src/Transfers/Phases/Finishes.antt =====
-- What the last transaction of a dispatch and of a receipt does to the orders.
use ckitchen_backend.Prelude.{
  ℕ, ◌≡◌, refl, sym, ap, subst, Bool, true, false, List, ◌∷◌, find?, update_where,
  update_where-none, ◌==◌, if◌then◌else◌, Result, ok, err, Option-cases, inl, inr, ok-injective,
  >>=-eq-ok, or_throw-eq-ok,
}
use ckitchen_backend.Transfers.Types.{
  TransferStatus, approved, dispatched, received, ◌is◌, TransferOrder, TransferOrderLine,
  TransferDb, VersionInput, ReceiveInput, OrderWithLines, TransferError, transfer_error,
  concurrent_modification, TransferAudit, transfer_order_dispatched, transfer_order_received,
}
use ckitchen_backend.Transfers.Posted.{LineMetadata}
use ckitchen_backend.Transfers.Updates.{audit_of, is_current_transfer, conclude}
use ckitchen_backend.Transfers.Guards.{fetch_lines}
use ckitchen_backend.Transfers.Dispatch.{
  DispatchPlan, dispatch_lines, dispatched_by_plan, finish_dispatch,
}
use ckitchen_backend.Transfers.Receipt.{ReceiptPlan}
use ckitchen_backend.Transfers.Receive.{receive_lines, received_by_plan, finish_receipt}

-- The orders and the stock after a last transaction.
pub record Finished (db db' : TransferDb) (change : TransferOrder → TransferOrder)
    (q : TransferOrder → Bool) : Type 0 where
  pub orders_eq : db'.orders ≡ update_where q change db.orders
  pub stock_eq : db'.stock ≡ db.stock

finished :
    {answer a : OrderWithLines} (db d db' : TransferDb) (change : TransferOrder → TransferOrder)
    (q : TransferOrder → Bool)
    → ◌≡◌ {A = OrderWithLines × TransferDb} (a, d) (answer, db')
    → d.orders ≡ update_where q change db.orders
    → d.stock ≡ db.stock
    → Finished db db' change q
finished db d db' change q same o s =
    let e : d ≡ db' = ap (λ (p : OrderWithLines × TransferDb). p.1) same in
    record {
      orders_eq = subst (λ (x : TransferDb). x.orders ≡ update_where q change db.orders) e o;
      stock_eq = subst (λ (x : TransferDb). x.stock ≡ db.stock) e s;
    }

conclude-Finished :
    {answer : OrderWithLines} (db db' : TransferDb) (id : ℕ) (from reached : TransferStatus)
    (version : ℕ) (change : TransferOrder → TransferOrder) (audit : TransferAudit)
    (lines : List TransferOrderLine)
    → conclude db id from reached version change audit lines ≡ ok (answer, db')
    → Finished db db' change (is_current_transfer id from version)
unfolding conclude
conclude-Finished {answer} db db' id from reached version change audit lines h =
    elim (Option-cases (find? (is_current_transfer id from version) db.orders)) [
      | inl e ↦
          let (current, _, h₁) =
            or_throw-eq-ok (find? (λ o. o.id == id) db.orders) _ _ (rw (e, conclude) at h) in
          replay (current, lines) (current.status is reached) h₁
            (sym (update_where-none _ change db.orders e))
      | inr (row, e) ↦
          finished db
            (record db {
              orders = update_where (is_current_transfer id from version) change db.orders;
              audits = audit ∷ db.audits;
            })
            db' change (is_current_transfer id from version) (ok-injective (rw (e, conclude) at h))
            refl refl
    ]
  where
    replay :
        (a : OrderWithLines) (c : Bool)
        → ◌≡◌ {A = Result TransferError (OrderWithLines × TransferDb)}
            (if c then ok (a, db) else err (transfer_error concurrent_modification 409))
            (ok (answer, db'))
        → db.orders ≡ update_where (is_current_transfer id from version) change db.orders
        → Finished db db' change (is_current_transfer id from version)
    replay a true g same =
        finished db db db' change (is_current_transfer id from version) (ok-injective g) same refl
    replay a false g same = cc

module _ {db db' : TransferDb} {answer : OrderWithLines} (json : LineMetadata) where
  pub finish_dispatch-Finished :
      (input : VersionInput) (plan : DispatchPlan) (posting : ℕ)
      → finish_dispatch json db input plan posting ≡ ok (answer, db')
      → Finished db db'
          (dispatched_by_plan plan)
          (is_current_transfer (plan.order).id approved input.expected_version)
  unfolding finish_dispatch
  finish_dispatch-Finished input plan posting h =
      let (rows, _, h₁) =
        >>=-eq-ok (dispatch_lines json db.stock.ledger posting plan.resolved db.lines) _ h in
      let id = plan.order.id in
      let audit =
        audit_of plan.actor input.caller plan.order.source_location_id transfer_order_dispatched
          id in
      let f =
        conclude-Finished (record db { lines = rows }) db' id approved dispatched
          input.expected_version (dispatched_by_plan plan) audit (fetch_lines rows id) h₁ in
      record { orders_eq = f.orders_eq; stock_eq = f.stock_eq }

  pub finish_receipt-Finished :
      (input : ReceiveInput) (plan : ReceiptPlan) (posting : ℕ)
      → finish_receipt json db input plan posting ≡ ok (answer, db')
      → Finished db db'
          (received_by_plan plan)
          (is_current_transfer (plan.order).id dispatched input.expected_version)
  unfolding finish_receipt
  finish_receipt-Finished input plan posting h =
      let (rows, _, h₁) =
        >>=-eq-ok (receive_lines json db.stock.ledger posting plan.resolved db.lines) _ h in
      let id = plan.order.id in
      let audit =
        audit_of plan.actor input.caller plan.order.destination_location_id transfer_order_received
          id in
      let f =
        conclude-Finished (record db { lines = rows }) db' id dispatched received
          input.expected_version (received_by_plan plan) audit (fetch_lines rows id) h₁ in
      record { orders_eq = f.orders_eq; stock_eq = f.stock_eq }
