-- ===== src/Transfers/Phases/Prepares.antt =====
-- What the first transaction of a dispatch and of a receipt in src/modules/transfers/service.ts has
-- checked and written.
use ckitchen_backend.Prelude.{
  ℕ, ◌≡◌, refl, subst, Bool, false, not, ◌&&◌, some, List, [], find?, any, ◌==◌, ok, Text, codes,
  for_each, throw_if-eq-ok, or_throw-eq-ok, >>=-eq-ok, >>-eq-ok, ok-injective,
}
use ckitchen_backend.Stock.Guards.{Actor}
use ckitchen_backend.Transfers.Types.{
  approved, dispatched, received, ◌is◌, TransferOrder, TransferOrderLine, TransferDb, VersionInput,
  ReceiveInput,
}
use ckitchen_backend.Transfers.Guards.{
  transfer_order_dispatch_module, transfer_order_receipt_module, authorize_transfer_actor,
  assert_location_in_scope, assert_feature_enabled, is_out_of_scope, ensure_operational_document,
  lock_order, fetch_lines,
}
use ckitchen_backend.Transfers.Fefo.{pin_lots}
use ckitchen_backend.Transfers.Dispatch.{DispatchPlan, prepare_dispatch}
use ckitchen_backend.Transfers.Receipt.{
  ReceiptPlan, ReceiptLine, check_overrides, check_known, lacks_dispatch, resolve_receipt_lines,
  prepare_receipt,
}

abbrev pub with_documents : TransferDb → Text → TransferOrder → ℕ → Text → TransferDb
with_documents db name o location status = record db {
  stock = record db.stock {
    documents = ensure_operational_document name o.document_no location status db.stock.documents;
  };
}

module _ (collates : Text → Text → Bool) (today : ℕ) (db : TransferDb) (input : VersionInput) where
  pub record DispatchPrepared (plan : DispatchPlan) (db' : TransferDb) : Type 0 where
    pub found : find? (λ o. o.id == input.order_id) db.orders ≡ some plan.order
    pub current :
        ((plan.order).status is approved && not ((plan.order).version == input.expected_version))
        ≡ false
    pub open_eq :
        (not ((plan.order).status is approved) && not ((plan.order).status is dispatched)) ≡ false
    pub resolved_eq :
        pin_lots collates db.stock today
          (plan.order).source_warehouse_id
          (fetch_lines db.lines (plan.order).id)
        ≡ ok plan.resolved
    pub document_eq : plan.document ≡ (transfer_order_dispatch_module, (plan.order).document_no)
    pub db_eq :
        db'
        ≡ with_documents db transfer_order_dispatch_module plan.order
            (plan.order).source_location_id
            (codes "APPROVED")

  pub prepare_dispatch-eq-ok :
      {plan : DispatchPlan} {db' : TransferDb}
      → prepare_dispatch collates today db input ≡ ok (plan, db')
      → DispatchPrepared plan db'
  unfolding prepare_dispatch lock_order assert_location_in_scope
  prepare_dispatch-eq-ok {plan} {db'} h =
      let (_, h₁) = >>-eq-ok (assert_feature_enabled db.stock) _ h in
      let (actor, _, h₂) = >>=-eq-ok (authorize_transfer_actor _ _ _) _ h₁ in
      let (order, found, h₃) =
        or_throw-eq-ok (find? (λ o. o.id == input.order_id) db.orders) _ _ h₂ in
      let (_, h₄) =
        throw_if-eq-ok (is_out_of_scope actor.allowed_location_ids order.source_location_id) _ _
          h₃ in
      let (open_eq, h₅) =
        throw_if-eq-ok (not (order.status is approved) && not (order.status is dispatched)) _ _
          h₄ in
      let (current, h₆) =
        throw_if-eq-ok (order.status is approved && not (order.version == input.expected_version)) _
          _ h₅ in
      let (resolved, resolved_eq, h₇) =
        >>=-eq-ok
          (pin_lots collates db.stock today order.source_warehouse_id
            (fetch_lines db.lines order.id))
          _ h₆ in
      subst (λ (p : DispatchPlan × TransferDb). DispatchPrepared p.0 p.1) (ok-injective h₇)
        (fields actor order resolved found current open_eq resolved_eq)
    where
      plan_of : Actor → TransferOrder → List (TransferOrderLine × ℕ) → DispatchPlan
      plan_of actor order resolved = record {
        actor = actor;
        order = order;
        resolved = resolved;
        document = (transfer_order_dispatch_module, order.document_no);
      }

      fields :
          (actor : Actor) (order : TransferOrder) (resolved : List (TransferOrderLine × ℕ))
          → find? (λ o. o.id == input.order_id) db.orders ≡ some order
          → (order.status is approved && not (order.version == input.expected_version)) ≡ false
          → (not (order.status is approved) && not (order.status is dispatched)) ≡ false
          → pin_lots collates db.stock today order.source_warehouse_id
              (fetch_lines db.lines order.id)
            ≡ ok resolved
          → DispatchPrepared (plan_of actor order resolved) (
              with_documents db transfer_order_dispatch_module order order.source_location_id
                (codes "APPROVED"))
      fields actor order resolved found current open_eq resolved_eq = record {
        found = found;
        current = current;
        open_eq = open_eq;
        resolved_eq = resolved_eq;
        document_eq = refl;
        db_eq = refl;
      }

module _ (db : TransferDb) (input : ReceiveInput) where
  pub record ReceiptPrepared (plan : ReceiptPlan) (db' : TransferDb) : Type 0 where
    pub found : find? (λ o. o.id == input.order_id) db.orders ≡ some plan.order
    pub current :
        ((plan.order).status is dispatched && not ((plan.order).version == input.expected_version))
        ≡ false
    pub open_eq :
        (not ((plan.order).status is dispatched) && not ((plan.order).status is received)) ≡ false
    pub resolved_eq :
        resolve_receipt_lines db.stock.items input.receipt_lines
          (fetch_lines db.lines (plan.order).id)
        ≡ ok plan.resolved
    pub document_eq : plan.document ≡ (transfer_order_receipt_module, (plan.order).document_no)
    pub db_eq :
        db'
        ≡ with_documents db transfer_order_receipt_module plan.order
            (plan.order).destination_location_id
            (codes "DISPATCHED")

  pub prepare_receipt-eq-ok :
      {plan : ReceiptPlan} {db' : TransferDb}
      → prepare_receipt db input ≡ ok (plan, db')
      → ReceiptPrepared plan db'
  unfolding prepare_receipt lock_order assert_location_in_scope
  prepare_receipt-eq-ok {plan} {db'} h =
      let (_, h₁) = >>-eq-ok (assert_feature_enabled db.stock) _ h in
      let (actor, _, h₂) = >>=-eq-ok (authorize_transfer_actor _ _ _) _ h₁ in
      let (order, found, h₃) =
        or_throw-eq-ok (find? (λ o. o.id == input.order_id) db.orders) _ _ h₂ in
      let (_, h₄) =
        throw_if-eq-ok (is_out_of_scope actor.allowed_location_ids order.destination_location_id) _
          _ h₃ in
      let (open_eq, h₅) =
        throw_if-eq-ok (not (order.status is dispatched) && not (order.status is received)) _ _
          h₄ in
      let (current, h₆) =
        throw_if-eq-ok (order.status is dispatched && not (order.version == input.expected_version))
          _ _ h₅ in
      let lines = fetch_lines db.lines order.id in
      let (_, h₇) = >>-eq-ok (check_overrides [] input.receipt_lines) _ h₆ in
      let (_, h₈) = >>-eq-ok (for_each (check_known lines) input.receipt_lines) _ h₇ in
      let (_, h₉) = throw_if-eq-ok (any lacks_dispatch lines) _ _ h₈ in
      let (resolved, resolved_eq, h₁₀) =
        >>=-eq-ok (resolve_receipt_lines db.stock.items input.receipt_lines lines) _ h₉ in
      subst (λ (p : ReceiptPlan × TransferDb). ReceiptPrepared p.0 p.1) (ok-injective h₁₀)
        (fields actor order resolved found current open_eq resolved_eq)
    where
      plan_of : Actor → TransferOrder → List ReceiptLine → ReceiptPlan
      plan_of actor order resolved = record {
        actor = actor;
        order = order;
        resolved = resolved;
        document = (transfer_order_receipt_module, order.document_no);
      }

      fields :
          (actor : Actor) (order : TransferOrder) (resolved : List ReceiptLine)
          → find? (λ o. o.id == input.order_id) db.orders ≡ some order
          → (order.status is dispatched && not (order.version == input.expected_version)) ≡ false
          → (not (order.status is dispatched) && not (order.status is received)) ≡ false
          → resolve_receipt_lines db.stock.items input.receipt_lines (fetch_lines db.lines order.id)
            ≡ ok resolved
          → ReceiptPrepared (plan_of actor order resolved) (
              with_documents db transfer_order_receipt_module order order.destination_location_id
                (codes "DISPATCHED"))
      fields actor order resolved found current open_eq resolved_eq = record {
        found = found;
        current = current;
        open_eq = open_eq;
        resolved_eq = resolved_eq;
        document_eq = refl;
        db_eq = refl;
      }
