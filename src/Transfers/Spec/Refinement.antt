-- ===== src/Transfers/Spec/Refinement.antt =====
-- Every call of src/modules/transfers/service.ts refines the specification of an order.
use ckitchen_backend.Prelude.{
  codes, ℕ, ◌≡◌, refl, sym, ap, subst, ◌∙◌, Bool, true, false, some, Text, codes, find?,
  found-includes, map, includes, update_where, ◌==◌, ==_iff, Result, ok, err, inl, inr, Bool-cases,
}
use ckitchen_backend.Transfers.Types.{
  draft, submitted, approved, dispatched, received, TransferOrder, TransferDb, CreateInput,
  VersionInput, OrderWithLines, ReceiveInput, TransferError,
}
use ckitchen_backend.Transfers.Posted.{LineMetadata, PostingService, settled, compensated}
use ckitchen_backend.Stock.Types.{PostingError, PostingResult, Db}
use ckitchen_backend.Transfers.Updates.{is_current_transfer}
use ckitchen_backend.Transfers.Lifecycle.{
  Fresh, edited, submitted_by, approved_by_actor, create_transfer_order_draft,
  update_transfer_order_draft, submit_transfer_order, approve_transfer_order, cancel_transfer_order,
}
use ckitchen_backend.Transfers.Lifecycle.Runs.{
  update_transfer_order_draft-Change, submit_transfer_order-Change, approve_transfer_order-Change,
  cancel_transfer_order-Change,
}
use ckitchen_backend.Transfers.Lifecycle.Created.{Created, create_transfer_order_draft-Created}
use ckitchen_backend.Transfers.Dispatch.{
  DispatchPlan, answer_dispatch, dispatched_by_plan, post_dispatch, dispatch_transfer_order,
  prepare_dispatch, finish_dispatch,
}
use ckitchen_backend.Transfers.Receipt.{ReceiptPlan, prepare_receipt}
use ckitchen_backend.Transfers.Receive.{
  received_by_plan, answer_receipt, post_receipt, receive_transfer_order, finish_receipt,
}
use ckitchen_backend.Transfers.Phases.Prepares.{prepare_dispatch-eq-ok, prepare_receipt-eq-ok}
use ckitchen_backend.Transfers.Phases.Finishes.{finish_dispatch-Finished, finish_receipt-Finished}
use ckitchen_backend.Transfers.Spec.{
  submits, approves, dispatches, receives, Call, create_draft, update_draft, submit, approve,
  dispatch, cancel, receive, run, IsNew,
}
use ckitchen_backend.Transfers.Spec.Refines.{
  Refines, same-Refines, conclude-Refines, committed-Refines, change-Refines, edit-Refines,
  cancel-Refines,
}

settled-Refines :
    (db posted : TransferDb) (r : Result TransferError (OrderWithLines × TransferDb))
    → posted.orders ≡ db.orders
    → ((answer : OrderWithLines) (db' : TransferDb) → r ≡ ok (answer, db') → Refines db db')
    → Refines db (settled posted r).0
settled-Refines db posted (ok (answer, db')) same step = step answer db' refl
settled-Refines db posted (err e) same step = same-Refines db posted same

module _ (json : LineMetadata) (db prepared : TransferDb) where
  answer_dispatch-Refines :
      (k : ℕ) (input : VersionInput) (plan : DispatchPlan)
      (r : Result PostingError (PostingResult × Db))
      → find? (λ o. o.id == k) db.orders ≡ some plan.order
      → prepared.orders ≡ db.orders
      → Refines db (answer_dispatch json prepared input plan r).0
  unfolding answer_dispatch
  answer_dispatch-Refines k input plan (err e) found same =
      same-Refines db (compensated plan.document (codes "APPROVED") prepared) same
  answer_dispatch-Refines k input plan (ok (result, stock)) found same =
      let posted : TransferDb = record prepared { stock = stock } in
      settled-Refines db posted (finish_dispatch json posted input plan result.posting_id) same
        (λ answer db' h.
          let f = finish_dispatch-Finished json input plan result.posting_id h in
          conclude-Refines db db' k input.expected_version approved dispatched plan.order
            (dispatched_by_plan plan) dispatches found (λ o. (refl, refl, refl, refl))
            (f.orders_eq
              ∙ ap
                  (update_where
                    (is_current_transfer (plan.order).id approved input.expected_version)
                    (dispatched_by_plan plan))
                  same))

  answer_receipt-Refines :
      (k : ℕ) (input : ReceiveInput) (plan : ReceiptPlan)
      (r : Result PostingError (PostingResult × Db))
      → find? (λ o. o.id == k) db.orders ≡ some plan.order
      → prepared.orders ≡ db.orders
      → Refines db (answer_receipt json prepared input plan r).0
  unfolding answer_receipt
  answer_receipt-Refines k input plan (err e) found same =
      same-Refines db (compensated plan.document (codes "DISPATCHED") prepared) same
  answer_receipt-Refines k input plan (ok (result, stock)) found same =
      let posted : TransferDb = record prepared { stock = stock } in
      settled-Refines db posted (finish_receipt json posted input plan result.posting_id) same
        (λ answer db' h.
          let f = finish_receipt-Finished json input plan result.posting_id h in
          conclude-Refines db db' k input.expected_version dispatched received plan.order
            (received_by_plan plan) receives found (λ o. (refl, refl, refl, refl))
            (f.orders_eq
              ∙ ap
                  (update_where
                    (is_current_transfer (plan.order).id dispatched input.expected_version)
                    (received_by_plan plan))
                  same))

module _ (json : LineMetadata) (post : PostingService) (db : TransferDb) where
  post_dispatch-Refines :
      (collates : Text → Text → Bool) (today : ℕ) (input : VersionInput)
      (r : Result TransferError (DispatchPlan × TransferDb))
      → prepare_dispatch collates today db input ≡ r
      → Refines db (post_dispatch json post db input r).0
  unfolding post_dispatch
  post_dispatch-Refines collates today input (err e) h = same-Refines db db refl
  post_dispatch-Refines collates today input (ok (plan, prepared)) h =
      let p = prepare_dispatch-eq-ok collates today db input h in
      answer_dispatch-Refines json db prepared input.order_id input plan _ p.found
        (ap (λ (d : TransferDb). d.orders) p.db_eq)

  post_receipt-Refines :
      (input : ReceiveInput) (r : Result TransferError (ReceiptPlan × TransferDb))
      → prepare_receipt db input ≡ r
      → Refines db (post_receipt json post db input r).0
  unfolding post_receipt
  post_receipt-Refines input (err e) h = same-Refines db db refl
  post_receipt-Refines input (ok (plan, prepared)) h =
      let p = prepare_receipt-eq-ok db input h in
      answer_receipt-Refines json db prepared input.order_id input plan _ p.found
        (ap (λ (d : TransferDb). d.orders) p.db_eq)

create-Refines :
    (fresh : Fresh) (db db' : TransferDb) (input : CreateInput) (answer : OrderWithLines)
    → includes (map (λ (o : TransferOrder). o.id) db.orders) fresh.order_id ≡ false
    → create_transfer_order_draft fresh db input ≡ ok (answer, db')
    → Refines db db'
create-Refines fresh db db' input answer new h id o found =
    elim (Bool-cases (fresh.order_id == id)) [
      | inl e ↦ absurd (taken ((==_iff fresh.order_id id).0 e))
      | inr e ↦ (o, ap (find? (λ o. o.id == id)) c.orders_eq ∙ rw e found, inl refl)
    ]
  where
    c : Created fresh db db' input
    c = create_transfer_order_draft-Created fresh input h

    taken : fresh.order_id ≡ id → ⊥
    taken same =
        let there = found-includes (λ (o : TransferOrder). o.id) id db.orders found in
        let absent =
          subst (λ k. includes (map (λ (o : TransferOrder). o.id) db.orders) k ≡ false) same new in
        differ (sym there ∙ absent)
      where
        differ : true ≡ false → ⊥
        differ e = cc

module _ (json : LineMetadata) (collates : Text → Text → Bool) (post : PostingService)
    (today : ℕ) where
  -- Whatever the posting service does, a call leaves each order where it was, or moves it along one
  -- arrow of the life cycle with its version one higher and its number, warehouses and locations
  -- kept; an order that a call creates needs an id that is not taken.
  pub run-Refines :
      (db : TransferDb) (call : Call)
      → IsNew db call
      → Refines db (run json collates post today db call)
  unfolding run dispatch_transfer_order receive_transfer_order
  run-Refines db (create_draft fresh input) new =
      committed-Refines db (create_transfer_order_draft fresh db input)
        (λ answer db' h. create-Refines fresh db db' input answer new h)
  run-Refines db (update_draft new_id input) new =
      committed-Refines db (update_transfer_order_draft new_id db input) (λ answer db' h.
        edit-Refines {db = db} {db' = db'} (λ _. edited input.remarks) (λ a o. refl)
          (λ a o m. inr (m, refl, refl)) (update_transfer_order_draft-Change new_id input h))
  run-Refines db (submit input) new =
      committed-Refines db (submit_transfer_order db input) (λ answer db' h.
        change-Refines {db = db} {db' = db'} draft submitted (λ a. submitted_by a.id) (λ a o. refl)
          (λ a o m _. inr (m, refl, refl)) submits (submit_transfer_order-Change input h))
  run-Refines db (approve input) new =
      committed-Refines db (approve_transfer_order db input) (λ answer db' h.
        change-Refines {db = db} {db' = db'} submitted approved (λ a. approved_by_actor a.id)
          (λ a o. refl) (λ a o m _. inr (m, refl, refl)) approves
          (approve_transfer_order-Change input h).0)
  run-Refines db (cancel input) new =
      committed-Refines db (cancel_transfer_order db input) (λ answer db' h.
        cancel-Refines {db = db} {db' = db'} input.cancel_reason
          (cancel_transfer_order-Change input h))
  run-Refines db (dispatch input) new =
      post_dispatch-Refines json post db collates today input _ refl
  run-Refines db (receive input) new = post_receipt-Refines json post db input _ refl
