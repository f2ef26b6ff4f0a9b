-- ===== src/Transfers/Phases/Interrupted.antt =====
-- A dispatch in src/modules/transfers/service.ts whose order is cancelled by another transaction
-- while the posting service is at work.
use ckitchen_backend.Prelude.{
  ℕ, ◌≡◌, refl, sym, ap, subst, ◌∙◌, Bool, true, false, ◌&&◌, some, none, List, [], ◌∷◌, map, find?,
  find?-found_none, HasDistinct, update_where, ◌==◌, Result, ok, err, ◌>>=◌, Option-cases, inl, inr,
  keys-update_where,
}
use ckitchen_backend.Stock.Types.{PostingResult, LedgerLine, Db}
use ckitchen_backend.Transfers.Types.{
  approved, dispatched, cancelled, ◌is◌, TransferError, transfer_error, concurrent_modification,
  TransferOrder, TransferOrderLine, TransferDb, VersionInput, CancelInput, OrderWithLines,
  TransferAudit, transfer_order_dispatched,
}
use ckitchen_backend.Transfers.Guards.{fetch_lines}
use ckitchen_backend.Transfers.Posted.{LineMetadata, posting_line_id, is_posting_line_of, settled}
use ckitchen_backend.Transfers.Updates.{audit_of, is_current_transfer, conclude}
use ckitchen_backend.Transfers.Lifecycle.{cancelled_by_actor, cancel_transfer_order}
use ckitchen_backend.Transfers.Dispatch.{
  DispatchPlan, dispatched_by_plan, dispatch_lines, is_undispatched, dispatched_line,
  finish_dispatch, answer_dispatch,
}
use ckitchen_backend.Transfers.Lifecycle.Runs.{cancel_transfer_order-Change}
use ckitchen_backend.Transfers.History.Sound.{is_current_transfer-id}
use ckitchen_backend.Transfers.Lifecycle.Stale.{change-found}

abbrev pub changed_meanwhile : TransferError
changed_meanwhile = transfer_error concurrent_modification 409

-- The only error of the loop over the lines.
dispatch_lines-error :
    (json : LineMetadata) (ledger : List LedgerLine) (posting : ℕ)
    (lines : List (TransferOrderLine × ℕ)) (rows : List TransferOrderLine)
    (k : List TransferOrderLine → Result TransferError (OrderWithLines × TransferDb))
    → ((rows' : List TransferOrderLine) → k rows' ≡ err changed_meanwhile)
    → (dispatch_lines json ledger posting lines rows >>= k) ≡ err changed_meanwhile
unfolding dispatch_lines posting_line_id
dispatch_lines-error json ledger posting [] rows k fails = fails rows
dispatch_lines-error json ledger posting ((line, lot) ∷ lines) rows k fails =
    elim (Option-cases (find? (is_posting_line_of json posting line.id) ledger)) [
      | inl e ↦ rw (e, dispatch_lines, posting_line_id)
      | inr (row, e) ↦
          rw (e, dispatch_lines, posting_line_id)
            (dispatch_lines-error json ledger posting lines
              (update_where (is_undispatched line.id)
                (dispatched_line lot line.base_quantity (row.posting_id, (row.line).line_no)) rows)
              k fails)
    ]

conclude-cancelled :
    (db : TransferDb) (id version : ℕ) (change : TransferOrder → TransferOrder)
    (audit : TransferAudit) (lines : List TransferOrderLine) (o : TransferOrder)
    → HasDistinct (map (λ (o : TransferOrder). o.id) db.orders)
    → find? (λ o. o.id == id) db.orders ≡ some o
    → o.status ≡ cancelled
    → conclude db id approved dispatched version change audit lines ≡ err changed_meanwhile
unfolding conclude
conclude-cancelled db id version change audit lines o distinct found status_eq =
    let miss : is_current_transfer id approved version o ≡ false =
      subst (λ s. (o.id == id && s is approved && o.version == version) ≡ false) (sym status_eq)
        (not_approved (o.id == id) (o.version == version)) in
    let gone : find? (is_current_transfer id approved version) db.orders ≡ none =
      find?-found_none (λ (o : TransferOrder). o.id) (is_current_transfer id approved version) id
        (is_current_transfer-id id version approved) db.orders distinct found miss in
    let unreached : (o.status is dispatched) ≡ false = ap (λ s. s is dispatched) status_eq in
    rw (gone, conclude, found, unreached)
  where
    not_approved : (a b : Bool) → (a && false && b) ≡ false
    not_approved true b = refl
    not_approved false b = refl

module _ (json : LineMetadata) where
  finish_dispatch-cancelled :
      (db : TransferDb) (input : VersionInput) (plan : DispatchPlan) (posting : ℕ)
      (o : TransferOrder)
      → HasDistinct (map (λ (o : TransferOrder). o.id) db.orders)
      → find? (λ o. o.id == (plan.order).id) db.orders ≡ some o
      → o.status ≡ cancelled
      → finish_dispatch json db input plan posting ≡ err changed_meanwhile
  unfolding finish_dispatch
  finish_dispatch-cancelled db input plan posting o distinct found status_eq =
      dispatch_lines-error json db.stock.ledger posting plan.resolved db.lines _ (λ rows.
        conclude-cancelled (record db { lines = rows }) (plan.order).id input.expected_version
          (dispatched_by_plan plan)
          (audit_of plan.actor input.caller (plan.order).source_location_id
            transfer_order_dispatched (plan.order).id)
          (fetch_lines rows (plan.order).id) o distinct found status_eq)

  -- When an order is cancelled after a dispatch of it was prepared and before the posting is done,
  -- the dispatch throws CONCURRENT_MODIFICATION, and the cancelled order stays beside whatever the
  -- posting has done to the stock; the order ids are distinct before.
  pub answer_dispatch-cancelled :
      (prepared db : TransferDb) (cancel : CancelInput) (answer : OrderWithLines)
      (input : VersionInput) (plan : DispatchPlan) (result : PostingResult) (stock : Db)
      → HasDistinct (map (λ (o : TransferOrder). o.id) prepared.orders)
      → cancel_transfer_order prepared cancel ≡ ok (answer, db)
      → cancel.order_id ≡ (plan.order).id
      → answer_dispatch json db input plan (ok (result, stock))
        ≡ (record db { stock = stock }, err changed_meanwhile)
  unfolding answer_dispatch
  answer_dispatch-cancelled prepared db cancel answer input plan result stock distinct h same =
      let c = cancel_transfer_order-Change cancel h in
      let actor = c.actor in
      let keys : HasDistinct (map (λ (o : TransferOrder). o.id) db.orders) =
        subst HasDistinct
          (sym (
            ap (map (λ (o : TransferOrder). o.id)) c.orders_eq
            ∙ keys-update_where (λ (o : TransferOrder). o.id)
                (is_current_transfer cancel.order_id c.status cancel.expected_version)
                (cancelled_by_actor actor.id cancel.cancel_reason) (λ o. refl) prepared.orders))
          distinct in
      let left = cancelled_by_actor actor.id cancel.cancel_reason c.order in
      let found =
        subst (λ i. find? (λ o. o.id == i) db.orders ≡ some left) same
          (change-found (λ a. cancelled_by_actor a.id cancel.cancel_reason) (λ a o. refl) c) in
      ap (settled (record db { stock = stock })) (
        finish_dispatch-cancelled (record db { stock = stock }) input plan result.posting_id left
          keys found refl)
