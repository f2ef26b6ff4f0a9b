-- ===== src/Transfers/Phases/Outcomes.antt =====
-- A dispatch in src/modules/transfers/service.ts whose posting is done.
use ckitchen_backend.Prelude.{
  ℕ, ◌≡◌, refl, ap, subst, ◌∙◌, Bool, true, false, not, ◌&&◌, some, none, List, [], ◌∷◌, Text,
  find?, find?-narrow, find?-holds, update_where, ◌==◌, ==_iff, Result, ok, ◌>>=◌, All,
}
use ckitchen_backend.Stock.Types.{PostingResult, LedgerLine, Db}
use ckitchen_backend.Transfers.Types.{
  approved, dispatched, ◌is◌, TransferError, TransferOrder, TransferOrderLine, TransferDb,
  VersionInput, OrderWithLines, TransferAudit, transfer_order_dispatched,
}
use ckitchen_backend.Transfers.Guards.{fetch_lines}
use ckitchen_backend.Transfers.Posted.{
  LineMetadata, PostingService, posting_line_id, is_posting_line_of, settled,
}
use ckitchen_backend.Transfers.Updates.{audit_of, is_current_transfer, conclude}
use ckitchen_backend.Transfers.Dispatch.{
  DispatchPlan, dispatched_by_plan, dispatch_lines, is_undispatched, dispatched_line,
  dispatch_posting, prepare_dispatch, finish_dispatch, answer_dispatch, post_dispatch,
  dispatch_transfer_order,
}
use ckitchen_backend.Transfers.Phases.Prepares.{prepare_dispatch-eq-ok}
use ckitchen_backend.Transfers.Phases.Dispatched.{
  line_id, line_of, pin_lots-lines, IsOpenIn, IsOpenIn-All, HoldsDispatch,
  dispatch_lines-HoldsDispatch,
}
use ckitchen_backend.Prelude.{
  ◌+◌, HasDistinct, map, All-select, select-HasDistinct, rows-All, IsRowIn, sym, updated,
  find?-update_where, map_option,
}
use ckitchen_backend.Transfers.History.Sound.{is_current_transfer-id}

module _ (json : LineMetadata) (ledger : List LedgerLine) (posting : ℕ) where
  -- The ledger has a line of the posting for a line of the order.
  abbrev pub IsPosted : TransferOrderLine × ℕ → Type 0
  IsPosted (line, lot) =
      (row : LedgerLine) × (find? (is_posting_line_of json posting line.id) ledger ≡ some row)

  dispatch_lines-total :
      (lines : List (TransferOrderLine × ℕ)) (rows : List TransferOrderLine)
      → All IsPosted lines
      → (rows' : List TransferOrderLine) × (dispatch_lines json ledger posting lines rows
          ≡ ok rows')
  unfolding dispatch_lines posting_line_id
  dispatch_lines-total [] rows each = (rows, refl)
  dispatch_lines-total ((line, lot) ∷ lines) rows each =
      let (row, row_eq) = each.0 in
      let (rows', done) =
        dispatch_lines-total lines
          (update_where (is_undispatched line.id)
            (dispatched_line lot line.base_quantity (row.posting_id, (row.line).line_no)) rows)
          each.1 in
      (rows', rw row_eq done)

-- The row that the last update of a dispatch finds is the order of the plan.
current_order :
    (orders : List TransferOrder) (k version : ℕ) (o : TransferOrder)
    → find? (λ o. o.id == k) orders ≡ some o
    → (o.status is approved) ≡ true
    → (o.version == version) ≡ true
    → find? (is_current_transfer o.id approved version) orders ≡ some o
current_order orders k version o found status_eq version_eq =
    let key : o.id ≡ k = (==_iff o.id k).0 (find?-holds (λ o. o.id == k) orders found) in
    find?-narrow (λ o. o.id == k) (is_current_transfer o.id approved version)
      (λ x h.
        subst (λ i. (x.id == i) ≡ true) key (is_current_transfer-id o.id version approved x h))
      orders found (rw ((==_iff o.id o.id).1 refl, status_eq, version_eq) refl)

conclude-current :
    (db : TransferDb) (id version : ℕ) (change : TransferOrder → TransferOrder)
    (audit : TransferAudit) (lines : List TransferOrderLine) (row : TransferOrder)
    → find? (is_current_transfer id approved version) db.orders ≡ some row
    → conclude db id approved dispatched version change audit lines
      ≡ ok (
        (change row, lines),
        record db {
          orders = update_where (is_current_transfer id approved version) change db.orders;
          audits = audit ∷ db.audits;
        },
      )
unfolding conclude
conclude-current db id version change audit lines row found = rw (found, conclude)

module _ (json : LineMetadata) (collates : Text → Text → Bool) (post : PostingService) (today : ℕ)
    (db : TransferDb) (input : VersionInput) {plan : DispatchPlan} {prepared : TransferDb}
    (result : PostingResult) (stock : Db)
    (ready : prepare_dispatch collates today db input ≡ ok (plan, prepared))
    (posted : post prepared.stock (dispatch_posting json plan input) ≡ ok (result, stock))
    (each : All (IsPosted json stock.ledger result.posting_id) plan.resolved) where
  abbrev posted_db : TransferDb
  posted_db = record prepared { stock = stock }

  abbrev audit : TransferAudit
  audit =
      audit_of plan.actor input.caller (plan.order).source_location_id transfer_order_dispatched
        (plan.order).id

  outcome :
      dispatch_transfer_order json collates post today db input
      ≡ settled posted_db (finish_dispatch json posted_db input plan result.posting_id)
  unfolding dispatch_transfer_order post_dispatch answer_dispatch
  outcome =
      ap (post_dispatch json post db input) ready
      ∙ ap (answer_dispatch json prepared input plan) posted

  -- What a dispatch leaves: the stock after the posting, the lines, the order and the audit row.
  abbrev dispatched_db : List TransferOrderLine → TransferDb
  dispatched_db rows = record posted_db {
    lines = rows;
    orders =
        update_where (is_current_transfer (plan.order).id approved input.expected_version)
          (dispatched_by_plan plan) prepared.orders;
    audits = audit ∷ prepared.audits;
  }

  finishes :
      ((plan.order).status is approved) ≡ true
      → (rows : List TransferOrderLine) × (dispatch_lines json stock.ledger result.posting_id
            plan.resolved prepared.lines
          ≡ ok rows)
        × (find?
              (is_current_transfer (plan.order).id approved input.expected_version)
              prepared.orders
            ≡ some plan.order)
        × (dispatch_transfer_order json collates post today db input ≡ (
          dispatched_db rows,
          ok (dispatched_by_plan plan plan.order, fetch_lines rows (plan.order).id),
        ))
  unfolding finish_dispatch
  finishes is_approved =
      let p = prepare_dispatch-eq-ok collates today db input ready in
      let version_eq = second _ _ is_approved p.current in
      let found : find? (is_current_transfer (plan.order).id approved input.expected_version)
            prepared.orders
          ≡ some plan.order =
        ap
          (λ (d : TransferDb).
            find? (is_current_transfer (plan.order).id approved input.expected_version) d.orders)
          p.db_eq
        ∙ current_order db.orders input.order_id input.expected_version plan.order p.found
            is_approved version_eq in
      let (rows, rows_eq) =
        dispatch_lines-total json stock.ledger result.posting_id plan.resolved prepared.lines
          each in
      (
        rows,
        rows_eq,
        found,
        outcome
            ∙ ap (settled posted_db) (
                ap (λ r. r >>= conclusion) rows_eq
                ∙ conclude-current (record posted_db { lines = rows }) (plan.order).id
                    input.expected_version (dispatched_by_plan plan) audit
                    (fetch_lines rows (plan.order).id) plan.order found),
      )
    where
      second : (a b : Bool) → a ≡ true → (a && not b) ≡ false → b ≡ true
      second true true h e = refl
      second true false h e = cc
      second false b h e = cc

      conclusion : List TransferOrderLine → Result TransferError (OrderWithLines × TransferDb)
      conclusion rows =
          conclude (record posted_db { lines = rows }) (plan.order).id approved dispatched
            input.expected_version (dispatched_by_plan plan) audit
            (fetch_lines rows (plan.order).id)

-- The order as a dispatch leaves it.
abbrev pub IsDispatchOf : DispatchPlan → TransferOrder → Type 0
IsDispatchOf plan o =
    (o.id ≡ (plan.order).id)
    × (o.status ≡ dispatched)
    × (o.version ≡ (plan.order).version + 1)
    × (o.dispatched_by ≡ some plan.actor.id)
    × (o.dispatch_document_id ≡ some plan.document)
    × (o.source_warehouse_id ≡ (plan.order).source_warehouse_id)
    × (o.destination_warehouse_id ≡ (plan.order).destination_warehouse_id)

-- A dispatch of an approved order none of whose lines was dispatched, which is prepared, and whose
-- posting is done with a ledger line for each line of the order, where the ids of the lines are
-- distinct: the order that is returned is dispatched, with its version one higher, by the actor and
-- with its route kept; it is the row of its id in the tables that are left, which have the stock of the
-- posting; and the row of every line of the order is dispatched, with the lot that was chosen, the
-- line's base quantity and the ledger line of the posting.
pub dispatch_transfer_order-finishes :
    (json : LineMetadata) (collates : Text → Text → Bool) (post : PostingService) (today : ℕ)
    (db : TransferDb) (input : VersionInput) {plan : DispatchPlan} {prepared : TransferDb}
    (result : PostingResult) (stock : Db)
    → prepare_dispatch collates today db input ≡ ok (plan, prepared)
    → post prepared.stock (dispatch_posting json plan input) ≡ ok (result, stock)
    → All (IsPosted json stock.ledger result.posting_id) plan.resolved
    → (plan.order).status ≡ approved
    → HasDistinct (map line_id db.lines)
    → All (λ l. l.dispatch_posting_line_id ≡ none) (fetch_lines db.lines (plan.order).id)
    → (after : TransferDb) × (o : TransferOrder) × (dispatch_transfer_order json collates post today
          db input
        ≡ (after, ok (o, fetch_lines after.lines o.id)))
      × IsDispatchOf plan o
      × (find? (λ x. x.id == o.id) after.orders ≡ some o)
      × (after.stock ≡ stock)
      × (map line_of plan.resolved ≡ fetch_lines db.lines (plan.order).id)
      × All (HoldsDispatch json stock.ledger result.posting_id after.lines) plan.resolved
unfolding fetch_lines
dispatch_transfer_order-finishes json collates post today db input {plan} {prepared} result stock
      ready posted each is_approved distinct fresh =
    let p = prepare_dispatch-eq-ok collates today db input ready in
    let (rows, rows_eq, found, done) =
      finishes json collates post today db input result stock ready posted each
        (ap (λ s. s is approved) is_approved) in
    let o = plan.order in
    let key : o.id ≡ input.order_id =
      (==_iff o.id input.order_id).0
        (find?-holds (λ x. x.id == input.order_id) db.orders p.found) in
    let row : find? (λ x. x.id == o.id) prepared.orders ≡ some o =
      ap (λ (d : TransferDb). find? (λ x. x.id == o.id) d.orders) p.db_eq
      ∙ subst (λ i. find? (λ x. x.id == i) db.orders ≡ some o) (sym key) p.found in
    let lines_eq : prepared.lines ≡ db.lines = ap (λ (d : TransferDb). d.lines) p.db_eq in
    let pinned : map line_of plan.resolved ≡ fetch_lines db.lines o.id =
      pin_lots-lines collates db.stock today o.source_warehouse_id (fetch_lines db.lines o.id)
        p.resolved_eq in
    let open_lines : All (IsOpenIn db.lines) plan.resolved =
      IsOpenIn-All db.lines plan.resolved
        (subst (All (IsRowIn line_id db.lines)) (sym pinned) (
          All-select (IsRowIn line_id db.lines) (λ l. l.order_id == o.id) db.lines
            (rows-All line_id db.lines distinct)))
        (subst (All (λ l. l.dispatch_posting_line_id ≡ none)) (sym pinned) fresh) in
    (
      dispatched_db json collates post today db input result stock ready posted each rows,
      dispatched_by_plan plan o,
      done,
      (refl, refl, refl, refl, refl, refl, refl),
      find?-update_where (is_current_transfer o.id approved input.expected_version)
            (λ x. x.id == o.id) (dispatched_by_plan plan) (λ x. refl) prepared.orders
          ∙ ap
              (map_option (
                updated (is_current_transfer o.id approved input.expected_version)
                  (dispatched_by_plan plan)))
              row
          ∙ ap some (
              hit (
                find?-holds (is_current_transfer o.id approved input.expected_version)
                  prepared.orders found)),
      refl,
      pinned,
      dispatch_lines-HoldsDispatch json stock.ledger result.posting_id plan.resolved prepared.lines
          rows_eq
          (subst (λ ls. HasDistinct (map line_id ls)) (sym pinned)
            (select-HasDistinct line_id (λ l. l.order_id == o.id) db.lines distinct))
          (subst (λ ls. All (IsOpenIn ls) plan.resolved) (sym lines_eq) open_lines),
    )
  where
    hit :
        is_current_transfer (plan.order).id approved input.expected_version plan.order ≡ true
        → updated
            (is_current_transfer (plan.order).id approved input.expected_version)
            (dispatched_by_plan plan)
            plan.order
          ≡ dispatched_by_plan plan plan.order
    hit h = rw h refl
