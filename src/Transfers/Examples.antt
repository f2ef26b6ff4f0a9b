-- ===== src/Transfers/Examples.antt =====
-- The theorems on src/modules/transfers at the tables of Transfers/Examples/Runthrough.antt.
pub mod Sample
pub mod Runthrough
pub mod Arrival
use mathlib.Core.List.{Mem}
use ckitchen_backend.Prelude.{
  ◌≤◌, ◌≡◌, refl, true, none, some, List, [], ◌∷◌, map, codes, ok, err, text_eq, text_lt, find?,
  ◌==◌, trim, All, arith,
}
use ckitchen_backend.Prelude.Int.{pos, ◌+ℤ◌, ◌-ℤ◌, leb_ℤ}
use ckitchen_backend.Auth.Roles.{normalize_role, outlet_scope_for_role}
use ckitchen_backend.Stock.Types.{ErrorCode, posting_error}
use ckitchen_backend.Stock.Locks.Rows.{IsSound, on_hand_at, reserved_at}
use ckitchen_backend.CustomerOrders.Allocation.{
  Candidate, candidates_of, insert_candidate, goes_before,
}
use ckitchen_backend.Transfers.Types.{
  cancelled, TransferError, posting_failed, TransferOrder, TransferOrderLine,
  transfer_order_cancelled, TransferDb, CancelInput,
}
use ckitchen_backend.Transfers.Guards.{
  permitted_role, authorize_transfer_actor, assert_location_in_scope, assert_feature_enabled,
  ensure_operational_document, lock_order, fetch_lines,
}
use ckitchen_backend.Transfers.Lines.{ResolvedLine}
use ckitchen_backend.Transfers.Updates.{update_current, open_order}
use ckitchen_backend.Transfers.Lifecycle.{cancel_transfer_order}
use ckitchen_backend.Transfers.Posted.{PostingService}
use ckitchen_backend.Transfers.Fefo.{pin_lots, select_fefo_lot, free_quantity}
use ckitchen_backend.Transfers.Dispatch.{
  DispatchPlan, prepare_dispatch, answer_dispatch, dispatch_transfer_order,
}
use ckitchen_backend.Transfers.Receipt.{ReceiptLine}
use ckitchen_backend.Transfers.Receive.{receive_transfer_order}
use ckitchen_backend.Transfers.History.{
  creates, submits, approves, stocks, finishes_dispatch, here, next,
}
use ckitchen_backend.Transfers.History.Sound.{AreSound, Reach-AreSound}
use ckitchen_backend.Transfers.Spec.{submits, approves, Advances, Call, dispatch, run, run_all}
use ckitchen_backend.Transfers.Spec.Refinement.{run-Refines}
use ckitchen_backend.Transfers.Spec.Final.{run_all-final}
use ckitchen_backend.Transfers.Lifecycle.Stale.{Edit, run_edit, run_edit-stale}
use ckitchen_backend.Transfers.Phases.Compensation.{
  dispatch_transfer_order-restores, receive_transfer_order-restores,
}
use ckitchen_backend.Transfers.Phases.Interrupted.{changed_meanwhile, answer_dispatch-cancelled}
use ckitchen_backend.Transfers.Phases.Balances.{
  sent_at, arrived_at, dispatch_posting-balances, receipt_posting-balances,
}
use ckitchen_backend.Transfers.Receipt.Bounds.{IsWithin, prepare_receipt-IsWithin}
use ckitchen_backend.Transfers.Lines.Amounts.{IsExact, numbers, resolve_and_validate_lines-bounds}
use ckitchen_backend.Transfers.Fefo.Expiry.{IsFirst, select_fefo_lot-IsFirst}
use ckitchen_backend.Transfers.Phases.Outcomes.{IsDispatchOf, dispatch_transfer_order-finishes}
use ckitchen_backend.Transfers.Phases.Dispatched.{line_of, HoldsDispatch}
use ckitchen_backend.Prelude.{map}
use ckitchen_backend.Transfers.Examples.Sample.{
  json, stock, start, checker, two_kg, create_input, fresh, resolved_line, order_line, drafted,
  audit, created_db, lines_resolved, order_created,
}
use ckitchen_backend.Transfers.Examples.Runthrough.{
  submit_input, submitted_order, submitted_db, order_submitted, approve_input, approved_order,
  approved_db, order_approved, collates, dispatch_input, dispatch_plan, prepared_db,
  dispatch_prepared, dependencies, process, request_hash, posting_service, dispatch_line,
  dispatch_answer, dispatched_stock, dispatch_posted, dispatched_row, dispatched_order,
  dispatched_tables, dispatch_finished,
}
use ckitchen_backend.Transfers.Examples.Arrival.{
  receive_input, receipt_plan, receiving_db, receipt_prepared, received_stock, receipt_posted,
}

Reach-AreSound_example : AreSound dispatched_tables
Reach-AreSound_example =
    Reach-AreSound json {db = start} {db' = dispatched_tables}
      (next
        (next
          (next
            (next
              (next here (creates fresh create_input (drafted, order_line ∷ []) refl order_created))
              (submits submit_input (submitted_order, order_line ∷ []) order_submitted))
            (approves approve_input (approved_order, order_line ∷ []) order_approved))
          (stocks dispatched_stock refl))
        (finishes_dispatch dispatch_input dispatch_plan 77 (dispatched_order, dispatched_row ∷ [])
          dispatch_finished))
      (tt, tt)

run-Refines_example :
    (o : TransferOrder) × (find?
        (λ o. o.id == 21)
        (run json collates (posting_service 77) 20000 approved_db (dispatch dispatch_input)).orders
      ≡ some o)
    × Advances approved_order o
run-Refines_example =
    run-Refines json collates (posting_service 77) 20000 approved_db (dispatch dispatch_input) tt 21
      approved_order refl

submitted_once :
    run_edit created_db (Edit.submit submit_input)
    ≡ ok ((submitted_order, order_line ∷ []), submitted_db)
unfolding run_edit
submitted_once = order_submitted

run_edit-stale_example :
    (e : TransferError) × (run_edit submitted_db (Edit.submit submit_input) ≡ err e)
run_edit-stale_example =
    run_edit-stale created_db submitted_db (Edit.submit submit_input) (Edit.submit submit_input)
      (submitted_order, order_line ∷ []) refl refl submitted_once

-- A posting service that refuses everything.
abbrev refuse : PostingService
refuse db input = err (posting_error ErrorCode.insufficient_stock 409)

dispatch_transfer_order-restores_example :
    dispatch_transfer_order json collates refuse 20000 approved_db dispatch_input
    ≡ (approved_db, err (posting_failed (posting_error ErrorCode.insufficient_stock 409)))
dispatch_transfer_order-restores_example =
    dispatch_transfer_order-restores json collates refuse 20000 approved_db dispatch_input
      dispatch_prepared refl refl

receive_transfer_order-restores_example :
    receive_transfer_order json refuse dispatched_tables receive_input
    ≡ (dispatched_tables, err (posting_failed (posting_error ErrorCode.insufficient_stock 409)))
unfolding text_eq
receive_transfer_order-restores_example =
    receive_transfer_order-restores json refuse dispatched_tables receive_input receipt_prepared
      refl refl

balances-IsSound : All IsSound stock.balances
balances-IsSound = ((omega arith, omega arith), tt)

dispatch_posting-balances_example :
    (on_hand_at 1 9 dispatched_stock.balances
      ≡ on_hand_at 1 9 prepared_db.stock.balances
        -ℤ sent_at 1 9 approved_order ((order_line, 9) ∷ []))
    × (reserved_at 1 9 dispatched_stock.balances ≡ reserved_at 1 9 prepared_db.stock.balances)
dispatch_posting-balances_example =
    dispatch_posting-balances request_hash (process 77) dependencies json prepared_db.stock
      dispatch_plan dispatch_input dispatch_posted refl balances-IsSound 1 9

sent-IsSound : All IsSound dispatched_stock.balances
sent-IsSound = ((omega arith, omega arith), tt)

receipt_posting-balances_example :
    (on_hand_at 2 9 received_stock.balances
      ≡ on_hand_at 2 9 receiving_db.stock.balances
        +ℤ arrived_at 2 9 dispatched_order receipt_plan.resolved)
    × (reserved_at 2 9 received_stock.balances ≡ reserved_at 2 9 receiving_db.stock.balances)
unfolding text_eq
receipt_posting-balances_example =
    receipt_posting-balances request_hash (process 78) dependencies json receiving_db.stock
      receipt_plan receive_input receipt_posted refl sent-IsSound 2 9

prepare_receipt-IsWithin_example :
    All IsWithin receipt_plan.resolved
    × (map (λ (r : ReceiptLine). r.line) receipt_plan.resolved
        ≡ fetch_lines dispatched_tables.lines 21)
prepare_receipt-IsWithin_example =
    prepare_receipt-IsWithin dispatched_tables receive_input receipt_prepared

resolve_and_validate_lines-bounds_example :
    (1 ≤ 1)
    × (1 ≤ 200)
    × All IsExact (resolved_line ∷ [])
    × (map (λ (r : ResolvedLine). r.line_no) (resolved_line ∷ []) ≡ numbers 1 1)
resolve_and_validate_lines-bounds_example =
    resolve_and_validate_lines-bounds stock (two_kg ∷ []) lines_resolved

abbrev cancel_input : CancelInput
cancel_input = record {
  caller = checker;
  order_id = 21;
  expected_version = 3;
  cancel_reason = codes "late";
}

abbrev cancelled_order : TransferOrder
cancelled_order = record approved_order {
  status = cancelled;
  version = 4;
  cancelled_by = some 6;
  cancel_reason = some (codes "late");
}

abbrev cancelled_db : TransferDb
cancelled_db = record prepared_db {
  orders = cancelled_order ∷ [];
  audits = audit 6 11 transfer_order_cancelled ∷ prepared_db.audits;
}

cancelled_meanwhile :
    cancel_transfer_order prepared_db cancel_input
    ≡ ok ((cancelled_order, order_line ∷ []), cancelled_db)
unfolding cancel_transfer_order open_order lock_order update_current fetch_lines
    authorize_transfer_actor permitted_role normalize_role outlet_scope_for_role
    assert_location_in_scope trim
cancelled_meanwhile = refl

answer_dispatch-cancelled_example :
    answer_dispatch json cancelled_db dispatch_input dispatch_plan
      (ok (dispatch_answer, dispatched_stock))
    ≡ (record cancelled_db { stock = dispatched_stock }, err changed_meanwhile)
answer_dispatch-cancelled_example =
    answer_dispatch-cancelled json prepared_db cancelled_db cancel_input
      (cancelled_order, order_line ∷ []) dispatch_input dispatch_plan dispatch_answer
      dispatched_stock (refl, tt) cancelled_meanwhile refl

lot_selected : select_fefo_lot collates stock 20000 3 1 (pos 2000000) ≡ ok 9
unfolding select_fefo_lot candidates_of insert_candidate goes_before ◌-ℤ◌ text_lt
lot_selected = refl

select_fefo_lot-IsFirst_example :
    (c : Candidate) × Mem c (candidates_of collates stock.lots 3 (1 ∷ []) none 20000 stock.balances)
    × (9 ≡ c.lot_id)
    × (leb_ℤ (pos 2000000) (free_quantity stock.balances c) ≡ true)
    × All
        (IsFirst stock.balances (pos 2000000) c)
        (candidates_of collates stock.lots 3 (1 ∷ []) none 20000 stock.balances)
select_fefo_lot-IsFirst_example =
    select_fefo_lot-IsFirst collates stock 20000 3 1 (pos 2000000) lot_selected

dispatch_transfer_order-finishes_example :
    (after : TransferDb) × (o : TransferOrder) × (dispatch_transfer_order json collates
        (posting_service 77)
        20000
        approved_db
        dispatch_input
      ≡ (after, ok (o, fetch_lines after.lines o.id)))
    × IsDispatchOf dispatch_plan o
    × (find? (λ x. x.id == o.id) after.orders ≡ some o)
    × (after.stock ≡ dispatched_stock)
    × (map line_of dispatch_plan.resolved ≡ fetch_lines approved_db.lines 21)
    × All (HoldsDispatch json dispatched_stock.ledger 77 after.lines) dispatch_plan.resolved
unfolding fetch_lines
dispatch_transfer_order-finishes_example =
    dispatch_transfer_order-finishes json collates (posting_service 77) 20000 approved_db
      dispatch_input dispatch_answer dispatched_stock dispatch_prepared dispatch_posted
      ((record { posting_id = 77; line = dispatch_line; metadata = 1 ∷ 1 ∷ [] }, refl), tt) refl
      (refl, tt) (refl, tt)

abbrev cancelled_early : TransferDb
cancelled_early = record cancelled_db { stock = stock }

run_all-final_example :
    find?
      (λ o. o.id == 21)
      (run_all json collates
        (posting_service 77)
        20000
        cancelled_early
        (Call.submit submit_input ∷ dispatch dispatch_input ∷ [])).orders
    ≡ some cancelled_order
run_all-final_example =
    run_all-final json collates (posting_service 77) 20000 cancelled_early
      (Call.submit submit_input ∷ dispatch dispatch_input ∷ []) 21 cancelled_order (tt, (tt, tt))
      refl refl
