-- ===== src/Transfers/Phases/Balances.antt =====
-- The posting of a dispatch and of a receipt in src/modules/transfers/service.ts, made by the posting
-- service of src/modules/stock: what it does to the balances.
use ckitchen_backend.Prelude.{
  ℕ, ◌^◌, ◌≡◌, refl, sym, ap, ◌∙◌, Bool, true, false, ◌&&◌, none, List, [], ◌∷◌, ◌++◌, map, codes,
  find?, ◌==◌, if◌then◌else◌, ok, ok-injective, All, arith,
}
use ckitchen_backend.Prelude.Int.{ℤ, pos, neg, ◌+ℤ◌, ◌-ℤ◌}
use ckitchen_backend.Stock.Decimal.{parse_fixed}
use ckitchen_backend.Stock.Decimal.RoundTrip.{parse_fixed-format_fixed}
use ckitchen_backend.Stock.Types.{stock_out, stock_in, Movement, PostingResult, Db}
use ckitchen_backend.Stock.Canonical.{Plan, normalize_movement}
use ckitchen_backend.Stock.Locks.Rows.{IsSound, on_hand_at, reserved_at}
use ckitchen_backend.Stock.Ledger.Plan.{net_at}
use ckitchen_backend.Stock.Posting.{Env, Dependencies, has_key, execute_posting}
use ckitchen_backend.Stock.Posting.Conservation.{execute_posting-balances}
use ckitchen_backend.Stock.Posting.Runs.{execute_posting-eq-ok}
use ckitchen_backend.Stock.Posting.Nets.{normalize_each, canonical_movements-net}
use ckitchen_backend.Transfers.Types.{TransferOrder, TransferOrderLine, VersionInput, ReceiveInput}
use ckitchen_backend.Transfers.Posted.{LineMetadata}
use ckitchen_backend.Transfers.Dispatch.{DispatchPlan, out_movement, dispatch_posting}
use ckitchen_backend.Transfers.Receipt.{ReceiptPlan, ReceiptLine}
use ckitchen_backend.Transfers.Receive.{in_movement, receipt_posting}

-- The base quantities of the plan's lines that leave a warehouse in a lot.
abbrev pub sent_at : ℕ → ℕ → TransferOrder → List (TransferOrderLine × ℕ) → ℤ
sent_at w l order [] = pos 0
sent_at w l order ((line, lot) ∷ lines) =
    (if order.source_warehouse_id == w && lot == l then line.base_quantity else pos 0)
    +ℤ sent_at w l order lines

-- The quantities of the receipt's lines that arrive at a warehouse in a lot.
abbrev pub arrived_at : ℕ → ℕ → TransferOrder → List ReceiptLine → ℤ
arrived_at w l order [] = pos 0
arrived_at w l order (r ∷ lines) =
    (if order.destination_warehouse_id == w && (r.line).lot_id == l
      then r.received_quantity
      else pos 0)
    +ℤ arrived_at w l order lines

out_move : (json : LineMetadata) → TransferOrder → TransferOrderLine → ℕ → Movement
out_move json order line lot = record {
  warehouse_id = order.source_warehouse_id;
  item_id = line.item_id;
  lot_id = lot;
  movement_type = stock_out;
  quantity = line.base_quantity;
  entered_quantity = line.entered_quantity;
  entered_uom = line.entered_uom;
  conversion_factor = line.conversion_factor;
  unit_cost = pos 0;
  reason_code = none;
  source_policy = none;
  metadata = json.text_of line.id line.line_no;
}

zero_cost : parse_fixed (codes "0") 6 ≡ ok (pos 0)
unfolding parse_fixed
zero_cost = refl

normalize_movement-out :
    (json : LineMetadata) (order : TransferOrder) (line : TransferOrderLine) (lot : ℕ)
    → normalize_movement (out_movement json order (line, lot)) ≡ ok (out_move json order line lot)
unfolding normalize_movement out_move
normalize_movement-out json order line lot =
    let q = parse_fixed-format_fixed line.base_quantity 6 (omega arith) in
    let e = parse_fixed-format_fixed line.entered_quantity 6 (omega arith) in
    let f = parse_fixed-format_fixed line.conversion_factor 8 (omega arith) in
    rw (q, e, f, zero_cost) refl

leaves :
    (b : Bool) (q s : ℤ)
    → (if b then neg q else pos 0) +ℤ (pos 0 -ℤ s) ≡ pos 0 -ℤ ((if b then q else pos 0) +ℤ s)
unfolding ◌+ℤ◌ ◌-ℤ◌
leaves true q s = ground arith
leaves false q s = ground arith

nothing_left : pos 0 ≡ pos 0 -ℤ pos 0
unfolding ◌-ℤ◌
nothing_left = refl

taken_off : (a s : ℤ) → a +ℤ (pos 0 -ℤ s) ≡ a -ℤ s
unfolding ◌+ℤ◌ ◌-ℤ◌
taken_off a s = ground arith

normalize_each-out :
    (json : LineMetadata) (order : TransferOrder) (lines : List (TransferOrderLine × ℕ))
    → (ns : List Movement) × (normalize_each (map (out_movement json order) lines) ≡ ok ns)
      × ((w l : ℕ) → net_at w l ns ≡ pos 0 -ℤ sent_at w l order lines)
unfolding normalize_each net_at out_move
normalize_each-out json order [] = ([], refl, λ w l. nothing_left)
normalize_each-out json order ((line, lot) ∷ lines) =
    let (ns, ns_eq, nets) = normalize_each-out json order lines in
    (
      out_move json order line lot ∷ ns,
      rw (normalize_movement-out json order line lot, ns_eq) refl,
      λ w l.
          let here = order.source_warehouse_id == w && lot == l in
          ap (λ x. (if here then neg line.base_quantity else pos 0) +ℤ x) (nets w l)
          ∙ leaves here line.base_quantity (sent_at w l order lines),
    )

in_move : (json : LineMetadata) → TransferOrder → ReceiptLine → Movement
in_move json order r = record {
  warehouse_id = order.destination_warehouse_id;
  item_id = (r.line).item_id;
  lot_id = (r.line).lot_id;
  movement_type = stock_in;
  quantity = r.received_quantity;
  entered_quantity = r.received_quantity;
  entered_uom = r.unit;
  conversion_factor = pos (10 ^ 8);
  unit_cost = pos 0;
  reason_code = none;
  source_policy = none;
  metadata = json.text_of (r.line).id (r.line).line_no;
}

normalize_movement-in :
    (json : LineMetadata) (order : TransferOrder) (r : ReceiptLine)
    → normalize_movement (in_movement json order r) ≡ ok (in_move json order r)
unfolding normalize_movement in_move
normalize_movement-in json order r =
    let q = parse_fixed-format_fixed r.received_quantity 6 (omega arith) in
    let f = parse_fixed-format_fixed (pos (10 ^ 8)) 8 (omega arith) in rw (q, f, zero_cost) refl

normalize_each-in :
    (json : LineMetadata) (order : TransferOrder) (lines : List ReceiptLine)
    → (ns : List Movement) × (normalize_each (map (in_movement json order) lines) ≡ ok ns)
      × ((w l : ℕ) → net_at w l ns ≡ arrived_at w l order lines)
unfolding normalize_each net_at in_move
normalize_each-in json order [] = ([], refl, λ w l. refl)
normalize_each-in json order (r ∷ lines) =
    let (ns, ns_eq, nets) = normalize_each-in json order lines in
    (
      in_move json order r ∷ ns,
      rw (normalize_movement-in json order r, ns_eq) refl,
      λ w l.
          let here = order.destination_warehouse_id == w && (r.line).lot_id == l in
          ap (λ x. (if here then r.received_quantity else pos 0) +ℤ x) (nets w l),
    )

module _ (hash : Plan → ℕ) (env : Env) (deps : Dependencies) (json : LineMetadata) (db : Db)
    {result : PostingResult} {db' : Db} where
  -- When the posting service posts a dispatch, what a warehouse holds of a lot goes down by exactly
  -- the base quantities of the order's lines that leave it in that lot, and no reservation changes,
  -- if the key of the dispatch is new and the balances satisfy their check constraints.
  pub dispatch_posting-balances :
      (plan : DispatchPlan) (input : VersionInput)
      → execute_posting hash env deps db (dispatch_posting json plan input) ≡ ok (result, db')
      → find? (has_key (plan.order.document_no ++ codes ":DISPATCH")) db.postings ≡ none
      → All IsSound db.balances
      → (w l : ℕ)
      → (on_hand_at w l db'.balances
          ≡ on_hand_at w l db.balances -ℤ sent_at w l plan.order plan.resolved)
        × (reserved_at w l db'.balances ≡ reserved_at w l db.balances)
  unfolding dispatch_posting
  dispatch_posting-balances plan input h fresh sound w l =
      let posting = dispatch_posting json plan input in
      let run = execute_posting-eq-ok hash env deps db posting h in
      let (held, kept) =
        execute_posting-balances hash env deps db posting h fresh sound run.movements
          run.movements_eq w l in
      let (ns, ns_eq, same) = canonical_movements-net posting run.movements run.movements_eq in
      let (ns', ns'_eq, nets) = normalize_each-out json plan.order plan.resolved in
      let ns_same : ns ≡ ns' = ok-injective (sym ns_eq ∙ ns'_eq) in
      (
        held
            ∙ ap (λ x. on_hand_at w l db.balances +ℤ x)
                (same w l ∙ ap (net_at w l) ns_same ∙ nets w l)
            ∙ taken_off (on_hand_at w l db.balances) (sent_at w l plan.order plan.resolved),
        kept,
      )

  -- When the posting service posts a receipt, what a warehouse holds of a lot goes up by exactly the
  -- received quantities of the order's lines that arrive there in that lot, and no reservation
  -- changes, if the key of the receipt is new and the balances satisfy their check constraints.
  pub receipt_posting-balances :
      (plan : ReceiptPlan) (input : ReceiveInput)
      → execute_posting hash env deps db (receipt_posting json plan input) ≡ ok (result, db')
      → find? (has_key (plan.order.document_no ++ codes ":RECEIVE")) db.postings ≡ none
      → All IsSound db.balances
      → (w l : ℕ)
      → (on_hand_at w l db'.balances
          ≡ on_hand_at w l db.balances +ℤ arrived_at w l plan.order plan.resolved)
        × (reserved_at w l db'.balances ≡ reserved_at w l db.balances)
  unfolding receipt_posting
  receipt_posting-balances plan input h fresh sound w l =
      let posting = receipt_posting json plan input in
      let run = execute_posting-eq-ok hash env deps db posting h in
      let (held, kept) =
        execute_posting-balances hash env deps db posting h fresh sound run.movements
          run.movements_eq w l in
      let (ns, ns_eq, same) = canonical_movements-net posting run.movements run.movements_eq in
      let (ns', ns'_eq, nets) = normalize_each-in json plan.order plan.resolved in
      let ns_same : ns ≡ ns' = ok-injective (sym ns_eq ∙ ns'_eq) in
      (
        held
            ∙ ap (λ x. on_hand_at w l db.balances +ℤ x)
                (same w l ∙ ap (net_at w l) ns_same ∙ nets w l),
        kept,
      )
