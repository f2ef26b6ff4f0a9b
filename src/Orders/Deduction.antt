-- ===== src/Orders/Deduction.antt =====
-- src/modules/orders/service.ts: what an order deducts from its kitchen when it goes to PREPARING,
-- and what a cancellation puts back; src/modules/inventory/ledger.ts, `postLedger`.
use ckitchen_backend.Prelude.{
  ℕ, Bool, true, false, ◌&&◌, none, some, List, [], ◌∷◌, ◌++◌, map, any, find?, select,
  update_where, length, ◌==◌, if◌then◌else◌, Result, ok, ◌>>=◌, or_throw,
}
use ckitchen_backend.Prelude.Int.{pos}
use ckitchen_backend.Orders.Types.{
  OrderError, plain_error, Doubles, Order, Component, OrderItem, Kitchen, StockRow, LogRow,
  LedgerSource, order_deduction, restock, LedgerEntry, OrderDb,
}

abbrev source_rank : LedgerSource → ℕ
source_rank order_deduction = 0
source_rank restock = 1

-- `postLedger`: `onConflictDoNothing` on the source, the document and the line.
unfoldable pub post_ledger : LedgerEntry → List LedgerEntry → List LedgerEntry
post_ledger e entries =
    if any
      (λ f.
        source_rank f.source == source_rank e.source
        && f.document == e.document
        && f.line == e.line)
      entries
    then entries
    else e ∷ entries

abbrev pub is_stock : ℕ → ℕ → StockRow → Bool
is_stock w i s = s.warehouse_id == w && s.ingredient_id == i

-- The outlet of an order, and its KITCHEN warehouse.
unfoldable pub kitchen_of : OrderDb → Order → Result OrderError Kitchen
kitchen_of db order = do
  location ←
      if order.location_id == 0
      then or_throw (find? (λ b. b.id == order.brand_id) db.brands) plain_error
        >>= (λ b. ok b.location_id)
      else ok order.location_id
  or_throw (find? (λ k. k.location_id == location) db.kitchens) plain_error

-- The recipe that an item is made by: its snapshot if the flag is on and there is one.
unfoldable pub components_of : OrderDb → OrderItem → List Component
components_of db item =
    let live =
      map (λ l. l.component) (select (λ l. l.menu_item_id == item.menu_item_id) db.recipe_lines) in
    if db.snapshot_flag
    then elim item.component_snapshot [ none ↦ live | some components ↦ components ]
    else live

module _ (n : Doubles) where
  -- `deductByIngredient`, in insertion order.
  abbrev pub Amounts : Type 0
  Amounts = List (ℕ × n.D)

  unfoldable pub add_amount : ℕ → n.D → Amounts → Amounts
  add_amount i x [] = (i, n.plus n.zero_number x) ∷ []
  add_amount i x ((j, y) ∷ amounts) =
      let rest = add_amount i x amounts in
      if j == i then (j, n.plus y x) ∷ amounts else (j, y) ∷ rest

  unfoldable pub add_components : ℕ → List Component → Amounts → Amounts
  unfolding add_amount
  add_components qty [] amounts = amounts
  add_components qty (c ∷ cs) amounts =
      add_components qty cs
        (add_amount c.ingredient_id (n.times (n.number c.portion_qty) qty) amounts)

  unfoldable pub add_items : OrderDb → List OrderItem → Amounts → Amounts
  unfolding add_components components_of
  add_items db [] amounts = amounts
  add_items db (item ∷ items) amounts =
      add_items db items (add_components item.qty (components_of db item) amounts)

  unfoldable pub deductions : OrderDb → ℕ → Amounts
  unfolding add_items
  deductions db order_id = add_items db (select (λ i. i.order_id == order_id) db.items) []

  -- The rows that are created at 0.
  unfoldable pub missing_rows : ℕ → Amounts → List StockRow → List StockRow
  missing_rows w [] stock = []
  missing_rows w ((i, x) ∷ amounts) stock =
      let rest = missing_rows w amounts stock in
      if any (is_stock w i) stock
      then rest
      else record { warehouse_id = w; ingredient_id = i; quantity = pos 0 } ∷ rest

  unfoldable pub subtract_all : ℕ → Amounts → List StockRow → List StockRow
  subtract_all w [] stock = stock
  subtract_all w ((i, x) ∷ amounts) stock =
      subtract_all w amounts
        (update_where (is_stock w i) (λ s. record s { quantity = n.subtracted s.quantity x }) stock)

  unfoldable pub post_deductions : ℕ → ℕ → ℕ → Amounts → List LedgerEntry → List LedgerEntry
  unfolding post_ledger
  post_deductions order_id user w [] entries = entries
  post_deductions order_id user w ((i, x) ∷ amounts) entries =
      post_deductions order_id user w amounts (
        post_ledger
          (record {
            source = order_deduction;
            document = order_id;
            line = i;
            ingredient_id = i;
            warehouse_id = w;
            is_in = false;
            quantity = n.stored x;
            encoder = user;
          })
          entries)

  abbrev pub log_row : ℕ → ℕ → ℕ → ℕ × n.D → LogRow
  log_row order_id user w (i, x) = record {
    ingredient_id = i;
    quantity = n.stored x;
    logged_by = user;
    order_id = order_id;
    warehouse_id = some w;
  }

  -- The writes of the deduction, under `ingredientIds.length > 0`.
  unfoldable pub apply_deductions : ℕ → ℕ → ℕ → Amounts → OrderDb → OrderDb
  unfolding missing_rows subtract_all post_deductions
  apply_deductions order_id user w amounts db = if length amounts == 0 then db else record db {
    stock = subtract_all w amounts (missing_rows w amounts db.stock ++ db.stock);
    ledger = post_deductions order_id user w amounts db.ledger;
    logs = map (log_row order_id user w) amounts ++ db.logs;
  }

  -- `restockByWarehouseIngredient`
  abbrev pub Restocks : Type 0
  Restocks = List (ℕ × ℕ × n.D)

  unfoldable pub add_restock : ℕ → ℕ → n.D → Restocks → Restocks
  add_restock w i x [] = (w, i, n.plus n.zero_number x) ∷ []
  add_restock w i x ((v, j, y) ∷ restocks) =
      let rest = add_restock w i x restocks in
      if v == w && j == i then (v, j, n.plus y x) ∷ restocks else (v, j, y) ∷ rest

  -- A row that names no warehouse goes to the order's kitchen.
  unfoldable pub restocks_of : OrderDb → Order → List LogRow → Restocks → Result OrderError Restocks
  unfolding add_restock kitchen_of
  restocks_of db order [] restocks = ok restocks
  restocks_of db order (row ∷ rows) restocks = do
    w ← elim row.warehouse_id [ none ↦ kitchen_of db order >>= (λ k. ok k.id) | some w ↦ ok w ]
    restocks_of db order rows (add_restock w row.ingredient_id (n.number row.quantity) restocks)

  unfoldable pub add_all : Restocks → List StockRow → List StockRow
  add_all [] stock = stock
  add_all ((w, i, x) ∷ restocks) stock =
      add_all restocks
        (update_where (is_stock w i) (λ s. record s { quantity = n.added s.quantity x }) stock)

  unfoldable pub post_restocks : ℕ → Restocks → List LedgerEntry → List LedgerEntry
  unfolding post_ledger
  post_restocks order_id [] entries = entries
  post_restocks order_id ((w, i, x) ∷ restocks) entries = post_restocks order_id restocks (
      post_ledger
        (record {
          source = restock;
          document = order_id;
          line = i;
          ingredient_id = i;
          warehouse_id = w;
          is_in = true;
          quantity = n.stored x;
          encoder = 0;
        })
        entries)
