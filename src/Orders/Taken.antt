-- ===== src/Orders/Taken.antt =====
-- What an advance takes from the stock, and logs.
use ckitchen_backend.Prelude.{
  ℕ, suc, ◌≡◌, refl, subst, sym, ap, ◌∙◌, Bool, true, false, not, ◌&&◌, List, [], ◌∷◌, ◌++◌, map,
  any, find?, find?-holds, select, length, ◌==◌, ==_iff, if◌then◌else◌, arith, All, ok,
  ok-injective, >>=-eq-ok, throw_if-eq-ok, or_throw-eq-ok,
}
use ckitchen_backend.Orders.Types.{
  Doubles, Order, OrderStatus, preparing, cancelled, same_status, OrderItem, OrderDb,
}
use ckitchen_backend.Orders.Deduction.{
  kitchen_of, Amounts, add_items, components_of, deductions, missing_rows, subtract_all, log_row,
  apply_deductions,
}
use ckitchen_backend.Orders.Lifecycle.{next_stage, stamp, move_order, deduct, advance_order}
use ckitchen_backend.Orders.Quantities.{IsExact, ReadsBack}
use ckitchen_backend.Orders.Distinct.{AreDistinct, deductions-AreDistinct}

module _ (n : Doubles) where
  -- What an operation took from the stock of a warehouse, and logged for an order.
  pub record Taken (id user w : ℕ) (amounts : Amounts n) (db db' : OrderDb) : Type 0 where
    pub exact : All (IsExact n) amounts
    pub reads : All (ReadsBack n) amounts
    pub distinct : AreDistinct n amounts
    pub stock_eq :
        db'.stock ≡ subtract_all n w amounts (missing_rows n w amounts db.stock ++ db.stock)
    pub logs_eq : db'.logs ≡ map (log_row n id user w) amounts ++ db.logs

  nothing-Taken :
      (id user : ℕ) (db db' : OrderDb)
      → db'.stock ≡ db.stock
      → db'.logs ≡ db.logs
      → Taken id user 0 [] db db'
  unfolding subtract_all missing_rows
  nothing-Taken id user db db' s l = record {
    exact = tt;
    reads = tt;
    distinct = tt;
    stock_eq = s;
    logs_eq = l;
  }

  apply_deductions-stock :
      (id user w : ℕ) (amounts : Amounts n) (db : OrderDb)
      → (apply_deductions n id user w amounts db).stock
        ≡ subtract_all n w amounts (missing_rows n w amounts db.stock ++ db.stock)
  unfolding apply_deductions subtract_all missing_rows
  apply_deductions-stock id user w [] db = refl
  apply_deductions-stock id user w (a ∷ amounts) db =
      let t : (suc (length amounts) == 0) ≡ false = ground arith in rw t

  apply_deductions-logs :
      (id user w : ℕ) (amounts : Amounts n) (db : OrderDb)
      → (apply_deductions n id user w amounts db).logs
        ≡ map (log_row n id user w) amounts ++ db.logs
  unfolding apply_deductions
  apply_deductions-logs id user w [] db = refl
  apply_deductions-logs id user w (a ∷ amounts) db =
      let t : (suc (length amounts) == 0) ≡ false = ground arith in rw t

  -- What an order deducts does not depend on the orders' stages.
  add_items-moved :
      (db : OrderDb) (orders : List Order) (items : List OrderItem) (amounts : Amounts n)
      → add_items n (record db { orders = orders }) items amounts ≡ add_items n db items amounts
  unfolding add_items components_of
  add_items-moved db orders [] amounts = refl
  add_items-moved db orders (item ∷ items) amounts = add_items-moved db orders items _

  deductions-moved :
      (db : OrderDb) (orders : List Order) (id : ℕ)
      → deductions n (record db { orders = orders }) id ≡ deductions n db id
  unfolding deductions
  deductions-moved db orders id =
      add_items-moved db orders (select (λ i. i.order_id == id) db.items) []

  deduct-Taken :
      (user : ℕ) (order : Order) (db : OrderDb) (orders : List Order) {db' : OrderDb}
      → All (IsExact n) (deductions n db order.id)
      → All (ReadsBack n) (deductions n db order.id)
      → deduct n user order (record db { orders = orders }) ≡ ok db'
      → (w : ℕ) × (amounts : Amounts n) × Taken order.id user w amounts db db'
  unfolding deduct
  deduct-Taken user order db orders exact reads h =
      let moved = record db { orders = orders } in
      let (kitchen, _, h₁) = >>=-eq-ok (kitchen_of moved order) _ h in
      let amounts = deductions n moved order.id in
      let same = deductions-moved db orders order.id in
      let done = ok-injective h₁ in
      (
        kitchen.id,
        amounts,
        record {
          exact = rw same exact;
          reads = rw same reads;
          distinct = deductions-AreDistinct n moved order.id;
          stock_eq =
              ap (λ (d : OrderDb). d.stock) (sym done)
              ∙ apply_deductions-stock order.id user kitchen.id amounts moved;
          logs_eq =
              ap (λ (d : OrderDb). d.logs) (sym done)
              ∙ apply_deductions-logs order.id user kitchen.id amounts moved;
        },
      )

  pub move_order-eq-ok :
      (id : ℕ) (status : OrderStatus) (change : Order → Order) (db : OrderDb) {db' : OrderDb}
      → move_order id status change db ≡ ok db'
      → (orders : List Order) × (db' ≡ record db { orders = orders })
  unfolding move_order
  move_order-eq-ok id status change db h =
      let (_, h₁) =
        throw_if-eq-ok
          (not (any (λ (o : Order). o.id == id && same_status o.status status) db.orders)) _ _ h in
      (_, sym (ok-injective h₁))

  last_step-Taken :
      (user id : ℕ) (order : Order) (db : OrderDb) (orders : List Order) (deducts : Bool)
      {moved db' : OrderDb}
      → All (IsExact n) (deductions n db id)
      → All (ReadsBack n) (deductions n db id)
      → order.id ≡ id
      → moved ≡ record db { orders = orders }
      → (if deducts then deduct n user order moved else ok moved) ≡ ok db'
      → (w : ℕ) × (amounts : Amounts n) × Taken id user w amounts db db'
  last_step-Taken user id order db orders true {db' = db'} exact reads own written h =
      subst (λ i. (w : ℕ) × (amounts : Amounts n) × Taken i user w amounts db db') own
        (deduct-Taken user order db orders (rw own exact) (rw own reads) (rw written at h))
  last_step-Taken user id order db orders false {db' = db'} exact reads own written h =
      let same : db' ≡ record db { orders = orders } = ok-injective (sym h) ∙ written in
      (
        0,
        [],
        nothing-Taken id user db db' (ap (λ (d : OrderDb). d.stock) same)
            (ap (λ (d : OrderDb). d.logs) same),
      )

  pub advance_order-Taken :
      (read : OrderDb) (id user now : ℕ) (db : OrderDb) {db' : OrderDb}
      → All (IsExact n) (deductions n db id)
      → All (ReadsBack n) (deductions n db id)
      → advance_order n read id user now db ≡ ok db'
      → (w : ℕ) × (amounts : Amounts n) × Taken id user w amounts db db'
  unfolding advance_order
  advance_order-Taken read id user now db {db'} exact reads h =
      let (order, found, h₁) = or_throw-eq-ok (find? (λ o. o.id == id) read.orders) _ _ h in
      let (_, h₂) = throw_if-eq-ok (same_status order.status cancelled) _ _ h₁ in
      let (next, _, h₃) = >>=-eq-ok (next_stage order.status) _ h₂ in
      let (moved, moved_eq, h₄) = >>=-eq-ok (move_order id order.status (stamp next now) db) _ h₃ in
      let (orders, written) = move_order-eq-ok id order.status (stamp next now) db moved_eq in
      let own : order.id ≡ id =
        (==_iff order.id id).0 (find?-holds (λ (o : Order). o.id == id) read.orders found) in
      last_step-Taken user id order db orders (same_status next preparing) exact reads own written
        h₄
