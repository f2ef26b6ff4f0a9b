-- ===== src/Orders/Cancellation.antt =====
-- A cancellation puts back what the order's advance took.
use ckitchen_backend.Prelude.{
  ℕ, suc, ◌≡◌, refl, sym, ap, ◌∙◌, true, false, List, [], ◌∷◌, ◌++◌, map, Text, trim, find?,
  find?-holds, select, length, ltb, ◌==◌, ==_iff, if◌then◌else◌, arith, All, Result, ok,
  ok-injective, >>=-eq-ok, throw_if-eq-ok, or_throw-eq-ok,
}
use ckitchen_backend.Orders.Types.{
  Doubles, Order, cancelled, completed, same_status, OrderError, LogRow, OrderDb,
}
use ckitchen_backend.Orders.Deduction.{
  Amounts, deductions, missing_rows, subtract_all, log_row, restocks_of, add_all,
}
use ckitchen_backend.Orders.Lifecycle.{
  move_order, release, advance_order, restock_order, cancel_order,
}
use ckitchen_backend.Orders.Quantities.{
  stock_at, IsExact, ReadsBack, restock_entry, deduct-then-restock,
}
use ckitchen_backend.Orders.Distinct.{AreDistinct, restocks_of-logged}
use ckitchen_backend.Orders.Taken.{move_order-eq-ok, advance_order-Taken}

-- The log row is not of the order.
abbrev pub IsOther : ℕ → LogRow → Type 0
IsOther id r = (r.order_id == id) ≡ false

none_of_others :
    (id : ℕ) (rows : List LogRow) → All (IsOther id) rows → select (λ r. r.order_id == id) rows ≡ []
none_of_others id [] other = refl
none_of_others id (r ∷ rows) other = rw other.0 (none_of_others id rows other.1)

module _ (n : Doubles) where
  select_logged :
      (id user w : ℕ) (amounts : Amounts n) (rows : List LogRow)
      → All (IsOther id) rows
      → select (λ r. r.order_id == id) (map (log_row n id user w) amounts ++ rows)
        ≡ map (log_row n id user w) amounts
  select_logged id user w [] rows other = none_of_others id rows other
  select_logged id user w (a ∷ amounts) rows other =
      let t : (id == id) ≡ true = (==_iff id id).1 refl in
      rw (t, select_logged id user w amounts rows other)

  apart_from_none : (w : ℕ) (amounts : Amounts n) → All (λ (a : ℕ × n.D). Unit {0}) amounts
  apart_from_none w [] = tt
  apart_from_none w (a ∷ amounts) = (tt, apart_from_none w amounts)

  -- The last step of a restock: the writes, unless there is nothing to restock.
  written-stock :
      (w id user : ℕ) (amounts : Amounts n) (db changed : OrderDb) (rows : List LogRow)
      {db' : OrderDb}
      → rows ≡ map (log_row n id user w) amounts
      → changed.stock ≡ add_all n (map (restock_entry n w) amounts) db.stock
      → if◌then◌else◌ {A = Result OrderError OrderDb} (length rows == 0) (ok db) (ok changed)
        ≡ ok db'
      → db'.stock ≡ add_all n (map (restock_entry n w) amounts) db.stock
  unfolding add_all
  written-stock w id user [] db changed rows e stock_eq h =
      ap (λ (d : OrderDb). d.stock) (sym (ok-injective (rw e at h)))
  written-stock w id user (a ∷ amounts) db changed rows e stock_eq h =
      let t : (length rows == 0) ≡ false = rw e (not_zero (map (log_row n id user w) amounts)) in
      ap (λ (d : OrderDb). d.stock) (sym (ok-injective (rw t at h))) ∙ stock_eq
    where
      not_zero : (ys : List LogRow) → (suc (length ys) == 0) ≡ false
      not_zero ys = ground arith

  restock_order-stock :
      (order : Order) (id user w : ℕ) (amounts : Amounts n) (rows : List LogRow) (db : OrderDb)
      {db' : OrderDb}
      → order.id ≡ id
      → AreDistinct n amounts
      → db.logs ≡ map (log_row n id user w) amounts ++ rows
      → All (IsOther id) rows
      → restock_order n order db ≡ ok db'
      → db'.stock ≡ add_all n (map (restock_entry n w) amounts) db.stock
  unfolding restock_order
  restock_order-stock order id user w amounts rows db {db'} own distinct logged other h =
      let logs = select (λ (r : LogRow). r.order_id == order.id) db.logs in
      let logs_eq : logs ≡ map (log_row n id user w) amounts =
        rw (own, logged, select_logged id user w amounts rows other) in
      let (restocks, restocks_eq, h₁) = >>=-eq-ok (restocks_of n db order logs []) _ h in
      let entries : restocks ≡ map (restock_entry n w) amounts = ok-injective (
        sym restocks_eq
        ∙ ap (λ l. restocks_of n db order l []) logs_eq
        ∙ restocks_of-logged n db order id user w amounts [] distinct
            (apart_from_none w amounts)) in
      written-stock w id user amounts db _ logs logs_eq (rw entries) h₁

  -- Cancelling an order right after it was advanced leaves the stock of every ingredient at every
  -- warehouse as it was before the advance, when no consumption was logged for the order before, the
  -- database subtracts from a balance what it would store of each amount that is deducted, and a
  -- stored amount that is read and added again is what was stored.
  pub cancel_order-after-advance :
      (read read' : OrderDb) (id user now : ℕ) (reason : Text) (db db' db″ : OrderDb)
      → advance_order n read id user now db ≡ ok db'
      → cancel_order n read' id reason db' ≡ ok db″
      → All (IsOther id) db.logs
      → All (IsExact n) (deductions n db id)
      → All (ReadsBack n) (deductions n db id)
      → (w i : ℕ) → stock_at w i db″.stock ≡ stock_at w i db.stock
  unfolding cancel_order
  cancel_order-after-advance read read' id user now reason db db' db″ advanced h other exact reads w
        i =
      let (v, amounts, taken) = advance_order-Taken n read id user now db exact reads advanced in
      let (_, h₁) = throw_if-eq-ok (length (trim reason) == 0) _ _ h in
      let (_, h₂) = throw_if-eq-ok (ltb 500 (length (trim reason))) _ _ h₁ in
      let (order, found, h₃) = or_throw-eq-ok (find? (λ o. o.id == id) read'.orders) _ _ h₂ in
      let (_, h₄) = throw_if-eq-ok (same_status order.status cancelled) _ _ h₃ in
      let (_, h₅) = throw_if-eq-ok (same_status order.status completed) _ _ h₄ in
      let (moved, moved_eq, h₆) = >>=-eq-ok (move_order id order.status _ db') _ h₅ in
      let (orders, written) = move_order-eq-ok n id order.status _ db' moved_eq in
      let own : order.id ≡ id =
        (==_iff order.id id).0 (find?-holds (λ (o : Order). o.id == id) read'.orders found) in
      let restored : db″.stock ≡ add_all n (map (restock_entry n v) amounts) moved.stock =
        restock_order-stock order id user v amounts db.logs (release id moved) own taken.distinct
          (ap (λ (d : OrderDb). d.logs) written ∙ taken.logs_eq) other h₆ in
      let before : moved.stock
          ≡ subtract_all n v amounts (missing_rows n v amounts db.stock ++ db.stock) =
        ap (λ (d : OrderDb). d.stock) written ∙ taken.stock_eq in
      ap (stock_at w i) (restored ∙ ap (add_all n (map (restock_entry n v) amounts)) before)
      ∙ deduct-then-restock n v w i amounts db.stock taken.exact taken.reads
