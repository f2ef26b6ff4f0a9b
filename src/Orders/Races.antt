-- ===== src/Orders/Races.antt =====
-- Two advances that read an order at the same stage.
use ckitchen_backend.Prelude.{
  ℕ, ◌≡◌, refl, sym, ap, ◌∙◌, Bool, true, false, not, ◌&&◌, ◌||◌, some, List, [], ◌∷◌, any, find?,
  update_where, length, ◌==◌, if◌then◌else◌, Bool-cases, inl, inr, ok, err, ok-injective, >>=-eq-ok,
  throw_if-eq-ok, or_throw-eq-ok,
}
use ckitchen_backend.Orders.Types.{
  Doubles, Order, OrderStatus, new, preparing, ready, completed, cancelled, same_status,
  conflict_error, OrderDb,
}
use ckitchen_backend.Orders.Deduction.{kitchen_of, Amounts, deductions, apply_deductions}
use ckitchen_backend.Orders.Lifecycle.{
  next_stage, is_current, stamp, move_order, deduct, advance_order,
}

-- A stage is left when it is advanced.
stage_left :
    (s t : OrderStatus) (now : ℕ) (o : Order)
    → next_stage s ≡ ok t
    → same_status (stamp t now o).status s ≡ false
unfolding next_stage
stage_left new t now o h = rw (← ok-injective h)
stage_left preparing t now o h = rw (← ok-injective h)
stage_left ready t now o h = rw (← ok-injective h)
stage_left completed t now o h = cc
stage_left cancelled t now o h = cc

none_current :
    (id now : ℕ) (s t : OrderStatus) (orders : List Order)
    → next_stage s ≡ ok t
    → any (is_current id s) (update_where (is_current id s) (stamp t now) orders) ≡ false
none_current id now s t [] h = refl
none_current id now s t (o ∷ orders) h =
    or_false (head (is_current id s o) refl) (none_current id now s t orders h)
  where
    and_false : (a : Bool) {b : Bool} → b ≡ false → (a && b) ≡ false
    and_false true e = e
    and_false false e = refl

    or_false : {a b : Bool} → a ≡ false → b ≡ false → (a || b) ≡ false
    or_false e f = cc

    head :
        (b : Bool)
        → is_current id s o ≡ b
        → is_current id s (if b then stamp t now o else o) ≡ false
    head true e = and_false ((stamp t now o).id == id) (stage_left s t now o h)
    head false e = e

module _ (n : Doubles) where
  apply_deductions-orders :
      (id user w : ℕ) (amounts : Amounts n) (db : OrderDb)
      → (apply_deductions n id user w amounts db).orders ≡ db.orders
  unfolding apply_deductions
  apply_deductions-orders id user w amounts db = elim (Bool-cases (length amounts == 0)) [
    | inl e ↦ rw e
    | inr e ↦ rw e
  ]

  last_step-orders :
      (user : ℕ) (order : Order) (deducts : Bool) (moved db' : OrderDb)
      → (if deducts then deduct n user order moved else ok moved) ≡ ok db'
      → db'.orders ≡ moved.orders
  unfolding deduct
  last_step-orders user order true moved db' h =
      let (kitchen, _, h₁) = >>=-eq-ok (kitchen_of moved order) _ h in
      ap (λ (d : OrderDb). d.orders) (sym (ok-injective h₁))
      ∙ apply_deductions-orders order.id user kitchen.id (deductions n moved order.id) moved
  last_step-orders user order false moved db' h =
      ap (λ (d : OrderDb). d.orders) (sym (ok-injective h))

  move_order-orders :
      (id : ℕ) (status : OrderStatus) (change : Order → Order) (db moved : OrderDb)
      → move_order id status change db ≡ ok moved
      → moved.orders ≡ update_where (is_current id status) change db.orders
  unfolding move_order
  move_order-orders id status change db moved h =
      let (_, h₁) = throw_if-eq-ok (not (any (is_current id status) db.orders)) _ _ h in
      ap (λ (d : OrderDb). d.orders) (sym (ok-injective h₁))

  move_order-conflict :
      (id : ℕ) (status : OrderStatus) (change : Order → Order) (db : OrderDb)
      → any (is_current id status) db.orders ≡ false
      → move_order id status change db ≡ err conflict_error
  unfolding move_order
  move_order-conflict id status change db h = rw h

  advance_order-refused :
      (read : OrderDb) (id user now : ℕ) (db : OrderDb) (order : Order) (next : OrderStatus)
      → find? (λ o. o.id == id) read.orders ≡ some order
      → same_status order.status cancelled ≡ false
      → next_stage order.status ≡ ok next
      → any (is_current id order.status) db.orders ≡ false
      → advance_order n read id user now db ≡ err conflict_error
  unfolding advance_order
  advance_order-refused read id user now db order next found open_order next_eq gone =
      let refused = move_order-conflict id order.status (stamp next now) db gone in
      rw (found, open_order, next_eq, refused)

  -- Of two advances that read an order at the same stage, the second throws a conflict once the first
  -- is done.
  pub advance_order-conflict :
      (read : OrderDb) (id user user' now now' : ℕ) (db db' : OrderDb)
      → advance_order n read id user now db ≡ ok db'
      → advance_order n read id user' now' db' ≡ err conflict_error
  unfolding advance_order
  advance_order-conflict read id user user' now now' db db' h =
      let (order, found, h₁) = or_throw-eq-ok (find? (λ o. o.id == id) read.orders) _ _ h in
      let (open_order, h₂) = throw_if-eq-ok (same_status order.status cancelled) _ _ h₁ in
      let (next, next_eq, h₃) = >>=-eq-ok (next_stage order.status) _ h₂ in
      let (moved, moved_eq, h₄) = >>=-eq-ok (move_order id order.status (stamp next now) db) _ h₃ in
      let orders : db'.orders
          ≡ update_where (is_current id order.status) (stamp next now) db.orders =
        last_step-orders user order (same_status next preparing) moved db' h₄
        ∙ move_order-orders id order.status (stamp next now) db moved moved_eq in
      let gone : any (is_current id order.status) db'.orders ≡ false =
        ap (any (is_current id order.status)) orders
        ∙ none_current id now order.status next db.orders next_eq in
      advance_order-refused read id user' now' db' order next found open_order next_eq gone
