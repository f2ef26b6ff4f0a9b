-- ===== src/Transfers/Lifecycle/Runs.antt =====
-- What an operation of src/modules/transfers/service.ts that returns has found, and what it has
-- done to the orders.
use ckitchen_backend.Prelude.{
  ℕ, ◌≡◌, refl, sym, ap, ◌∙◌, Bool, true, false, not, some, List, find?, update_where, length, trim,
  is_empty, ◌==◌, ok, not-eq-false, ok-injective, >>=-eq-ok, throw_if-eq-ok, or_throw-eq-ok,
}
use ckitchen_backend.Auth.Roles.{Role}
use ckitchen_backend.Stock.Guards.{Actor}
use ckitchen_backend.Transfers.Types.{
  TransferStatus, draft, submitted, ◌is◌, TransferOrder, TransferDb, Caller, UpdateInput,
  VersionInput, CancelInput, OrderWithLines,
}
use ckitchen_backend.Transfers.Guards.{
  transfer_roles, transfer_approve_roles, authorize_transfer_actor, assert_location_in_scope,
  resolve_header_route, lock_order, fetch_lines, is_out_of_scope,
}
use ckitchen_backend.Transfers.Updates.{is_current_transfer, update_current, open_order}
use ckitchen_backend.Transfers.Lifecycle.{
  edited, replace_lines, update_transfer_order_draft, submitted_by, submit_transfer_order, is_by,
  approved_by_actor, approve_transfer_order, is_before_dispatch, cancelled_by_actor,
  cancel_transfer_order,
}

-- An operation that opened an order and changed it.
pub record Change (db db' : TransferDb) (caller : Caller) (id version : ℕ) (roles : List Role)
    (accepts : TransferStatus → Bool) (change : Actor → TransferOrder → TransferOrder)
    : Type 0 where
  pub actor : Actor
  pub actor_eq : authorize_transfer_actor db.stock caller roles ≡ ok actor
  pub order : TransferOrder
  pub found : find? (λ o. o.id == id) db.orders ≡ some order
  pub in_scope : is_out_of_scope actor.allowed_location_ids order.source_location_id ≡ false
  pub accepted : accepts order.status ≡ true
  pub version_eq : (order.version == version) ≡ true
  pub status : TransferStatus
  pub status_eq : (order.status is status) ≡ true
  pub orders_eq :
      db'.orders ≡ update_where (is_current_transfer id status version) (change actor) db.orders

record Opened (db : TransferDb) (caller : Caller) (id version : ℕ) (roles : List Role)
    (accepts : TransferStatus → Bool) (actor : Actor) (order : TransferOrder) : Type 0 where
  actor_eq : authorize_transfer_actor db.stock caller roles ≡ ok actor
  found : find? (λ o. o.id == id) db.orders ≡ some order
  in_scope : is_out_of_scope actor.allowed_location_ids order.source_location_id ≡ false
  accepted : accepts order.status ≡ true
  version_eq : (order.version == version) ≡ true

open_order-eq-ok :
    (db : TransferDb) (caller : Caller) (id version : ℕ) (roles : List Role)
    (accepts : TransferStatus → Bool) {actor : Actor} {order : TransferOrder}
    → open_order db caller id version roles accepts ≡ ok (actor, order)
    → Opened db caller id version roles accepts actor order
unfolding open_order lock_order assert_location_in_scope
open_order-eq-ok db caller id version roles accepts {actor} {order} h =
    let (a, actor_eq, h₁) = >>=-eq-ok (authorize_transfer_actor db.stock caller roles) _ h in
    let (o, found, h₂) = or_throw-eq-ok (find? (λ o. o.id == id) db.orders) _ _ h₁ in
    let (scope, h₃) =
      throw_if-eq-ok (is_out_of_scope a.allowed_location_ids o.source_location_id) _ _ h₂ in
    let (accepted, h₄) = throw_if-eq-ok (not (accepts o.status)) _ _ h₃ in
    let (version_eq, h₅) = throw_if-eq-ok (not (o.version == version)) _ _ h₄ in
    opened (ok-injective h₅) actor_eq found scope (not-eq-false _ accepted)
      (not-eq-false _ version_eq)
  where
    opened :
        {a : Actor} {o : TransferOrder}
        → ◌≡◌ {A = Actor × TransferOrder} (a, o) (actor, order)
        → authorize_transfer_actor db.stock caller roles ≡ ok a
        → find? (λ o. o.id == id) db.orders ≡ some o
        → is_out_of_scope a.allowed_location_ids o.source_location_id ≡ false
        → accepts o.status ≡ true
        → (o.version == version) ≡ true
        → Opened db caller id version roles accepts actor order
    opened same e f s a v =
        let actor_eq = ap (λ (p : Actor × TransferOrder). p.0) same in
        let order_eq = ap (λ (p : Actor × TransferOrder). p.1) same in
        record {
          actor_eq = rw (← actor_eq) e;
          found = rw (← order_eq) f;
          in_scope = rw (← actor_eq, ← order_eq) s;
          accepted = rw (← order_eq) a;
          version_eq = rw (← order_eq) v;
        }

update_current-orders :
    (id : ℕ) (status : TransferStatus) (version : ℕ) (change : TransferOrder → TransferOrder)
    (db : TransferDb) {row : TransferOrder} {db' : TransferDb}
    → update_current id status version change db ≡ ok (row, db')
    → db'.orders ≡ update_where (is_current_transfer id status version) change db.orders
unfolding update_current
update_current-orders id status version change db h =
    let (row, _, h₁) =
      or_throw-eq-ok (find? (is_current_transfer id status version) db.orders) _ _ h in
    ap (λ (p : TransferOrder × TransferDb). (p.1).orders) (sym (ok-injective h₁))

is_refl : (s : TransferStatus) → (s is s) ≡ true
is_refl TransferStatus.draft = refl
is_refl TransferStatus.submitted = refl
is_refl TransferStatus.approved = refl
is_refl TransferStatus.dispatched = refl
is_refl TransferStatus.received = refl
is_refl TransferStatus.cancelled = refl

-- An opened order and the update that follows.
changed :
    (db db₁ db' : TransferDb) (caller : Caller) (id version : ℕ) (roles : List Role)
    (accepts : TransferStatus → Bool) (change : Actor → TransferOrder → TransferOrder)
    (actor : Actor) (order row : TransferOrder) (status : TransferStatus)
    → Opened db caller id version roles accepts actor order
    → (order.status is status) ≡ true
    → db₁.orders ≡ db.orders
    → update_current id status version (change actor) db₁ ≡ ok (row, db')
    → Change db db' caller id version roles accepts change
changed db db₁ db' caller id version roles accepts change actor order row status o s same h =
    record {
      actor = actor;
      actor_eq = o.actor_eq;
      order = order;
      found = o.found;
      in_scope = o.in_scope;
      accepted = o.accepted;
      version_eq = o.version_eq;
      status = status;
      status_eq = s;
      orders_eq =
          update_current-orders id status version (change actor) db₁ h
          ∙ ap (update_where (is_current_transfer id status version) (change actor)) same;
    }

-- An audit row changes no order.
change_orders :
    {db : TransferDb} {caller : Caller} {id version : ℕ} {roles : List Role}
    {accepts : TransferStatus → Bool} {change : Actor → TransferOrder → TransferOrder}
    (db₁ db' : TransferDb)
    → db₁.orders ≡ db'.orders
    → Change db db₁ caller id version roles accepts change
    → Change db db' caller id version roles accepts change
change_orders db₁ db' same c = record {
  actor = c.actor;
  actor_eq = c.actor_eq;
  order = c.order;
  found = c.found;
  in_scope = c.in_scope;
  accepted = c.accepted;
  version_eq = c.version_eq;
  status = c.status;
  status_eq = c.status_eq;
  orders_eq = sym same ∙ c.orders_eq;
}

module _ {db db' : TransferDb} {answer : OrderWithLines} where
  pub update_transfer_order_draft-Change :
      (new_id : ℕ → ℕ) (input : UpdateInput)
      → update_transfer_order_draft new_id db input ≡ ok (answer, db')
      → Change db db' input.caller input.order_id input.expected_version transfer_roles
          (λ s. s is draft)
          (λ _. edited input.remarks)
  unfolding update_transfer_order_draft
  update_transfer_order_draft-Change new_id input h =
      let ((actor, order), opened, h₁) = >>=-eq-ok (open_order db _ _ _ _ _) _ h in
      let o = open_order-eq-ok db _ _ _ _ _ opened in
      let (lines, _, h₂) = >>=-eq-ok (replace_lines new_id db input.order_id input.lines) _ h₁ in
      let ((row, db₂), moved, h₃) =
        >>=-eq-ok
          (update_current input.order_id draft input.expected_version (edited input.remarks)
            (record db { lines = lines }))
          _ h₂ in
      let same : db₂.orders ≡ db'.orders =
        ap (λ (p : OrderWithLines × TransferDb). (p.1).orders) (ok-injective h₃) in
      change_orders db₂ db' same (
        changed db (record db { lines = lines }) db₂ _ _ _ _ _ (λ _. edited input.remarks) actor
          order row draft o o.accepted refl moved)

  pub submit_transfer_order-Change :
      (input : VersionInput)
      → submit_transfer_order db input ≡ ok (answer, db')
      → Change db db' input.caller input.order_id input.expected_version transfer_roles
          (λ s. s is draft)
          (λ actor. submitted_by actor.id)
  unfolding submit_transfer_order
  submit_transfer_order-Change input h =
      let ((actor, order), opened, h₁) = >>=-eq-ok (open_order db _ _ _ _ _) _ h in
      let o = open_order-eq-ok db _ _ _ _ _ opened in
      let (_, h₂) = throw_if-eq-ok (length (fetch_lines db.lines order.id) == 0) _ _ h₁ in
      let (_, _, h₃) = >>=-eq-ok (resolve_header_route _ _ _) _ h₂ in
      let ((row, db₂), moved, h₄) =
        >>=-eq-ok
          (update_current input.order_id draft input.expected_version (submitted_by actor.id) db) _
          h₃ in
      let same : db₂.orders ≡ db'.orders =
        ap (λ (p : OrderWithLines × TransferDb). (p.1).orders) (ok-injective h₄) in
      change_orders db₂ db' same (
        changed db db db₂ _ _ _ _ _ (λ actor. submitted_by actor.id) actor order row draft o
          o.accepted refl moved)

  -- The approver is not the submitter.
  pub approve_transfer_order-Change :
      (input : VersionInput)
      → approve_transfer_order db input ≡ ok (answer, db')
      → (c : Change db db' input.caller input.order_id input.expected_version transfer_approve_roles
          (λ s. s is submitted)
          (λ actor. approved_by_actor actor.id))
        × (is_by (c.actor).id (c.order).requested_by ≡ false)
  unfolding approve_transfer_order change_orders changed
  approve_transfer_order-Change input h =
      let ((actor, order), opened, h₁) = >>=-eq-ok (open_order db _ _ _ _ _) _ h in
      let o = open_order-eq-ok db _ _ _ _ _ opened in
      let (other, h₂) = throw_if-eq-ok (is_by actor.id order.requested_by) _ _ h₁ in
      let ((row, db₂), moved, h₃) =
        >>=-eq-ok
          (update_current input.order_id submitted input.expected_version
            (approved_by_actor actor.id) db)
          _ h₂ in
      let same : db₂.orders ≡ db'.orders =
        ap (λ (p : OrderWithLines × TransferDb). (p.1).orders) (ok-injective h₃) in
      (
        change_orders db₂ db' same (
            changed db db db₂ _ _ _ _ _ (λ actor. approved_by_actor actor.id) actor order row
              submitted o o.accepted refl moved),
        other,
      )

  pub cancel_transfer_order-Change :
      (input : CancelInput)
      → cancel_transfer_order db input ≡ ok (answer, db')
      → Change db db' input.caller input.order_id input.expected_version transfer_roles
          is_before_dispatch
          (λ actor. cancelled_by_actor actor.id input.cancel_reason)
  unfolding cancel_transfer_order
  cancel_transfer_order-Change input h =
      let ((actor, order), opened, h₁) = >>=-eq-ok (open_order db _ _ _ _ _) _ h in
      let o = open_order-eq-ok db _ _ _ _ _ opened in
      let (_, h₂) = throw_if-eq-ok (is_empty (trim input.cancel_reason)) _ _ h₁ in
      let ((row, db₂), moved, h₃) =
        >>=-eq-ok
          (update_current input.order_id order.status input.expected_version
            (cancelled_by_actor actor.id input.cancel_reason) db)
          _ h₂ in
      let same : db₂.orders ≡ db'.orders =
        ap (λ (p : OrderWithLines × TransferDb). (p.1).orders) (ok-injective h₃) in
      change_orders db₂ db' same (
        changed db db db₂ _ _ _ _ _ (λ actor. cancelled_by_actor actor.id input.cancel_reason) actor
          order row order.status o (is_refl order.status) refl moved)
