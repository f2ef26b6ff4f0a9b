-- ===== src/Transfers/Spec/Refines.antt =====
-- The calls of src/modules/transfers/service.ts refine the specification of an order.
use ckitchen_backend.Prelude.{
  ℕ, ◌+◌, ◌≡◌, refl, sym, ap, subst, ◌∙◌, true, some, List, Text, find?, find?-holds,
  find?-update_where, some_eq, update_where, updated, map_option, ◌==◌, ==_iff, if◌then◌else◌,
  Result, ok, err, inl, inr, Bool-cases,
}
use ckitchen_backend.Auth.Roles.{Role}
use ckitchen_backend.Stock.Guards.{Actor}
use ckitchen_backend.Transfers.Types.{
  TransferStatus, draft, submitted, approved, dispatched, received, cancelled, ◌is◌, TransferOrder,
  TransferDb, Caller, OrderWithLines, TransferError,
}
use ckitchen_backend.Transfers.Updates.{is_current_transfer}
use ckitchen_backend.Transfers.Lifecycle.{is_before_dispatch, cancelled_by_actor}
use ckitchen_backend.Transfers.Lifecycle.Runs.{Change}
use ckitchen_backend.Transfers.History.Sound.{
  is_current_transfer-id, is_current_transfer-status, orders_from,
}
use ckitchen_backend.Transfers.Spec.{
  Moves, edits, drops_draft, drops_submitted, drops_approved, Advances, route, committed,
}

-- Every order that was there is there, and has made at most one step.
abbrev pub Refines : TransferDb → TransferDb → Type 0
Refines db db' =
    (id : ℕ) (o : TransferOrder)
    → find? (λ o. o.id == id) db.orders ≡ some o
    → (o' : TransferOrder) × (find? (λ o. o.id == id) db'.orders ≡ some o') × Advances o o'

pub same-Refines : (db db' : TransferDb) → db'.orders ≡ db.orders → Refines db db'
same-Refines db db' same id o found =
    (o, subst (λ os. find? (λ o. o.id == id) os ≡ some o) (sym same) found, inl refl)

-- A conditional update of the row that a query by its id finds.
update-Refines :
    (db db' : TransferDb) (k version : ℕ) (from : TransferStatus)
    (change : TransferOrder → TransferOrder)
    → ((o : TransferOrder) → (change o).id ≡ o.id)
    → ((o : TransferOrder)
        → find? (λ o. o.id == k) db.orders ≡ some o
        → is_current_transfer k from version o ≡ true
        → Advances o (change o))
    → db'.orders ≡ update_where (is_current_transfer k from version) change db.orders
    → Refines db db'
update-Refines db db' k version from change keeps step same id o found =
    elim (Bool-cases (is_current_transfer k from version o)) [
      | inl e ↦ (
        change o,
        subst (λ b. Left (if b then change o else o)) e after,
        step o (subst (λ i. find? (λ o. o.id == i) db.orders ≡ some o) (key e) found) e,
      )
      | inr e ↦ (o, subst (λ b. Left (if b then change o else o)) e after, inl refl)
    ]
  where
    Left : TransferOrder → Type 0
    Left o' = find? (λ o. o.id == id) db'.orders ≡ some o'

    after : Left (updated (is_current_transfer k from version) change o)
    after =
        ap (find? (λ o. o.id == id)) same
        ∙ find?-update_where (is_current_transfer k from version) (λ o. o.id == id) change
            (λ x. ap (λ i. i == id) (keeps x)) db.orders
        ∙ ap (map_option (updated (is_current_transfer k from version) change)) found

    key : is_current_transfer k from version o ≡ true → id ≡ k
    key e =
        sym ((==_iff o.id id).0 (find?-holds (λ o. o.id == id) db.orders found))
        ∙ (==_iff o.id k).0 (is_current_transfer-id k version from o e)

-- A move to a status, from the one that an update requires.
moved :
    (k version : ℕ) (from to : TransferStatus) (o : TransferOrder)
    → Moves from to
    → is_current_transfer k from version o ≡ true
    → Moves o.status to
moved k version from to o m e =
    subst (λ s. Moves s to) (sym (is_current_transfer-status k version from o e)) m

cancel-Moves : (s : TransferStatus) → is_before_dispatch s ≡ true → Moves s cancelled
cancel-Moves draft h = drops_draft
cancel-Moves submitted h = drops_submitted
cancel-Moves approved h = drops_approved
cancel-Moves dispatched h = cc
cancel-Moves received h = cc
cancel-Moves cancelled h = cc

pub committed-Refines :
    (db : TransferDb) (r : Result TransferError (OrderWithLines × TransferDb))
    → ((answer : OrderWithLines) (db' : TransferDb) → r ≡ ok (answer, db') → Refines db db')
    → Refines db (committed db r)
committed-Refines db (ok (answer, db')) step = step answer db' refl
committed-Refines db (err e) step = same-Refines db db refl

module _ {db db' : TransferDb} {caller : Caller} {id version : ℕ} {roles : List Role} where
  pub change-Refines :
      (from to : TransferStatus) (change : Actor → TransferOrder → TransferOrder)
      → ((a : Actor) (o : TransferOrder) → (change a o).id ≡ o.id)
      → ((a : Actor) (o : TransferOrder)
          → Moves o.status to
          → is_current_transfer id from version o ≡ true
          → Advances o (change a o))
      → Moves from to
      → Change db db' caller id version roles (λ s. s is from) change
      → Refines db db'
  change-Refines from to change keeps step m c =
      update-Refines db db' id version from (change c.actor) (keeps c.actor)
        (λ o _ e. step c.actor o (moved id version from to o m e) e) (orders_from from c)

  pub edit-Refines :
      (change : Actor → TransferOrder → TransferOrder)
      → ((a : Actor) (o : TransferOrder) → (change a o).id ≡ o.id)
      → ((a : Actor) (o : TransferOrder) → Moves o.status o.status → Advances o (change a o))
      → Change db db' caller id version roles (λ s. s is draft) change
      → Refines db db'
  edit-Refines change keeps step c =
      update-Refines db db' id version draft (change c.actor) (keeps c.actor)
        (λ o _ e.
          step c.actor o
            (subst (λ s. Moves s s) (sym (is_current_transfer-status id version draft o e)) edits))
        (orders_from draft c)

  pub cancel-Refines :
      (reason : Text)
      → Change db db' caller id version roles is_before_dispatch
          (λ a. cancelled_by_actor a.id reason)
      → Refines db db'
  cancel-Refines reason c =
      let actor = c.actor in
      update-Refines db db' id version c.status (cancelled_by_actor actor.id reason) (λ o. refl)
        (λ o found _.
          let same : c.order ≡ o = some_eq (sym c.found ∙ found) in
          inr (
            cancel-Moves o.status
                (subst (λ (x : TransferOrder). is_before_dispatch x.status ≡ true) same c.accepted),
            refl,
            refl,
          ))
        c.orders_eq

-- The order that a query finds is the one that a query by its id finds.
same_order :
    (orders : List TransferOrder) (k : ℕ) (a o : TransferOrder)
    → find? (λ o. o.id == k) orders ≡ some a
    → find? (λ o. o.id == a.id) orders ≡ some o
    → a ≡ o
same_order orders k a o first again =
    let key = (==_iff a.id k).0 (find?-holds (λ o. o.id == k) orders first) in
    some_eq (sym first ∙ subst (λ i. find? (λ o. o.id == i) orders ≡ some o) key again)

-- The end of a dispatch or a receipt: the plan's order is the row that it updates.
pub conclude-Refines :
    (db db' : TransferDb) (k version : ℕ) (from to : TransferStatus) (order : TransferOrder)
    (change : TransferOrder → TransferOrder)
    → Moves from to
    → find? (λ o. o.id == k) db.orders ≡ some order
    → ((o : TransferOrder)
        → ((change o).id ≡ o.id)
          × ((change o).status ≡ to)
          × ((change o).version ≡ order.version + 1)
          × (route (change o) ≡ route o))
    → db'.orders ≡ update_where (is_current_transfer order.id from version) change db.orders
    → Refines db db'
conclude-Refines db db' k version from to order change m found does same =
    update-Refines db db' order.id version from change (λ o. (does o).0)
      (λ o again e.
        let (_, to_eq, version_eq, route_eq) = does o in
        inr (
          subst (Moves o.status) (sym to_eq) (moved order.id version from to o m e),
          version_eq
              ∙ ap (λ (x : TransferOrder). x.version + 1)
                  (same_order db.orders k order o found again),
          route_eq,
        ))
      same
