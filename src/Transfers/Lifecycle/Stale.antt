-- ===== src/Transfers/Lifecycle/Stale.antt =====
-- Two calls of src/modules/transfers/service.ts that were made on the same version of an order.
use ckitchen_backend.Prelude.{
  ℕ, ◌+◌, ◌≡◌, refl, sym, ap, subst, ◌∙◌, Bool, true, some, List, find?, find?-update_where,
  some_eq, updated, map_option, ◌==◌, ==_iff, if◌then◌else◌, Result, ok, err, find?-holds, arith,
}
use ckitchen_backend.Auth.Roles.{Role}
use ckitchen_backend.Stock.Guards.{Actor}
use ckitchen_backend.Transfers.Types.{
  TransferStatus, ◌is◌, TransferOrder, TransferDb, Caller, UpdateInput, VersionInput, CancelInput,
  OrderWithLines, TransferError,
}
use ckitchen_backend.Transfers.Updates.{is_current_transfer}
use ckitchen_backend.Transfers.Lifecycle.{
  edited, submitted_by, approved_by_actor, cancelled_by_actor, update_transfer_order_draft,
  submit_transfer_order, approve_transfer_order, cancel_transfer_order,
}
use ckitchen_backend.Transfers.Lifecycle.Runs.{
  Change, update_transfer_order_draft-Change, submit_transfer_order-Change,
  approve_transfer_order-Change, cancel_transfer_order-Change,
}

-- The calls that carry the version that their caller has seen, and move the order themselves.
pub data Edit : Type 0 where
  update_draft : (ℕ → ℕ) → UpdateInput → Edit
  submit approve : VersionInput → Edit
  cancel : CancelInput → Edit

abbrev pub edit_order : Edit → ℕ
edit_order (update_draft new_id input) = input.order_id
edit_order (submit input) = input.order_id
edit_order (approve input) = input.order_id
edit_order (cancel input) = input.order_id

abbrev pub edit_version : Edit → ℕ
edit_version (update_draft new_id input) = input.expected_version
edit_version (submit input) = input.expected_version
edit_version (approve input) = input.expected_version
edit_version (cancel input) = input.expected_version

unfoldable pub run_edit : TransferDb → Edit → Result TransferError (OrderWithLines × TransferDb)
run_edit db (update_draft new_id input) = update_transfer_order_draft new_id db input
run_edit db (submit input) = submit_transfer_order db input
run_edit db (approve input) = approve_transfer_order db input
run_edit db (cancel input) = cancel_transfer_order db input

-- What an edit that returns has found, and the version that it leaves.
record Bumped (db db' : TransferDb) (id version : ℕ) : Type 0 where
  order : TransferOrder
  found : find? (λ o. o.id == id) db.orders ≡ some order
  version_eq : order.version ≡ version
  after : TransferOrder
  after_found : find? (λ o. o.id == id) db'.orders ≡ some after
  after_version : after.version ≡ version + 1

is_current_transfer-true :
    (id version : ℕ) (status : TransferStatus) (o : TransferOrder)
    → (o.id == id) ≡ true
    → (o.status is status) ≡ true
    → (o.version == version) ≡ true
    → is_current_transfer id status version o ≡ true
is_current_transfer-true id version status o a b c = rw (a, b, c)

-- The order that a change leaves.
pub change-found :
    {db db' : TransferDb} {caller : Caller} {id version : ℕ} {roles : List Role}
    {accepts : TransferStatus → Bool} (change : Actor → TransferOrder → TransferOrder)
    → ((a : Actor) (o : TransferOrder) → (change a o).id ≡ o.id)
    → (c : Change db db' caller id version roles accepts change)
    → find? (λ o. o.id == id) db'.orders ≡ some (change c.actor c.order)
change-found {db} {db'} {id = id} {version} change keeps c =
    let o = c.order in
    let current =
      is_current_transfer-true id version c.status o
        (find?-holds (λ o. o.id == id) db.orders c.found) c.status_eq c.version_eq in
    ap (find? (λ o. o.id == id)) c.orders_eq
    ∙ find?-update_where (is_current_transfer id c.status version) (λ o. o.id == id)
        (change c.actor) (λ x. ap (λ i. i == id) (keeps c.actor x)) db.orders
    ∙ ap (map_option (updated (is_current_transfer id c.status version) (change c.actor))) c.found
    ∙ ap (λ b. some (if b then change c.actor o else o)) current

change-Bumped :
    {db db' : TransferDb} {caller : Caller} {id version : ℕ} {roles : List Role}
    {accepts : TransferStatus → Bool} (change : Actor → TransferOrder → TransferOrder)
    → ((a : Actor) (o : TransferOrder)
        → ((change a o).id ≡ o.id) × ((change a o).version ≡ o.version + 1))
    → Change db db' caller id version roles accepts change
    → Bumped db db' id version
change-Bumped {db} {db'} {id = id} {version} change does c =
    let same_version = (==_iff (c.order).version version).0 c.version_eq in
    record {
      order = c.order;
      found = c.found;
      version_eq = same_version;
      after = change c.actor c.order;
      after_found = change-found change (λ a o. (does a o).0) c;
      after_version = (does c.actor c.order).1 ∙ ap (λ v. v + 1) same_version;
    }

run_edit-Bumped :
    (db db' : TransferDb) (edit : Edit) (answer : OrderWithLines)
    → run_edit db edit ≡ ok (answer, db')
    → Bumped db db' (edit_order edit) (edit_version edit)
unfolding run_edit
run_edit-Bumped db db' (update_draft new_id input) answer h =
    change-Bumped (λ _. edited input.remarks) (λ a o. (refl, refl))
      (update_transfer_order_draft-Change new_id input h)
run_edit-Bumped db db' (submit input) answer h =
    change-Bumped (λ a. submitted_by a.id) (λ a o. (refl, refl))
      (submit_transfer_order-Change input h)
run_edit-Bumped db db' (approve input) answer h =
    change-Bumped (λ a. approved_by_actor a.id) (λ a o. (refl, refl))
      (approve_transfer_order-Change input h).0
run_edit-Bumped db db' (cancel input) answer h =
    change-Bumped (λ a. cancelled_by_actor a.id input.cancel_reason) (λ a o. (refl, refl))
      (cancel_transfer_order-Change input h)

-- Of two edits, submissions, approvals or cancellations of an order that were made on the same
-- version, the second throws once the first is done.
pub run_edit-stale :
    (db db' : TransferDb) (first second : Edit) (answer : OrderWithLines)
    → edit_order first ≡ edit_order second
    → edit_version first ≡ edit_version second
    → run_edit db first ≡ ok (answer, db')
    → (e : TransferError) × (run_edit db' second ≡ err e)
run_edit-stale db db' first second answer same_order same_version h =
    outcome (run_edit db' second) refl
  where
    a : Bumped db db' (edit_order first) (edit_version first)
    a = run_edit-Bumped db db' first answer h

    outcome :
        (r : Result TransferError (OrderWithLines × TransferDb))
        → run_edit db' second ≡ r
        → (e : TransferError) × (run_edit db' second ≡ err e)
    outcome (err e) g = (e, g)
    outcome (ok (other, db'')) g =
        let b = run_edit-Bumped db' db'' second other g in
        let found =
          subst (λ i. find? (λ o. o.id == i) db'.orders ≡ some a.after) same_order a.after_found in
        let same : a.after ≡ b.order = some_eq (sym found ∙ b.found) in
        let clash : edit_version first + 1 ≡ edit_version first =
          sym a.after_version
          ∙ ap (λ (o : TransferOrder). o.version) same
          ∙ b.version_eq
          ∙ sym same_version in
        absurd (next_differs (edit_version first) clash)
      where
        next_differs : (n : ℕ) → n + 1 ≡ n → ⊥
        next_differs n h = omega (arith, h)
