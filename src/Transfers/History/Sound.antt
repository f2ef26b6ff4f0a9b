-- ===== src/Transfers/History/Sound.antt =====
-- What holds of the transfer orders in every state that src/modules/transfers/service.ts can reach.
use ckitchen_backend.Prelude.{
  ℕ, zero, suc, ap, ◌∙◌, Option, ◌≡◌, refl, sym, subst, Bool, true, false, ◌&&◌, some, List, find?,
  map, update_where, ◌==◌, ==_iff, All, Text, HasDistinct, keys-update_where, update_found-All,
  update_where-All,
}
use ckitchen_backend.Auth.Roles.{Role}
use ckitchen_backend.Stock.Guards.{Actor}
use ckitchen_backend.Transfers.Types.{
  TransferStatus, draft, submitted, approved, dispatched, received, cancelled, transfer_rank, ◌is◌,
  TransferOrder, TransferDb, Caller,
}
use ckitchen_backend.Transfers.Posted.{LineMetadata}
use ckitchen_backend.Transfers.Updates.{is_current_transfer}
use ckitchen_backend.Transfers.Lifecycle.{
  edited, submitted_by, is_by, approved_by_actor, cancelled_by_actor,
}
use ckitchen_backend.Transfers.Dispatch.{dispatched_by_plan}
use ckitchen_backend.Transfers.Receive.{received_by_plan}
use ckitchen_backend.Transfers.Lifecycle.Runs.{
  Change, update_transfer_order_draft-Change, submit_transfer_order-Change,
  approve_transfer_order-Change, cancel_transfer_order-Change,
}
use ckitchen_backend.Transfers.Lifecycle.Created.{
  create_transfer_order_draft-Created, resolve_header_route-differ,
}
use ckitchen_backend.Transfers.Phases.Finishes.{finish_dispatch-Finished, finish_receipt-Finished}
use ckitchen_backend.Transfers.History.{
  Step, creates, updates, submits, approves, cancels, stocks, finishes_dispatch, finishes_receipt,
  Reach, here, next,
}

-- Who asked for an order and who let it go.
abbrev pub HasParties : TransferOrder → Type 0
HasParties o =
    (r : ℕ) × (a : ℕ) × (o.requested_by ≡ some r) × (o.approved_by ≡ some a) × ((a == r) ≡ false)

-- What an order has at each status.
abbrev pub IsOrderAt : TransferStatus → TransferOrder → Type 0
IsOrderAt draft o = Unit
IsOrderAt submitted o = (r : ℕ) × (o.requested_by ≡ some r)
IsOrderAt approved o = HasParties o
IsOrderAt dispatched o = HasParties o × ((d : Text × Text) × (o.dispatch_document_id ≡ some d))
IsOrderAt received o =
    HasParties o
    × ((d : Text × Text) × (o.dispatch_document_id ≡ some d))
    × ((d : Text × Text) × (o.receipt_document_id ≡ some d))
IsOrderAt cancelled o = (c : ℕ) × (o.cancelled_by ≡ some c)

abbrev pub IsSoundOrder : TransferOrder → Type 0
IsSoundOrder o =
    ((o.source_warehouse_id == o.destination_warehouse_id) ≡ false) × IsOrderAt o.status o

abbrev pub AreSound : TransferDb → Type 0
AreSound db = HasDistinct (map (λ (o : TransferOrder). o.id) db.orders) × All IsSoundOrder db.orders

of_rank : ℕ → TransferStatus
of_rank zero = draft
of_rank (suc zero) = submitted
of_rank (suc (suc zero)) = approved
of_rank (suc (suc (suc zero))) = dispatched
of_rank (suc (suc (suc (suc zero)))) = received
of_rank (suc (suc (suc (suc (suc n))))) = cancelled

of_rank-transfer_rank : (s : TransferStatus) → of_rank (transfer_rank s) ≡ s
unfolding of_rank
of_rank-transfer_rank draft = refl
of_rank-transfer_rank submitted = refl
of_rank-transfer_rank approved = refl
of_rank-transfer_rank dispatched = refl
of_rank-transfer_rank received = refl
of_rank-transfer_rank cancelled = refl

-- A status that passes the test for another is that one.
pub is-eq : (s t : TransferStatus) → (s is t) ≡ true → s ≡ t
is-eq s t h =
    sym (of_rank-transfer_rank s)
    ∙ ap of_rank ((==_iff (transfer_rank s) (transfer_rank t)).0 h)
    ∙ of_rank-transfer_rank t

module _ (id version : ℕ) (from : TransferStatus) (o : TransferOrder)
    (current : is_current_transfer id from version o ≡ true) where
  pub is_current_transfer-id : (o.id == id) ≡ true
  is_current_transfer-id = first (o.id == id) (o.status is from) _ current
    where
      first : (a b c : Bool) → (a && b && c) ≡ true → a ≡ true
      first true b c h = refl
      first false b c h = h

  pub is_current_transfer-status : o.status ≡ from
  is_current_transfer-status =
      is-eq o.status from (second (o.id == id) (o.status is from) _ current)
    where
      second : (a b c : Bool) → (a && b && c) ≡ true → b ≡ true
      second true true c h = refl
      second true false c h = h
      second false true c h = refl
      second false false c h = h

  -- What is known of an order at the status that an update requires.
  at_from : IsSoundOrder o → IsOrderAt from o
  at_from s = subst (λ t. IsOrderAt t o) is_current_transfer-status s.1

edited-IsSoundOrder :
    (id version : ℕ) (remarks : Option (Option Text)) (o : TransferOrder)
    → is_current_transfer id draft version o ≡ true
    → IsSoundOrder o
    → IsSoundOrder (edited remarks o)
edited-IsSoundOrder id version remarks o c s = (
  s.0,
  subst (λ t. IsOrderAt t (edited remarks o))
      (sym (is_current_transfer-status id version draft o c)) tt,
)

approved-IsSoundOrder :
    (id version actor : ℕ) (o : TransferOrder)
    → is_by actor o.requested_by ≡ false
    → is_current_transfer id submitted version o ≡ true
    → IsSoundOrder o
    → IsSoundOrder (approved_by_actor actor o)
approved-IsSoundOrder id version actor o other c s =
    let (r, r_eq) = at_from id version submitted o c s in
    (s.0, (r, actor, r_eq, refl, rw r_eq at other))

approve-AreSound :
    (db db' : TransferDb) (id version actor : ℕ) {order : TransferOrder}
    → find? (λ o. o.id == id) db.orders ≡ some order
    → is_by actor order.requested_by ≡ false
    → db'.orders
      ≡ update_where (is_current_transfer id submitted version) (approved_by_actor actor) db.orders
    → AreSound db
    → AreSound db'
approve-AreSound db db' id version actor {order} found other same s =
    subst (λ os. HasDistinct (map (λ (o : TransferOrder). o.id) os) × All IsSoundOrder os)
      (sym same)
      (
        subst HasDistinct
            (sym (
              keys-update_where (λ (o : TransferOrder). o.id)
                (is_current_transfer id submitted version) (approved_by_actor actor) (λ o. refl)
                db.orders))
            s.0,
        update_found-All (λ (o : TransferOrder). o.id) IsSoundOrder
            (is_current_transfer id submitted version) (approved_by_actor actor) id
            (is_current_transfer-id id version submitted) db.orders s.0 found
            (approved-IsSoundOrder id version actor order other) s.1,
      )

-- An update keeps the orders sound when it keeps every row sound that it changes.
update-AreSound :
    (db db' : TransferDb) (id version : ℕ) (from : TransferStatus)
    (change : TransferOrder → TransferOrder)
    → ((o : TransferOrder) → (change o).id ≡ o.id)
    → ((o : TransferOrder)
        → is_current_transfer id from version o ≡ true
        → IsSoundOrder o
        → IsSoundOrder (change o))
    → db'.orders ≡ update_where (is_current_transfer id from version) change db.orders
    → AreSound db
    → AreSound db'
update-AreSound db db' id version from change keeps step same s =
    subst (λ os. HasDistinct (map (λ (o : TransferOrder). o.id) os) × All IsSoundOrder os)
      (sym same)
      (
        subst HasDistinct
            (sym (
              keys-update_where (λ (o : TransferOrder). o.id) (is_current_transfer id from version)
                change keeps db.orders))
            s.0,
        update_where-All IsSoundOrder (is_current_transfer id from version) change step db.orders
            s.1,
      )

-- The orders after a change that one status allows.
pub orders_from :
    {db db' : TransferDb} {caller : Caller} {id version : ℕ} {roles : List Role}
    {change : Actor → TransferOrder → TransferOrder} (from : TransferStatus)
    (c : Change db db' caller id version roles (λ s. s is from) change)
    → db'.orders ≡ update_where (is_current_transfer id from version) (change c.actor) db.orders
orders_from {db} {db'} {id = id} {version} {change = change} from c =
    subst
      (λ t. db'.orders ≡ update_where (is_current_transfer id t version) (change c.actor) db.orders)
      (sym (is-eq (c.order).status c.status c.status_eq) ∙ is-eq (c.order).status from c.accepted)
      c.orders_eq

module _ (json : LineMetadata) where
  pub Step-AreSound : {db db' : TransferDb} → Step json db db' → AreSound db → AreSound db'
  Step-AreSound {db} {db'} (creates fresh input answer new h) s =
      let c = create_transfer_order_draft-Created fresh input h in
      let differ = resolve_header_route-differ db.stock _ _ c.route_eq in
      subst (λ os. HasDistinct (map (λ (o : TransferOrder). o.id) os) × All IsSoundOrder os)
        (sym c.orders_eq) ((new, s.0), ((differ, tt), s.1))
  Step-AreSound {db} {db'} (updates new_id input answer h) s =
      let c = update_transfer_order_draft-Change new_id input h in
      update-AreSound db db' input.order_id input.expected_version draft (edited input.remarks)
        (λ o. refl) (edited-IsSoundOrder input.order_id input.expected_version input.remarks)
        (orders_from draft c) s
  Step-AreSound {db} {db'} (submits input answer h) s =
      let c = submit_transfer_order-Change input h in
      let actor = c.actor in
      update-AreSound db db' input.order_id input.expected_version draft (submitted_by actor.id)
        (λ o. refl) (λ o _ sound. (sound.0, (actor.id, refl))) (orders_from draft c) s
  Step-AreSound {db} {db'} (approves input answer h) s =
      let (c, other) = approve_transfer_order-Change input h in
      approve-AreSound db db' input.order_id input.expected_version (c.actor).id c.found other
        (orders_from submitted c) s
  Step-AreSound {db} {db'} (cancels input answer h) s =
      let c = cancel_transfer_order-Change input h in
      let actor = c.actor in
      update-AreSound db db' input.order_id input.expected_version c.status
        (cancelled_by_actor actor.id input.cancel_reason) (λ o. refl)
        (λ o _ sound. (sound.0, (actor.id, refl))) c.orders_eq s
  Step-AreSound (stocks stock same) s = subst AreSound (sym same) s
  Step-AreSound {db} {db'} (finishes_dispatch input plan posting answer h) s =
      let f = finish_dispatch-Finished json input plan posting h in
      let id = (plan.order).id in
      let version = input.expected_version in
      update-AreSound db db' id version approved (dispatched_by_plan plan) (λ o. refl)
        (λ o now sound. (sound.0, (at_from id version approved o now sound, (plan.document, refl))))
        f.orders_eq s
  Step-AreSound {db} {db'} (finishes_receipt input plan posting answer h) s =
      let f = finish_receipt-Finished json input plan posting h in
      let id = (plan.order).id in
      let version = input.expected_version in
      update-AreSound db db' id version dispatched (received_by_plan plan) (λ o. refl)
        (λ o now sound.
          let (parties, sent) = at_from id version dispatched o now sound in
          (sound.0, (parties, sent, (plan.document, refl))))
        f.orders_eq s

  -- However the transactions of the service follow each other, and whatever else happens to the
  -- stock between the phases of a dispatch or a receipt, the order ids stay distinct, no order goes
  -- from a warehouse to itself, a submitted order has a submitter, an order that was approved,
  -- dispatched or received has a submitter and an approver who are not the same user, a dispatched
  -- one has its dispatch document, a received one both documents, and a cancelled one its canceller.
  pub Reach-AreSound : {db db' : TransferDb} → Reach json db db' → AreSound db → AreSound db'
  Reach-AreSound here s = s
  Reach-AreSound (next r step) s = Step-AreSound step (Reach-AreSound r s)
