-- ===== src/Transfers/Reads.antt =====
-- src/modules/transfers/service.ts: get and list.
use ckitchen_backend.Prelude.{
  ℕ, Bool, true, ◌&&◌, ◌||◌, not, Option, none, some, List, [], ◌∷◌, ◌++◌, Text, trim, is_empty,
  select, find?, take, drop, ◌==◌, Result, ok, ◌>>=◌, ◌>>◌, throw_if, or_throw,
}
use ckitchen_backend.Transfers.Types.{
  ◌is◌, TransferError, transfer_error, unauthorized, not_found, TransferOrder, TransferDb, Caller,
  ListInput, OrderWithLines,
}
use ckitchen_backend.Transfers.Guards.{
  transfer_roles, authorize_transfer_actor, is_out_of_scope, fetch_lines,
}

unfoldable pub get_transfer_order : TransferDb → Caller → ℕ → Result TransferError OrderWithLines
unfolding fetch_lines
get_transfer_order db caller id = do
  actor ← authorize_transfer_actor db.stock caller transfer_roles
  order ← or_throw (find? (λ o. o.id == id) db.orders) (transfer_error not_found 404)
  throw_if
      (is_out_of_scope actor.allowed_location_ids order.source_location_id
        && is_out_of_scope actor.allowed_location_ids order.destination_location_id)
      (transfer_error unauthorized 403)
  ok (order, fetch_lines db.lines order.id)

-- `ILIKE` of the database, on a text and a pattern, is a parameter.
module _ (ilike : Text → Text → Bool) where
  abbrev pub is_listed : Option (List ℕ) → ListInput → TransferOrder → Bool
  is_listed allowed input o =
      not (
        is_out_of_scope allowed o.source_location_id
        && is_out_of_scope allowed o.destination_location_id)
      && (input.source_location_id == 0 || o.source_location_id == input.source_location_id)
      && (input.destination_location_id == 0
          || o.destination_location_id == input.destination_location_id)
      && elim input.status [ none ↦ true | some s ↦ o.status is s ]
      && (is_empty (trim input.search)
          || ilike o.document_no (b'%' ∷ (trim input.search ++ (b'%' ∷ []))))

  unfoldable pub list_transfer_orders :
      TransferDb → ListInput → Result TransferError (List TransferOrder)
  list_transfer_orders db input = do
    actor ← authorize_transfer_actor db.stock input.caller transfer_roles
    let rows = drop input.offset (select (is_listed actor.allowed_location_ids input) db.orders)
    ok (elim input.limit [ none ↦ rows | some n ↦ take n rows ])
