-- ===== src/Stock/Route.antt =====
-- src/modules/stock/posting-service.ts, `validateRoute` and `isOutEligible`: which movements a
-- route class allows, and which lots may leave a warehouse.
pub mod Outlets
use ckitchen_backend.Prelude.{
  ℕ, Bool, true, false, ◌&&◌, ◌||◌, not, Option, none, some, List, [], ◌∷◌, map, any, all, find?,
  select, sorted_set, length, ltb, leb, ◌==◌, if◌then◌else◌, Result, ◌>>◌, throw_if,
}
use ckitchen_backend.Prelude.Int.{ℤ, pos, neg, ◌+ℤ◌, ◌==ℤ◌}
use ckitchen_backend.Stock.Types.{
  is_in, SourcePolicy, allocatable, custody_move, disposition, quarantine_release, quarantine_hold,
  has_policy, RouteClass, receive, order_deduction, adjustment, internal_transfer, hq_transfer,
  outlet_return_dispatch, return_disposition, qa_release, production_posting, opening_balance,
  Purpose, hq_main, outlet_storage, kitchen, production, quarantine, purpose_in, LotStatus,
  available, quarantined, expired, recalled, spoiled, disposed, exhausted, forbidden_route,
  PostingError, posting_error, Movement, Warehouse, Lot,
}

abbrev pub is_available : LotStatus → Bool
is_available available = true
is_available _ = false

abbrev is_gone : LotStatus → Bool
is_gone disposed = true
is_gone exhausted = true
is_gone _ = false

abbrev is_held : LotStatus → Bool
is_held quarantined = true
is_held expired = true
is_held spoiled = true
is_held recalled = true
is_held _ = false

abbrev pub not_expired : Option ℕ → ℕ → Bool
not_expired none today = true
not_expired (some day) today = leb today day

unfoldable pub is_out_eligible : Lot → SourcePolicy → ℕ → Bool
is_out_eligible lot allocatable today = is_available lot.status && not_expired lot.expires_at today
is_out_eligible lot custody_move today = not (is_gone lot.status)
is_out_eligible lot disposition today = is_held lot.status
is_out_eligible lot quarantine_release today = is_held lot.status
is_out_eligible lot quarantine_hold today = is_held lot.status

-- `movement.sourcePolicy ?? "ALLOCATABLE"`
abbrev pub policy_or_default : Option SourcePolicy → SourcePolicy
policy_or_default none = allocatable
policy_or_default (some p) = p

-- The net of the movements of one item and lot, in insertion order.
abbrev pub Nets : Type 0
Nets = List (ℕ × ℕ × ℤ)

-- `netByItemLot.set(key, (netByItemLot.get(key) ?? 0n) + signed)`
unfoldable pub add_net : ℕ → ℕ → ℤ → Nets → Nets
add_net item lot x [] = (item, lot, pos 0 +ℤ x) ∷ []
add_net item lot x ((i, l, y) ∷ nets) =
    let rest = add_net item lot x nets in
    if i == item && l == lot then (i, l, y +ℤ x) ∷ nets else (i, l, y) ∷ rest

abbrev pub signed : Movement → ℤ
signed m = if is_in m.movement_type then m.quantity else neg m.quantity

abbrev pub is_hold : Movement → Bool
is_hold m = is_in m.movement_type && has_policy m.source_policy quarantine_hold

unfoldable pub net_by_item_lot : List Movement → Nets → Nets
unfolding add_net
net_by_item_lot [] nets = nets
net_by_item_lot (m ∷ ms) nets =
    net_by_item_lot ms (if is_hold m then nets else add_net m.item_id m.lot_id (signed m) nets)

module _ (warehouses : List Warehouse) where
  -- `warehousesById.get(id)!`; every warehouse of the movements is there.
  abbrev pub warehouse_by_id : ℕ → Option Warehouse
  warehouse_by_id id = find? (λ w. w.id == id) warehouses

  abbrev pub purpose_of : Movement → Option Purpose
  purpose_of m = elim (warehouse_by_id m.warehouse_id) [ none ↦ none | some w ↦ w.purpose ]

  abbrev pub location_of : Movement → ℕ
  location_of m = elim (warehouse_by_id m.warehouse_id) [ none ↦ 0 | some w ↦ w.location_id ]

  -- `matches(m, ["IN"], ps)` and `matches(m, ["OUT"], ps)`
  abbrev pub enters : List Purpose → Movement → Bool
  enters ps m = is_in m.movement_type && purpose_in ps (purpose_of m)

  abbrev pub leaves : List Purpose → Movement → Bool
  leaves ps m = not (is_in m.movement_type) && purpose_in ps (purpose_of m)

  -- `singleOutletRouteClasses.has(…)`
  abbrev pub is_single_outlet : RouteClass → Bool
  is_single_outlet receive = true
  is_single_outlet order_deduction = true
  is_single_outlet adjustment = true
  is_single_outlet internal_transfer = true
  is_single_outlet outlet_return_dispatch = true
  is_single_outlet qa_release = true
  is_single_outlet _ = false

  abbrev pub is_internal : RouteClass → Bool
  is_internal internal_transfer = true
  is_internal _ = false

  -- `[...locationIds][0] !== input.locationId`
  abbrev pub first_is_not : List ℕ → ℕ → Bool
  first_is_not [] location = true
  first_is_not (l ∷ ls) location = not (l == location)

  -- The check of the branch of one route class; true where `reject` is called.
  unfoldable pub route_rejects : RouteClass → List Movement → Bool
  unfolding net_by_item_lot
  route_rejects receive ms = not (all (enters (hq_main ∷ [])) ms)
  route_rejects order_deduction ms =
      not (all (leaves (kitchen ∷ outlet_storage ∷ [])) ms)
      || not (all (λ m. has_policy (some (policy_or_default m.source_policy)) allocatable) ms)
  route_rejects outlet_return_dispatch ms =
      not (all (leaves (outlet_storage ∷ kitchen ∷ [])) ms)
      || not (all (λ m. has_policy m.source_policy custody_move) ms)
  route_rejects return_disposition ms =
      not (all (λ m. purpose_in (quarantine ∷ []) (purpose_of m)) ms)
      || any (λ m. not (is_in m.movement_type) && not (has_policy m.source_policy disposition)) ms
      || any (λ n. not (n.2 ==ℤ pos 0)) (net_by_item_lot ms [])
  route_rejects qa_release ms =
      not (all (λ m. leaves (quarantine ∷ []) m || enters (hq_main ∷ []) m) ms)
      || not (all (λ m. is_in m.movement_type || has_policy m.source_policy quarantine_release) ms)
  route_rejects internal_transfer ms =
      not (all (λ m. leaves (outlet_storage ∷ []) m || enters (kitchen ∷ []) m) ms)
  route_rejects hq_transfer ms =
      not (
        all
          (λ m.
            leaves (hq_main ∷ production ∷ []) m
            || enters (outlet_storage ∷ production ∷ hq_main ∷ []) m)
          ms)
      || ltb 1 (
          length (
            sorted_set ltb (
              map location_of
                (select (λ m. not (purpose_in (hq_main ∷ quarantine ∷ []) (purpose_of m))) ms))))
  route_rejects production_posting ms =
      not (all (λ m. purpose_in (hq_main ∷ production ∷ []) (purpose_of m)) ms)
  route_rejects opening_balance ms = not (all (λ m. is_in m.movement_type) ms)
  route_rejects adjustment ms = not (length (sorted_set ltb (map (λ m. m.warehouse_id) ms)) == 1)

  unfoldable pub validate_route : RouteClass → ℕ → List Movement → Result PostingError (Unit {0})
  unfolding route_rejects
  validate_route class location ms =
      let locations = map location_of ms in
      do
        throw_if (is_single_outlet class && ltb 1 (length (sorted_set ltb locations)))
            (posting_error forbidden_route 409)
        throw_if (is_single_outlet class && is_internal class && first_is_not locations location)
            (posting_error forbidden_route 409)
        throw_if (route_rejects class ms) (posting_error forbidden_route 409)
