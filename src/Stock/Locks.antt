-- ===== src/Stock/Locks.antt =====
-- src/modules/stock/posting-service.ts, `lockMovementKeys`: the checks of a posting's warehouses,
-- items, conversions and lots in the global lock order, and the state of each stock key.
pub mod Laws
pub mod Rows
use ckitchen_backend.Prelude.{
  ℕ, ◌^◌, Bool, true, false, ◌&&◌, ◌||◌, not, Option, none, some, List, [], ◌∷◌, map, Text, text_eq,
  text_lt, trim, lower, any, find?, sorted_set, includes, ltb, ◌==◌, if◌then◌else◌, Result, ok,
  ◌>>=◌, ◌>>◌, throw_if, or_throw, for_each,
}
use ckitchen_backend.Prelude.Int.{ℤ, pos, ◌*ℤ◌, ◌==ℤ◌}
use ckitchen_backend.Stock.Decimal.{divide_exact}
use ckitchen_backend.Stock.Types.{
  is_in, RouteClass, unauthorized, invalid_movement, lot_not_found, lot_item_mismatch,
  lot_not_eligible, uom_mismatch, forbidden_route, insufficient_stock, PostingError, posting_error,
  type_error, Movement, Warehouse, Item, Lot, Balance, Db,
}
use ckitchen_backend.Stock.Canonical.{lift_decimal}
use ckitchen_backend.Stock.Route.{validate_route, is_out_eligible, policy_or_default}

-- `LockedKeyState`: the key, the row's stamp, and its numbers.
pub record KeyState : Type 0 where
  pub warehouse_id : ℕ
  pub item_id : ℕ
  pub lot_id : ℕ
  pub version : ℕ
  pub initial_on_hand : ℤ
  pub current_on_hand : ℤ
  pub reserved : ℤ

-- `keyOf`: the warehouse, the item and the lot.
abbrev pub Key : Type 0
Key = ℕ × ℕ × ℕ

abbrev pub key_of : Movement → Key
key_of m = (m.warehouse_id, m.item_id, m.lot_id)

abbrev pub key_eq : Key → Key → Bool
key_eq (w, i, l) (w', i', l') = w == w' && (i == i' && l == l')

abbrev pub key_lt : Key → Key → Bool
key_lt (w, i, l) (w', i', l') = ltb w w' || (w == w' && (ltb i i' || (i == i' && ltb l l')))

-- `[...groups.keys()].sort()`
unfoldable pub keys_of : List Movement → List Key
keys_of ms = sorted_set key_lt (map key_of ms)

-- `allowedLocationIds && !allowedLocationIds.includes(location)`
abbrev pub is_outside : Option (List ℕ) → ℕ → Bool
is_outside none location = false
is_outside (some allowed) location = not (includes allowed location)

abbrev is_mapped : Warehouse → Bool
is_mapped w = w.is_active && elim w.purpose [ none ↦ false | some _ ↦ true ]

unfoldable pub check_warehouse :
    List Warehouse → Option (List ℕ) → ℕ → Result PostingError (Unit {0})
check_warehouse warehouses allowed id = do
  w ← or_throw (find? (λ w. w.id == id) warehouses) (posting_error forbidden_route 409)
  throw_if (not (is_mapped w)) (posting_error forbidden_route 409)
  throw_if (is_outside allowed w.location_id) (posting_error unauthorized 403)

unfoldable pub check_item : List Item → ℕ → Result PostingError (Unit {0})
check_item items id = do
  item ← or_throw (find? (λ i. i.id == id) items) (posting_error invalid_movement 409)
  throw_if (not item.is_active || item.is_service) (posting_error invalid_movement 409)

-- `enteredUom.trim().toLowerCase()`
abbrev pub uom_of : Text → Text
uom_of t = lower (trim t)

abbrev uom_key_lt : ℕ × Text → ℕ × Text → Bool
uom_key_lt (i, u) (j, v) = ltb i j || (i == j && text_lt u v)

-- The factor that `conversionByItemUom` holds for an item and a unit, in units of 10^-8.
unfoldable pub configured_factor : Db → ℕ → Text → Result PostingError ℤ
configured_factor db item_id uom = do
  item ← or_throw (find? (λ i. i.id == item_id) db.items) type_error
  let conversion =
      find? (λ c. c.item_id == item_id && text_eq (lower c.from_uom) uom && c.is_active)
        db.conversions
  if text_eq (uom_of item.unit) uom
      then ok (pos (10 ^ 8))
      else or_throw conversion (posting_error uom_mismatch 409) >>= λ c. ok c.to_base_factor

unfoldable pub check_conversions : Db → List Movement → Result PostingError (Unit {0})
unfolding configured_factor
check_conversions db ms =
    for_each (λ (i, u). configured_factor db i u >>= λ _. ok tt)
      (sorted_set uom_key_lt (map (λ m. (m.item_id, uom_of m.entered_uom)) ms))

unfoldable pub check_quantity : Db → Movement → Result PostingError (Unit {0})
unfolding configured_factor divide_exact ◌*ℤ◌
check_quantity db m = do
  factor ← configured_factor db m.item_id (uom_of m.entered_uom)
  throw_if (not (m.conversion_factor ==ℤ factor)) (posting_error uom_mismatch 409)
  base ← lift_decimal (divide_exact (m.entered_quantity *ℤ factor) (10 ^ 8))
  throw_if (not (base ==ℤ m.quantity)) (posting_error uom_mismatch 409)

unfoldable pub check_lot_exists : List Lot → ℕ → Result PostingError (Unit {0})
check_lot_exists lots id =
    or_throw (find? (λ l. l.id == id) lots) (posting_error lot_not_found 404) >>= λ _. ok tt

unfoldable pub check_lot : List Lot → ℕ → Movement → Result PostingError (Unit {0})
unfolding is_out_eligible
check_lot lots today m = do
  lot ← or_throw (find? (λ l. l.id == m.lot_id) lots) type_error
  throw_if (not (lot.item_id == m.item_id)) (posting_error lot_item_mismatch 409)
  throw_if
      (not (is_in m.movement_type)
        && not (is_out_eligible lot (policy_or_default m.source_policy) today))
      (posting_error lot_not_eligible 409)

abbrev pub is_row : ℕ → ℕ → Balance → Bool
is_row w l b = b.warehouse_id == w && b.lot_id == l

-- A row with the column defaults.
abbrev pub empty_balance : ℕ → ℕ → Balance
empty_balance w l = record {
  warehouse_id = w;
  lot_id = l;
  on_hand = pos 0;
  reserved = pos 0;
  version = 1;
}

-- `insert … onConflictDoNothing()` on the unique index of warehouse and lot.
unfoldable pub ensure_balance : ℕ → ℕ → List Balance → List Balance
ensure_balance w l bs = if any (is_row w l) bs then bs else empty_balance w l ∷ bs

-- The loop that creates missing destination balances.
unfoldable pub ensure_balances : List Movement → List Key → List Balance → List Balance
unfolding ensure_balance
ensure_balances ms [] bs = bs
ensure_balances ms ((w, i, l) ∷ keys) bs =
    let wanted = any (λ m. key_eq (key_of m) (w, i, l) && is_in m.movement_type) ms in
    ensure_balances ms keys (if wanted then ensure_balance w l bs else bs)

abbrev pub state_of : Key → Balance → KeyState
state_of (w, i, l) b = record {
  warehouse_id = w;
  item_id = i;
  lot_id = l;
  version = b.version;
  initial_on_hand = b.on_hand;
  current_on_hand = b.on_hand;
  reserved = b.reserved;
}

-- The loop that locks the balances.
unfoldable pub lock_balances : List Balance → List Key → Result PostingError (List KeyState)
lock_balances bs [] = ok []
lock_balances bs ((w, i, l) ∷ keys) = do
  b ← or_throw (find? (is_row w l) bs) (posting_error insufficient_stock 409)
  states ← lock_balances bs keys
  ok (state_of (w, i, l) b ∷ states)

-- The checks before any balance is created.
unfoldable pub check_movements :
    Db → RouteClass → ℕ → Option (List ℕ) → ℕ → List Movement → Result PostingError (Unit {0})
check_movements db class location allowed today ms = do
  for_each (check_warehouse db.warehouses allowed) (sorted_set ltb (map (λ m. m.warehouse_id) ms))
  validate_route db.warehouses class location ms
  for_each (check_item db.items) (sorted_set ltb (map (λ m. m.item_id) ms))
  check_conversions db ms
  for_each (check_quantity db) ms
  for_each (check_lot_exists db.lots) (sorted_set ltb (map (λ m. m.lot_id) ms))
  for_each (check_lot db.lots today) ms

-- `lockMovementKeys`: the states in key order, and the balances with the new rows.
unfoldable pub lock_movement_keys :
    Db
    → RouteClass
    → ℕ
    → Option (List ℕ)
    → ℕ
    → List Movement
    → Result PostingError (List KeyState × List Balance)
lock_movement_keys db class location allowed today ms = do
  check_movements db class location allowed today ms
  let balances = ensure_balances ms (keys_of ms) db.balances
  states ← lock_balances balances (keys_of ms)
  ok (states, balances)
