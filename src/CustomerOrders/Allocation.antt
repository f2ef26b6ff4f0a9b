-- ===== src/CustomerOrders/Allocation.antt =====
-- src/modules/customer-orders/allocation.ts and `allocateAgainstItemAtOutlet` of service.ts: the
-- choice of lots for an order line, first expired first out, and the reservations that it writes.
pub mod Amounts
pub mod Reservations
pub mod Fefo
use ckitchen_backend.Prelude.{
  ℕ, Bool, true, false, ◌&&◌, ◌||◌, not, Option, none, some, List, [], ◌∷◌, map, Text, any, find?,
  select, includes, length, ltb, leb, ◌==◌, if◌then◌else◌, Result, ok, err, ◌>>=◌, ◌>>◌, throw_if,
}
use ckitchen_backend.Prelude.Int.{ℤ, pos, ◌+ℤ◌, ◌-ℤ◌, ltb_ℤ, leb_ℤ}
use ckitchen_backend.Stock.Types.{
  Purpose, outlet_storage, kitchen, purpose_in, Warehouse, Lot, Balance,
}
use ckitchen_backend.Stock.Route.{is_available, not_expired}
use ckitchen_backend.Stock.Locks.{is_row}

-- What an allocation throws: a `CustomerOrderError`, or the database's unique violation.
pub data AllocationError : Type 0 where
  validation insufficient_stock unique_violation : AllocationError

-- A row of `customer_order_allocation`.
pub record Allocation : Type 0 where
  pub line_id : ℕ
  pub lot_id : ℕ
  pub warehouse_id : ℕ
  pub quantity : ℤ
  pub is_active : Bool

-- `FefoAllocationPortion`
pub record Portion : Type 0 where
  pub lot_id : ℕ
  pub warehouse_id : ℕ
  pub qty_base : ℤ

pub record Candidate : Type 0 where
  pub lot_id : ℕ
  pub lot_code : Text
  pub warehouse_id : ℕ
  pub expires_at : Option ℕ

abbrev pub source_purposes : Option Purpose → Bool
source_purposes = purpose_in (outlet_storage ∷ kitchen ∷ [])

unfoldable pub resolve_outlet_source_warehouse_ids : List Warehouse → ℕ → List ℕ
resolve_outlet_source_warehouse_ids warehouses location =
    map (λ w. w.id)
      (select (λ w. w.location_id == location && w.is_active && source_purposes w.purpose)
        warehouses)

-- `expires_at ASC NULLS LAST`
abbrev pub expires_before : Option ℕ → Option ℕ → Bool
expires_before none e = false
expires_before (some d) none = true
expires_before (some d) (some e) = ltb d e

-- The sum of the active reservations of a lot at a warehouse, which `reservedByKey` holds.
unfoldable pub reserved_by_key : List Allocation → ℕ → ℕ → ℤ
reserved_by_key [] w l = pos 0
reserved_by_key (a ∷ rows) w l =
    let rest = reserved_by_key rows w l in
    if a.is_active && (a.warehouse_id == w && a.lot_id == l) then rest +ℤ a.quantity else rest

-- `onHandByKey`, with its default.
unfoldable pub on_hand_by_key : List Balance → ℕ → ℕ → ℤ
on_hand_by_key balances w l = elim (find? (is_row w l) balances) [
  | none ↦ pos 0
  | some b ↦ b.on_hand
]

-- The order of texts under the database's collation is a parameter.
module _ (collates_before : Text → Text → Bool) where
  unfoldable pub goes_before : Candidate → Candidate → Bool
  goes_before a b =
      expires_before a.expires_at b.expires_at
      || (not (expires_before b.expires_at a.expires_at) && collates_before a.lot_code b.lot_code)

  unfoldable pub insert_candidate : Candidate → List Candidate → List Candidate
  unfolding goes_before
  insert_candidate c [] = c ∷ []
  insert_candidate c (x ∷ xs) =
      let rest = insert_candidate c xs in if goes_before x c then x ∷ rest else c ∷ x ∷ xs

  -- The join of the balances with the eligible lots, in the order of the query.
  unfoldable pub candidates_of :
      List Lot → ℕ → List ℕ → Option ℕ → ℕ → List Balance → List Candidate
  unfolding insert_candidate
  candidates_of lots item warehouses lot today [] = []
  candidates_of lots item warehouses lot today (b ∷ bs) =
      let rest = candidates_of lots item warehouses lot today bs in
      elim (find? (λ l. l.id == b.lot_id) lots) [
        | none ↦ rest
        | some l ↦
            if l.item_id == item
              && includes warehouses b.warehouse_id
              && is_available l.status
              && not_expired l.expires_at today
              && elim lot [ none ↦ true | some id ↦ l.id == id ]
            then insert_candidate
                (record {
                  lot_id = l.id;
                  lot_code = l.lot_code;
                  warehouse_id = b.warehouse_id;
                  expires_at = l.expires_at;
                })
                rest
            else rest
      ]

abbrev pub portion_of : Candidate → ℤ → Portion
portion_of c take = record { lot_id = c.lot_id; warehouse_id = c.warehouse_id; qty_base = take }

abbrev pub smaller : ℤ → ℤ → ℤ
smaller a b = if ltb_ℤ a b then a else b

module _ (balances : List Balance) (rows : List Allocation) where
  abbrev pub available_of : Candidate → ℤ
  available_of c =
      on_hand_by_key balances c.warehouse_id c.lot_id
      -ℤ reserved_by_key rows c.warehouse_id c.lot_id

  -- The loop over the candidates: the portions and what remains needed.
  unfoldable pub take_portions : List Candidate → ℤ → List Portion × ℤ
  unfolding on_hand_by_key reserved_by_key ◌-ℤ◌
  take_portions [] remaining = ([], remaining)
  take_portions (c ∷ cs) remaining =
      let take = smaller (available_of c) remaining in
      let skipped = take_portions cs remaining in
      let taken = take_portions cs (remaining -ℤ take) in
      if leb_ℤ remaining (pos 0)
      then ([], remaining)
      else if leb_ℤ (available_of c) (pos 0)
      then skipped
      else (portion_of c take ∷ taken.0, taken.1)

  -- `selectFefoAllocationPortions`, from the candidates on.
  unfoldable pub select_portions :
      List ℕ → List Candidate → ℤ → Result AllocationError (List Portion)
  unfolding take_portions
  select_portions warehouses candidates needed = do
    throw_if (length warehouses == 0) validation
    throw_if (length candidates == 0) insufficient_stock
    let taken = take_portions candidates needed
    throw_if (ltb_ℤ (pos 0) taken.1) insufficient_stock
    ok taken.0

-- The partial unique index on the line and the lot of the active rows.
abbrev pub holds_lot : ℕ → ℕ → Allocation → Bool
holds_lot line lot a = a.is_active && (a.line_id == line && a.lot_id == lot)

abbrev pub allocation_of : ℕ → Portion → Allocation
allocation_of line p = record {
  line_id = line;
  lot_id = p.lot_id;
  warehouse_id = p.warehouse_id;
  quantity = p.qty_base;
  is_active = true;
}

-- The inserts of `allocateAgainstItemAtOutlet`.
unfoldable pub insert_portions :
    ℕ → List Portion → List Allocation → Result AllocationError (List Allocation)
insert_portions line [] rows = ok rows
insert_portions line (p ∷ ps) rows = do
  throw_if (any (holds_lot line p.lot_id) rows) unique_violation
  insert_portions line ps (allocation_of line p ∷ rows)

-- `allocateAgainstItemAtOutlet`
unfoldable pub allocate_against_item :
    (Text → Text → Bool)
    → List Lot
    → List Balance
    → ℕ
    → ℕ
    → ℕ
    → ℤ
    → List ℕ
    → List Allocation
    → Result AllocationError (List Allocation)
unfolding select_portions insert_portions candidates_of
allocate_against_item collates lots balances today line item needed warehouses rows = do
  portions ←
      select_portions balances rows warehouses
        (candidates_of collates lots item warehouses none today balances) needed
  insert_portions line portions rows

-- `releaseActiveAllocationsForLines`
unfoldable pub release_active_allocations_for_lines : List ℕ → List Allocation → List Allocation
release_active_allocations_for_lines lines =
    map (λ a. if includes lines a.line_id && a.is_active then record a { is_active = false } else a)
