-- ===== src/CustomerOrders/Examples.antt =====
-- The theorems of src/modules/customer-orders at an outlet with two lots of an item: 5 of a lot that
-- expires, 1 of them reserved, and 3 of a lot that does not. An order line needs 6.
use ckitchen_backend.Prelude.{
  ◌≡◌, ◌≤◌, ◌<◌, refl, true, none, some, List, [], ◌∷◌, codes, text_lt, arith, ok, err,
}
use ckitchen_backend.Prelude.Int.{pos, ◌+ℤ◌, ◌-ℤ◌, ◌≤ℤ◌}
use ckitchen_backend.Stock.Types.{available, Lot, Balance}
use ckitchen_backend.CustomerOrders.Allocation.{
  Allocation, insufficient_stock, unique_violation, Portion, Candidate, reserved_by_key,
  on_hand_by_key, candidates_of, goes_before, insert_candidate, take_portions, select_portions,
  insert_portions, allocate_against_item,
}
use ckitchen_backend.CustomerOrders.Allocation.Amounts.{total, sum_of, select_portions-decides}
use ckitchen_backend.CustomerOrders.Allocation.Reservations.{allocate_against_item-covered}
use ckitchen_backend.CustomerOrders.Allocation.Fefo.{IsOrdered, select_portions-fefo}

abbrev lots : List Lot
lots =
    record {
      id = 9;
      item_id = 3;
      lot_code = codes "A";
      status = available;
      expires_at = some 20010;
    }
    ∷ record { id = 10; item_id = 3; lot_code = codes "B"; status = available; expires_at = none }
    ∷ []

abbrev balances : List Balance
balances =
    record { warehouse_id = 4; lot_id = 10; on_hand = pos 3; reserved = pos 0; version = 1 }
    ∷ record { warehouse_id = 4; lot_id = 9; on_hand = pos 5; reserved = pos 0; version = 1 }
    ∷ []

abbrev reserved_rows : List Allocation
reserved_rows =
    record { line_id = 1; lot_id = 9; warehouse_id = 4; quantity = pos 1; is_active = true } ∷ []

abbrev written : List Allocation
written =
    record { line_id = 2; lot_id = 10; warehouse_id = 4; quantity = pos 2; is_active = true }
    ∷ record { line_id = 2; lot_id = 9; warehouse_id = 4; quantity = pos 4; is_active = true }
    ∷ reserved_rows

abbrev expiring : Candidate
expiring = record { lot_id = 9; lot_code = codes "A"; warehouse_id = 4; expires_at = some 20010 }

abbrev lasting : Candidate
lasting = record { lot_id = 10; lot_code = codes "B"; warehouse_id = 4; expires_at = none }

abbrev in_order : List Candidate
in_order = expiring ∷ lasting ∷ []

first_expired_first : candidates_of text_lt lots 3 (4 ∷ []) none 20000 balances ≡ in_order
unfolding candidates_of goes_before insert_candidate
first_expired_first = refl

allocated :
    allocate_against_item text_lt lots balances 20000 2 3 (pos 6) (4 ∷ []) reserved_rows
    ≡ ok written
unfolding allocate_against_item select_portions take_portions insert_portions candidates_of
    goes_before insert_candidate reserved_by_key on_hand_by_key ◌+ℤ◌ ◌-ℤ◌
allocated = refl

-- A lot that stands at both warehouses of an outlet, and a line that needs more than either has.
abbrev split_lot : List Balance
split_lot =
    record { warehouse_id = 4; lot_id = 9; on_hand = pos 3; reserved = pos 0; version = 1 }
    ∷ record { warehouse_id = 5; lot_id = 9; on_hand = pos 3; reserved = pos 0; version = 1 }
    ∷ []

split_lot_refused :
    allocate_against_item text_lt lots split_lot 20000 2 3 (pos 6) (4 ∷ 5 ∷ []) []
    ≡ err unique_violation
unfolding allocate_against_item select_portions take_portions insert_portions candidates_of
    goes_before insert_candidate reserved_by_key on_hand_by_key ◌+ℤ◌ ◌-ℤ◌ text_lt
split_lot_refused = refl

select_portions-decides_example :
    (6 ≤ total balances reserved_rows in_order
      → (ps : List Portion) × (select_portions balances reserved_rows (4 ∷ []) in_order (pos 6)
          ≡ ok ps)
        × (sum_of ps ≡ pos 6))
    × (total balances reserved_rows in_order < 6
        → select_portions balances reserved_rows (4 ∷ []) in_order (pos 6) ≡ err insufficient_stock)
select_portions-decides_example =
    select_portions-decides balances reserved_rows (4 ∷ []) in_order 6 (omega arith) (omega arith)

allocate_against_item-covered_example : reserved_by_key written 4 9 ≤ℤ on_hand_by_key balances 4 9
unfolding reserved_by_key on_hand_by_key ◌+ℤ◌
allocate_against_item-covered_example =
    allocate_against_item-covered text_lt lots balances 20000 2 3 (pos 6) (4 ∷ []) reserved_rows
      written allocated 4 9 (omega arith)

-- A line that needs 3 leaves the lot that does not expire.
select_portions-fefo_example :
    IsOrdered in_order
    × (select_portions balances reserved_rows
          (4 ∷ [])
          (candidates_of text_lt lots 3 (4 ∷ []) none 20000 balances)
          (pos 3)
        ≡ select_portions balances reserved_rows (4 ∷ []) (expiring ∷ []) (pos 3))
unfolding total reserved_by_key on_hand_by_key ◌-ℤ◌ ◌+ℤ◌
select_portions-fefo_example =
    select_portions-fefo text_lt lots balances reserved_rows 3 (4 ∷ []) none 20000 expiring []
      (lasting ∷ []) first_expired_first 3 (omega arith)
