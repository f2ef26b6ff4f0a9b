-- ===== src/Orders/Examples.antt =====
-- The theorems of src/modules/orders at an order of two items of 250 g of an ingredient, of which the
-- kitchen has 1 kg. Whole numbers of millionths stand for the numbers of JavaScript.
use ckitchen_backend.Prelude.{
  ◌≡◌, refl, true, false, none, some, [], ◌∷◌, codes, trim, arith, ok, err,
}
use ckitchen_backend.Prelude.Int.{ℤ, pos, ◌+ℤ◌, ◌-ℤ◌, ◌*ℤ◌}
use ckitchen_backend.Orders.Types.{
  new, preparing, cancelled, order_deduction, restock, conflict_error, Doubles, Order, OrderDb,
}
use ckitchen_backend.Orders.Deduction.{
  post_ledger, kitchen_of, components_of, add_amount, add_components, add_items, deductions,
  missing_rows, subtract_all, post_deductions, apply_deductions, add_restock, restocks_of, add_all,
  post_restocks,
}
use ckitchen_backend.Orders.Lifecycle.{
  next_stage, move_order, deduct, advance_order, restock_order, cancel_order,
}
use ckitchen_backend.Orders.Quantities.{stock_at}
use ckitchen_backend.Orders.Cancellation.{cancel_order-after-advance}
use ckitchen_backend.Orders.Races.{advance_order-conflict}

abbrev whole_numbers : Doubles
whole_numbers = record {
  D = ℤ;
  zero_number = pos 0;
  number = λ q. q;
  times = λ x k. x *ℤ pos k;
  plus = λ x y. x +ℤ y;
  subtracted = λ s x. s -ℤ x;
  added = λ s x. s +ℤ x;
  stored = λ x. x;
}

abbrev placed : Order
placed = record {
  id = 1;
  brand_id = 2;
  location_id = 3;
  status = new;
  cancel_reason = none;
  prep_at = none;
  ready_at = none;
  completed_at = none;
}

abbrev kitchen_tables : OrderDb
kitchen_tables = record {
  orders = placed ∷ [];
  items = record { order_id = 1; menu_item_id = 5; qty = 2; component_snapshot = none } ∷ [];
  recipe_lines =
      record {
        menu_item_id = 5;
        component = record { ingredient_id = 6; portion_qty = pos 250000 };
      }
      ∷ [];
  snapshot_flag = true;
  brands = [];
  kitchens = record { id = 7; location_id = 3 } ∷ [];
  stock = record { warehouse_id = 7; ingredient_id = 6; quantity = pos 1000000 } ∷ [];
  reservations =
      record { order_id = 1; ingredient_id = 6; warehouse_id = 7; quantity = pos 500000 } ∷ [];
  logs = [];
  ledger = [];
}

abbrev advanced_tables : OrderDb
advanced_tables = record kitchen_tables {
  orders = record placed { status = preparing; prep_at = some 40 } ∷ [];
  stock = record { warehouse_id = 7; ingredient_id = 6; quantity = pos 500000 } ∷ [];
  reservations = [];
  logs =
      record {
        ingredient_id = 6;
        quantity = pos 500000;
        logged_by = 9;
        order_id = 1;
        warehouse_id = some 7;
      }
      ∷ [];
  ledger =
      record {
        source = order_deduction;
        document = 1;
        line = 6;
        ingredient_id = 6;
        warehouse_id = 7;
        is_in = false;
        quantity = pos 500000;
        encoder = 9;
      }
      ∷ [];
}

abbrev cancelled_tables : OrderDb
cancelled_tables = record advanced_tables {
  orders =
      record placed { status = cancelled; prep_at = some 40; cancel_reason = some (codes "late") }
      ∷ [];
  stock = record { warehouse_id = 7; ingredient_id = 6; quantity = pos 1000000 } ∷ [];
  logs = [];
  ledger =
      record {
        source = restock;
        document = 1;
        line = 6;
        ingredient_id = 6;
        warehouse_id = 7;
        is_in = true;
        quantity = pos 500000;
        encoder = 0;
      }
      ∷ advanced_tables.ledger;
}

order_advanced :
    advance_order whole_numbers kitchen_tables 1 9 40 kitchen_tables ≡ ok advanced_tables
unfolding advance_order next_stage move_order deduct kitchen_of deductions add_items add_components
    add_amount components_of apply_deductions missing_rows subtract_all post_deductions post_ledger
    ◌+ℤ◌ ◌-ℤ◌ ◌*ℤ◌
order_advanced = refl

order_cancelled :
    cancel_order whole_numbers advanced_tables 1 (codes "late ") advanced_tables
    ≡ ok cancelled_tables
unfolding cancel_order trim move_order restock_order restocks_of add_restock add_all post_restocks
    post_ledger kitchen_of ◌+ℤ◌
order_cancelled = refl

zero_plus : (q : ℤ) → pos 0 +ℤ q ≡ q
unfolding ◌+ℤ◌
zero_plus q = ground arith

cancel_order-after-advance_example :
    stock_at 7 6 cancelled_tables.stock ≡ stock_at 7 6 kitchen_tables.stock
unfolding deductions add_items add_components add_amount components_of
cancel_order-after-advance_example =
    cancel_order-after-advance whole_numbers kitchen_tables advanced_tables 1 9 40 (codes "late ")
      kitchen_tables advanced_tables cancelled_tables order_advanced order_cancelled tt
      ((λ s. refl), tt) ((λ s. rw (zero_plus _)), tt) 7 6

advance_order-conflict_example :
    advance_order whole_numbers kitchen_tables 1 8 41 advanced_tables ≡ err conflict_error
advance_order-conflict_example =
    advance_order-conflict whole_numbers kitchen_tables 1 9 8 40 41 kitchen_tables advanced_tables
      order_advanced
