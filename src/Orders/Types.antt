-- ===== src/Orders/Types.antt =====
-- The rows of src/db/schema.ts that src/modules/orders/service.ts reads and writes for an order's
-- stages. An id is 0 where it is null; a quantity is an integer number of millionths.
use ckitchen_backend.Prelude.{ℕ, Bool, Option, List, Text, ◌==◌}
use ckitchen_backend.Prelude.Int.{ℤ}

pub data OrderStatus : Type 0 where
  new preparing ready completed cancelled : OrderStatus

abbrev pub status_rank : OrderStatus → ℕ
status_rank new = 0
status_rank preparing = 1
status_rank ready = 2
status_rank completed = 3
status_rank cancelled = 4

abbrev pub same_status : OrderStatus → OrderStatus → Bool
same_status s t = status_rank s == status_rank t

-- `ValidationError`, `NotFoundError`, `ConflictError`, and a plain `Error`.
pub data OrderError : Type 0 where
  validation_error not_found_error conflict_error plain_error : OrderError

-- The numbers of JavaScript, and what the database makes of their texts in a column of scale 6:
-- `Number(text)`, the product and the sum, the column after `quantity - text::numeric` and after
-- `quantity + text::numeric`, and the column that the text is stored in.
pub record Doubles : Type 1 where
  pub D : Type 0
  pub zero_number : D
  pub number : ℤ → D
  pub times : D → ℕ → D
  pub plus : D → D → D
  pub subtracted : ℤ → D → ℤ
  pub added : ℤ → D → ℤ
  pub stored : D → ℤ

pub record Order : Type 0 where
  pub id : ℕ
  pub brand_id : ℕ
  pub location_id : ℕ
  pub status : OrderStatus
  pub cancel_reason : Option Text
  pub prep_at : Option ℕ
  pub ready_at : Option ℕ
  pub completed_at : Option ℕ

-- A line of a recipe, or of the snapshot of one.
pub record Component : Type 0 where
  pub ingredient_id : ℕ
  pub portion_qty : ℤ

pub record RecipeLine : Type 0 where
  pub menu_item_id : ℕ
  pub component : Component

pub record OrderItem : Type 0 where
  pub order_id : ℕ
  pub menu_item_id : ℕ
  pub qty : ℕ
  pub component_snapshot : Option (List Component)

pub record Brand : Type 0 where
  pub id : ℕ
  pub location_id : ℕ

-- A warehouse of type KITCHEN.
pub record Kitchen : Type 0 where
  pub id : ℕ
  pub location_id : ℕ

pub record StockRow : Type 0 where
  pub warehouse_id : ℕ
  pub ingredient_id : ℕ
  pub quantity : ℤ

pub record Reservation : Type 0 where
  pub order_id : ℕ
  pub ingredient_id : ℕ
  pub warehouse_id : ℕ
  pub quantity : ℤ

-- A row of `consumption_log`.
pub record LogRow : Type 0 where
  pub ingredient_id : ℕ
  pub quantity : ℤ
  pub logged_by : ℕ
  pub order_id : ℕ
  pub warehouse_id : Option ℕ

-- The source modules that the order service writes to the stock ledger.
pub data LedgerSource : Type 0 where
  order_deduction restock : LedgerSource

pub record LedgerEntry : Type 0 where
  pub source : LedgerSource
  pub document : ℕ
  pub line : ℕ
  pub ingredient_id : ℕ
  pub warehouse_id : ℕ
  pub is_in : Bool
  pub quantity : ℤ
  pub encoder : ℕ

pub record OrderDb : Type 0 where
  pub orders : List Order
  pub items : List OrderItem
  pub recipe_lines : List RecipeLine
  pub snapshot_flag : Bool
  pub brands : List Brand
  pub kitchens : List Kitchen
  pub stock : List StockRow
  pub reservations : List Reservation
  pub logs : List LogRow
  pub ledger : List LedgerEntry
