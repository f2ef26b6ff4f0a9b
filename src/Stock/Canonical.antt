-- ===== src/Stock/Canonical.antt =====
-- src/modules/stock/canonical.ts: the normal form of a posting request and its hash. SHA-256 over
-- the canonical JSON is a parameter, a function of what that JSON holds.
use ckitchen_backend.Prelude.{
  ℕ, Bool, true, false, ◌&&◌, ◌||◌, not, Option, none, some, List, [], ◌∷◌, Text, text_eq, codes,
  ltb, ◌==◌, if◌then◌else◌, Result, ok, err, ◌>>=◌,
}
use ckitchen_backend.Prelude.Int.{◌+ℤ◌, ◌==ℤ◌}
use ckitchen_backend.Stock.Decimal.{DecimalError, parse_fixed}
use ckitchen_backend.Stock.Types.{
  MovementType, SourcePolicy, is_in, policy_rank, PostingError, decimal_error, MovementInput,
  PostingInput, Movement,
}

-- A thrown `DecimalValidationError`.
abbrev pub lift_decimal : {A : Type 0} → Result DecimalError A → Result PostingError A
lift_decimal (ok a) = ok a
lift_decimal (err e) = err (decimal_error e)

abbrev pub or_text : Option Text → Text → Text
or_text none d = d
or_text (some t) d = t

-- One turn of the loop of `canonicalizePosting`, up to the aggregation key.
unfoldable pub normalize_movement : MovementInput → Result PostingError Movement
normalize_movement m = do
  quantity ← lift_decimal (parse_fixed m.quantity 6)
  entered ← lift_decimal (parse_fixed (or_text m.entered_quantity m.quantity) 6)
  factor ← lift_decimal (parse_fixed (or_text m.conversion_factor (codes "1")) 8)
  cost ← lift_decimal (parse_fixed (or_text m.unit_cost (codes "0")) 6)
  ok (record {
    warehouse_id = m.warehouse_id;
    item_id = m.item_id;
    lot_id = m.lot_id;
    movement_type = m.movement_type;
    quantity = quantity;
    entered_quantity = entered;
    entered_uom = m.entered_uom;
    conversion_factor = factor;
    unit_cost = cost;
    reason_code = m.reason_code;
    source_policy = m.source_policy;
    metadata = m.metadata;
  })

abbrev pub same_type : MovementType → MovementType → Bool
same_type s t = if is_in s then is_in t else not (is_in t)

abbrev pub same_text : Option Text → Option Text → Bool
same_text none none = true
same_text (some s) (some t) = text_eq s t
same_text _ _ = false

abbrev pub same_policy : Option SourcePolicy → Option SourcePolicy → Bool
same_policy none none = true
same_policy (some p) (some q) = policy_rank p == policy_rank q
same_policy _ _ = false

-- Equal aggregation keys.
unfoldable pub same_line : Movement → Movement → Bool
same_line a b =
    a.warehouse_id == b.warehouse_id
    && a.item_id == b.item_id
    && a.lot_id == b.lot_id
    && same_type a.movement_type b.movement_type
    && text_eq a.entered_uom b.entered_uom
    && a.conversion_factor ==ℤ b.conversion_factor
    && a.unit_cost ==ℤ b.unit_cost
    && same_text a.reason_code b.reason_code
    && same_policy a.source_policy b.source_policy
    && text_eq a.metadata b.metadata

-- `existing.quantity += …`, or `grouped.set(key, candidate)` at the end of the insertion order.
unfoldable pub add_group : Movement → List Movement → List Movement
add_group m [] = m ∷ []
add_group m (g ∷ gs) =
    let rest = add_group m gs in
    if same_line g m
    then record g {
      quantity = g.quantity +ℤ m.quantity;
      entered_quantity = g.entered_quantity +ℤ m.entered_quantity;
    }
      ∷ gs
    else g ∷ rest

unfoldable pub group_movements :
    List MovementInput → List Movement → Result PostingError (List Movement)
group_movements [] groups = ok groups
group_movements (m ∷ ms) groups = do
  candidate ← normalize_movement m
  group_movements ms (add_group candidate groups)

-- `movementSortKey(a) < movementSortKey(b)`: warehouse, item, lot, then IN before OUT.
unfoldable pub sort_key_lt : Movement → Movement → Bool
sort_key_lt a b =
    ltb a.warehouse_id b.warehouse_id
    || (a.warehouse_id == b.warehouse_id
        && (ltb a.item_id b.item_id
            || (a.item_id == b.item_id
                && (ltb a.lot_id b.lot_id
                    || (a.lot_id == b.lot_id
                        && is_in a.movement_type
                        && not (is_in b.movement_type))))))

-- The sort is stable: an element goes before those that are not below it.
unfoldable pub insert_movement : Movement → List Movement → List Movement
insert_movement m [] = m ∷ []
insert_movement m (x ∷ xs) =
    let rest = insert_movement m xs in if sort_key_lt x m then x ∷ rest else m ∷ x ∷ xs

unfoldable pub sort_movements : List Movement → List Movement
unfolding insert_movement
sort_movements [] = []
sort_movements (m ∷ ms) = insert_movement m (sort_movements ms)

-- What the canonical JSON holds.
pub record Plan : Type 0 where
  pub hash_version : ℕ
  pub source_module : Text
  pub source_document_no : Text
  pub location_id : ℕ
  pub movements : List Movement

abbrev pub posting_hash_version : ℕ
posting_hash_version = 1

unfoldable pub canonical_movements : PostingInput → Result PostingError (List Movement)
unfolding group_movements sort_movements
canonical_movements input = do
  groups ← group_movements input.movements []
  ok (sort_movements groups)

abbrev pub plan_of : PostingInput → List Movement → Plan
plan_of input movements = record {
  hash_version = posting_hash_version;
  source_module = input.source_module;
  source_document_no = input.source_document_no;
  location_id = input.location_id;
  movements = movements;
}
