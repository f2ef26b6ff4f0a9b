-- ===== src/Units/Service.antt =====
-- src/modules/units/catalog.ts, the catalogue of units, and src/modules/units/service.ts, the
-- conversion of a typed quantity. `ALIASES` is a plain object, so a lookup also finds the names that
-- every object of JavaScript inherits.
pub mod Choices
use ckitchen_backend.Prelude.{
  ℕ, Bool, true, false, ◌&&◌, Option, none, some, List, [], ◌∷◌, Text, text_eq, trim, lower,
  is_empty, codes, find?, map_option, ◌==◌, if◌then◌else◌, Result, ok, err, ◌>>=◌, or_throw,
}
use ckitchen_backend.Units.Catalog.{
  QuantityError, not_convertible, quantity_scale, scale_quantity, normalize_quantity,
}

pub data Dimension : Type 0 where
  mass volume count : Dimension

abbrev dimension_rank : Dimension → ℕ
dimension_rank mass = 0
dimension_rank volume = 1
dimension_rank count = 2

abbrev pub same_dimension : Dimension → Dimension → Bool
same_dimension a b = dimension_rank a == dimension_rank b

pub record StandardUnit : Type 0 where
  pub code : Text
  pub label : Text
  pub dimension : Dimension
  pub base : Text

abbrev unit_of : Text → Text → Dimension → Text → StandardUnit
unit_of c l d b = record { code = c; label = l; dimension = d; base = b }

unfoldable pub standard_units : List StandardUnit
standard_units =
    unit_of (codes "kg") (codes "kilogram") mass (codes "1000")
    ∷ unit_of (codes "g") (codes "gram") mass (codes "1")
    ∷ unit_of (codes "mg") (codes "milligram") mass (codes "0.001")
    ∷ unit_of (codes "lb") (codes "pound") mass (codes "453.59237")
    ∷ unit_of (codes "oz") (codes "ounce") mass (codes "28.349523125")
    ∷ unit_of (codes "L") (codes "litre") volume (codes "1000")
    ∷ unit_of (codes "mL") (codes "millilitre") volume (codes "1")
    ∷ unit_of (codes "gal") (codes "gallon (US)") volume (codes "3785.411784")
    ∷ unit_of (codes "cup") (codes "cup (US)") volume (codes "236.5882365")
    ∷ unit_of (codes "tbsp") (codes "tablespoon") volume (codes "14.78676478125")
    ∷ unit_of (codes "tsp") (codes "teaspoon") volume (codes "4.92892159375")
    ∷ unit_of (codes "pc") (codes "piece") count (codes "1")
    ∷ unit_of (codes "dozen") (codes "dozen") count (codes "12")
    ∷ []

-- `ALIASES`
unfoldable pub aliases : List (Text × Text)
aliases =
    (codes "kg", codes "kg")
    ∷ (codes "kgs", codes "kg")
    ∷ (codes "kilo", codes "kg")
    ∷ (codes "kilos", codes "kg")
    ∷ (codes "kilogram", codes "kg")
    ∷ (codes "kilograms", codes "kg")
    ∷ (codes "g", codes "g")
    ∷ (codes "gm", codes "g")
    ∷ (codes "gms", codes "g")
    ∷ (codes "gr", codes "g")
    ∷ (codes "gram", codes "g")
    ∷ (codes "grams", codes "g")
    ∷ (codes "mg", codes "mg")
    ∷ (codes "milligram", codes "mg")
    ∷ (codes "milligrams", codes "mg")
    ∷ (codes "lb", codes "lb")
    ∷ (codes "lbs", codes "lb")
    ∷ (codes "pound", codes "lb")
    ∷ (codes "pounds", codes "lb")
    ∷ (codes "oz", codes "oz")
    ∷ (codes "ounce", codes "oz")
    ∷ (codes "ounces", codes "oz")
    ∷ (codes "l", codes "L")
    ∷ (codes "lt", codes "L")
    ∷ (codes "ltr", codes "L")
    ∷ (codes "ltrs", codes "L")
    ∷ (codes "liter", codes "L")
    ∷ (codes "liters", codes "L")
    ∷ (codes "litre", codes "L")
    ∷ (codes "litres", codes "L")
    ∷ (codes "ml", codes "mL")
    ∷ (codes "milliliter", codes "mL")
    ∷ (codes "milliliters", codes "mL")
    ∷ (codes "millilitre", codes "mL")
    ∷ (codes "millilitres", codes "mL")
    ∷ (codes "gal", codes "gal")
    ∷ (codes "gallon", codes "gal")
    ∷ (codes "gallons", codes "gal")
    ∷ (codes "cup", codes "cup")
    ∷ (codes "cups", codes "cup")
    ∷ (codes "tbsp", codes "tbsp")
    ∷ (codes "tbs", codes "tbsp")
    ∷ (codes "tablespoon", codes "tbsp")
    ∷ (codes "tablespoons", codes "tbsp")
    ∷ (codes "tsp", codes "tsp")
    ∷ (codes "teaspoon", codes "tsp")
    ∷ (codes "teaspoons", codes "tsp")
    ∷ (codes "pc", codes "pc")
    ∷ (codes "pcs", codes "pc")
    ∷ (codes "pce", codes "pc")
    ∷ (codes "piece", codes "pc")
    ∷ (codes "pieces", codes "pc")
    ∷ (codes "ea", codes "pc")
    ∷ (codes "each", codes "pc")
    ∷ (codes "dozen", codes "dozen")
    ∷ (codes "doz", codes "dozen")
    ∷ (codes "dz", codes "dozen")
    ∷ []

-- A code of the catalogue, or an inherited member of the object, by its name. It is no string.
pub data UnitCode : Type 0 where
  catalogue inherited : Text → UnitCode

-- The inherited names without a capital letter, which are those that a lowercased text may be.
abbrev pub inherited_names : List Text
inherited_names = codes "constructor" ∷ codes "__proto__" ∷ []

-- `standardUnitCode`
unfoldable pub standard_unit_code : Text → Option UnitCode
unfolding aliases
standard_unit_code unit =
    elim (find? (λ (a : Text × Text). text_eq a.0 (lower (trim unit))) aliases) [
      | none ↦ map_option inherited (find? (λ n. text_eq n (lower (trim unit))) inherited_names)
      | some a ↦ some (catalogue a.1)
    ]

-- `standardUnit`
unfoldable pub standard_unit : Text → Option StandardUnit
unfolding standard_units
standard_unit code = find? (λ (u : StandardUnit). text_eq u.code code) standard_units

pub record CustomUnit : Type 0 where
  pub name : Text
  pub to_stock : Text

pub record IngredientUnits : Type 0 where
  pub stock_unit : Text
  pub custom : List CustomUnit

pub record StockQuantity : Type 0 where
  pub stock_quantity : Text
  pub entered_quantity : Text
  pub entered_unit : Text

-- `standardUnit(code ?? "")`, which finds no unit for a member that is no string.
unfoldable pub unit_of_code : Option UnitCode → Option StandardUnit
unfolding standard_unit
unit_of_code none = standard_unit []
unit_of_code (some (catalogue c)) = standard_unit c
unit_of_code (some (inherited n)) = none

-- `===` on two codes.
abbrev pub same_code : UnitCode → UnitCode → Bool
same_code (catalogue c) (catalogue d) = text_eq c d
same_code (inherited m) (inherited n) = text_eq m n
same_code _ _ = false

unfoldable pub same_unit : Text → Text → Bool
same_unit a b =
    let plain = text_eq (lower (trim a)) (lower (trim b)) in
    elim (standard_unit_code a) [
      | none ↦ plain
      | some c ↦ elim (standard_unit_code b) [ none ↦ plain | some d ↦ same_code c d ]
    ]

-- `unit?.trim() || units.stockUnit`
abbrev pub typed_unit : IngredientUnits → Option Text → Text
typed_unit units none = units.stock_unit
typed_unit units (some u) = if is_empty (trim u) then units.stock_unit else trim u

-- Two standard units of one dimension.
abbrev pub convertible :
    Option StandardUnit → Option StandardUnit → Option (StandardUnit × StandardUnit)
convertible none to = none
convertible (some from) none = none
convertible (some from) (some to) =
    if same_dimension from.dimension to.dimension then some (from, to) else none

abbrev pub stocked : Text → Text → Text → StockQuantity
stocked quantity entered unit = record {
  stock_quantity = quantity;
  entered_quantity = entered;
  entered_unit = unit;
}

-- The custom unit of that name, after the standard units are tried.
unfoldable pub to_custom_quantity :
    IngredientUnits → Text → Text → Text → Result QuantityError StockQuantity
unfolding scale_quantity
to_custom_quantity units quantity entered typed = do
  c ←
      or_throw (find? (λ (c : CustomUnit). text_eq (lower c.name) (lower typed)) units.custom)
        not_convertible
  q ← scale_quantity quantity c.to_stock (codes "1") quantity_scale
  ok (stocked q entered c.name)

-- `toStockQuantity`
unfoldable pub to_stock_quantity :
    IngredientUnits → Text → Option Text → Result QuantityError StockQuantity
unfolding same_unit unit_of_code to_custom_quantity scale_quantity normalize_quantity
to_stock_quantity units quantity unit =
    let typed = typed_unit units unit in
    normalize_quantity quantity >>= λ entered.
    if same_unit typed units.stock_unit
    then ok (stocked entered entered units.stock_unit)
    else elim (convertible (unit_of_code (standard_unit_code typed))
        (unit_of_code (standard_unit_code units.stock_unit))) [
          | none ↦ to_custom_quantity units quantity entered typed
          | some (from, to) ↦ scale_quantity quantity from.base to.base quantity_scale >>= λ q.
              ok (stocked q entered from.code)
        ]
