-- ===== src/Units/Examples.antt =====
-- Runs of src/modules/units/catalog.ts.
use ckitchen_backend.Prelude.{◌⊎◌, none}
use ckitchen_backend.Prelude.{
  some, [], ◌∷◌, text_eq, lower, ◌+◌, ◌*◌, ◌≤◌, ◌<◌, ◌≡◌, refl, true, trim, codes, arith, ok, err,
}
use ckitchen_backend.Prelude.Int.{pos, negsuc, neg, ◌*ℤ◌}
use ckitchen_backend.Stock.Decimal.{format_fixed, match_decimal}
use ckitchen_backend.Units.Catalog.{
  zero_factor, not_convertible, magnitude, with_sign, match_quantity, match_bare_fraction,
  parse_decimal, divide_rounded, format_scaled, scale_digits, scale_quantity, normalize_quantity,
}
use ckitchen_backend.Units.Catalog.Rounding.{format_scaled-format_fixed, divide_rounded-nearest}
use ckitchen_backend.Units.Service.{
  StandardUnit, standard_units, aliases, standard_unit_code, standard_unit, catalogue, inherited,
  unit_of_code, IngredientUnits, to_stock_quantity, to_custom_quantity, stocked, same_unit,
}
use ckitchen_backend.Units.Service.Choices.{standard_unit_code-known}

ounces_in_grams :
    scale_quantity (codes "2") (codes "28.349523125") (codes "1") 6 ≡ ok (codes "56.699046")
unfolding scale_quantity parse_decimal match_quantity match_decimal match_bare_fraction trim
    scale_digits divide_rounded format_scaled ◌*ℤ◌
ounces_in_grams = refl

bare_fraction : normalize_quantity (codes " -.5 ") ≡ ok (codes "-0.500000")
unfolding normalize_quantity scale_quantity parse_decimal match_quantity match_decimal
    match_bare_fraction trim scale_digits divide_rounded format_scaled ◌*ℤ◌
bare_fraction = refl

no_factor : scale_quantity (codes "2") (codes "1") (codes "0.0") 6 ≡ err zero_factor
unfolding scale_quantity parse_decimal match_quantity match_decimal match_bare_fraction trim
    scale_digits divide_rounded format_scaled ◌*ℤ◌
no_factor = refl

format_scaled-format_fixed_example :
    format_scaled (neg (pos 12500000)) 6 ≡ format_fixed (neg (pos 12500000)) 6
format_scaled-format_fixed_example = format_scaled-format_fixed (neg (pos 12500000)) 6

divide_rounded-nearest_example :
    (2 * (2 * magnitude (divide_rounded (negsuc 4) (pos 2))) ≤ 12)
    × (12 < 2 * (2 * (magnitude (divide_rounded (negsuc 4) (pos 2)) + 1)))
    × (divide_rounded (negsuc 4) (pos 2)
        ≡ with_sign true (magnitude (divide_rounded (negsuc 4) (pos 2))))
divide_rounded-nearest_example = divide_rounded-nearest (negsuc 4) (pos 2) (omega arith)

-- Rice is stocked in kilograms, and comes in sacks of 25.
abbrev rice : IngredientUnits
rice = record {
  stock_unit = codes "kg";
  custom = record { name = codes "Sack"; to_stock = codes "25" } ∷ [];
}

grams_of_rice :
    to_stock_quantity rice (codes "250") (some (codes " Grams "))
    ≡ ok (stocked (codes "0.250000") (codes "250.000000") (codes "g"))
unfolding to_stock_quantity same_unit unit_of_code standard_unit standard_unit_code standard_units
    aliases text_eq lower trim normalize_quantity scale_quantity parse_decimal match_quantity
    match_decimal match_bare_fraction scale_digits divide_rounded format_scaled ◌*ℤ◌
grams_of_rice = refl

sacks_of_rice :
    to_stock_quantity rice (codes "1.5") (some (codes "sack"))
    ≡ ok (stocked (codes "37.500000") (codes "1.500000") (codes "Sack"))
unfolding to_stock_quantity to_custom_quantity same_unit unit_of_code standard_unit
    standard_unit_code standard_units aliases text_eq lower trim normalize_quantity scale_quantity
    parse_decimal match_quantity match_decimal match_bare_fraction scale_digits divide_rounded
    format_scaled ◌*ℤ◌
sacks_of_rice = refl

liters_of_rice : to_stock_quantity rice (codes "1") (some (codes "ml")) ≡ err not_convertible
unfolding to_stock_quantity to_custom_quantity same_unit unit_of_code standard_unit
    standard_unit_code standard_units aliases text_eq lower trim normalize_quantity scale_quantity
    parse_decimal match_quantity match_decimal match_bare_fraction scale_digits divide_rounded
    format_scaled ◌*ℤ◌
liters_of_rice = refl

standard_unit_code-known_example :
    ((u : StandardUnit) × (catalogue (codes "kg") ≡ catalogue u.code)
      × (unit_of_code (some (catalogue (codes "kg"))) ≡ some u))
    ⊎ (((lower (trim (codes " Kilos ")) ≡ codes "constructor")
          ⊎ (lower (trim (codes " Kilos ")) ≡ codes "__proto__"))
        × (unit_of_code (some (catalogue (codes "kg"))) ≡ none))
unfolding standard_unit_code aliases text_eq lower trim
standard_unit_code-known_example = standard_unit_code-known (codes " Kilos ") refl

-- An inherited member, which is no unit.
inherited_constructor :
    standard_unit_code (codes "Constructor") ≡ some (inherited (codes "constructor"))
unfolding standard_unit_code aliases text_eq lower trim
inherited_constructor = refl
