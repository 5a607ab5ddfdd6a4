-- ===== src/Decimal/Tests.antt =====
-- "12.345" with room for two and for eight digits behind the dot.
use aggregated_order_book.Base.{◌-◌, ◌^◌, ◌<◌, ◌≡◌, refl, [], ◌∷◌, ◌++◌, arith}
use aggregated_order_book.Base.Text.{Text}
use aggregated_order_book.Decimal.{
  multiplier, push_digits, parse_fraction, parse_from, parse_scaled_decimal,
}
use aggregated_order_book.Decimal.Value.{value_of, scaled, parse_scaled_decimal-scaled}

abbrev twelve : Text
twelve = 49 ∷ 50 ∷ []

abbrev rest : Text
rest = 51 ∷ 52 ∷ 53 ∷ []

eight_run : parse_scaled_decimal 8 (twelve ++ 46 ∷ rest) ≡ 1234500000
unfolding parse_scaled_decimal parse_from parse_fraction push_digits multiplier
eight_run = refl

-- A sign is taken for a digit.
sign_run : parse_scaled_decimal 0 (45 ∷ 49 ∷ []) ≡ 2 ^ 64 - 29
unfolding parse_scaled_decimal parse_from parse_fraction push_digits multiplier
sign_run = refl

small : scaled 2 twelve rest < 2 ^ 64
unfolding value_of multiplier
small = omega arith

parse_scaled_decimal-scaled_example :
    parse_scaled_decimal 2 (twelve ++ 46 ∷ rest) ≡ scaled 2 twelve rest
parse_scaled_decimal-scaled_example =
    parse_scaled_decimal-scaled 2 twelve rest
      ((omega arith, omega arith), ((omega arith, omega arith), tt))
      ((omega arith, omega arith), ((omega arith, omega arith), ((omega arith, omega arith), tt)))
      small
