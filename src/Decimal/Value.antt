-- ===== src/Decimal/Value.antt =====
-- What the parser makes of a decimal text: its value in units of the scale, cut off behind the last
-- digit that the scale has room for.
use aggregated_order_book.Base.{
  ℕ, zero, suc, ◌+◌, ◌-◌, ◌*◌, ◌^◌, ◌≤◌, ◌<◌, ◌≡◌, refl, sym, ap, subst, ◌∙◌, true, false, [], ◌∷◌,
  ◌++◌, arith, ltb, ◌==◌, length, take, All,
}
use aggregated_order_book.Base.Text.{Text}
use aggregated_order_book.Decimal.{
  multiplier, digit, push_digit, push_digits, parse_fraction, parse_from, parse_scaled_decimal,
}

-- '0' to '9'
abbrev pub AreDigits : Text → Type 0
AreDigits = All (λ c. (48 ≤ c) × (c ≤ 57))

-- The number that digits stand for, behind the digits of `value`.
unfoldable pub value_of : ℕ → Text → ℕ
value_of value [] = value
value_of value (c ∷ cs) = value_of (value * 10 + (c - 48)) cs

digit_value : (c : ℕ) → (48 ≤ c) × (c ≤ 57) → digit c ≡ c - 48
digit_value c h =
    let plain : ltb c 128 ≡ true = ground (arith, h.0, h.1) in rw plain (omega (arith, h.0, h.1))

value_of_grows : (value : ℕ) (cs : Text) → value ≤ value_of value cs
unfolding value_of
value_of_grows value [] = omega arith
value_of_grows value (c ∷ cs) = omega (arith, value_of_grows (value * 10 + (c - 48)) cs)

push_digits-value_of :
    (value : ℕ) (cs : Text)
    → AreDigits cs
    → value_of value cs < 2 ^ 64
    → push_digits value cs ≡ value_of value cs
unfolding push_digits value_of
push_digits-value_of value [] d h = refl
push_digits-value_of value (c ∷ cs) d h =
    let small = value_of_grows (value * 10 + (c - 48)) cs in
    let step : push_digit value c ≡ value * 10 + (c - 48) =
      rw (digit_value c d.0) (omega (arith, small, h)) in
    rw step (push_digits-value_of (value * 10 + (c - 48)) cs d.1 h)

value_of-append :
    (value : ℕ) (xs ys : Text) → value_of value (xs ++ ys) ≡ value_of (value_of value xs) ys
unfolding value_of
value_of-append value [] ys = refl
value_of-append value (x ∷ xs) ys = value_of-append (value * 10 + (x - 48)) xs ys

multiplier_positive : (n : ℕ) → 0 < multiplier n
unfolding multiplier
multiplier_positive zero = omega arith
multiplier_positive (suc n) = omega (arith, multiplier_positive n)

-- A number is no larger than its multiple.
scaled_grows : (value n : ℕ) → value ≤ value * multiplier n
unfolding multiplier
scaled_grows value zero = omega arith
scaled_grows value (suc n) = grind (arith, scaled_grows value n)

take-AreDigits : (n : ℕ) (cs : Text) → AreDigits cs → AreDigits (take n cs)
take-AreDigits zero cs h = tt
take-AreDigits (suc n) [] h = tt
take-AreDigits (suc n) (c ∷ cs) h = (h.0, take-AreDigits n cs h.1)

-- The scaled number.
abbrev pub scaled : ℕ → Text → Text → ℕ
scaled scale whole fraction =
    value_of 0 (whole ++ take scale fraction) * multiplier (scale - length (take scale fraction))

parse_fraction-value_of :
    (scale value : ℕ) (fraction : Text)
    → AreDigits fraction
    → value_of value (take scale fraction) * multiplier (scale - length (take scale fraction))
      < 2 ^ 64
    → parse_fraction scale value fraction
      ≡ value_of value (take scale fraction) * multiplier (scale - length (take scale fraction))
unfolding parse_fraction
parse_fraction-value_of scale value fraction d h =
    let v = value_of value (take scale fraction) in
    let fits = scaled_grows v (scale - length (take scale fraction)) in
    rw
      (push_digits-value_of value (take scale fraction) (take-AreDigits scale fraction d)
        (omega (arith, fits, h)))
      (omega (arith, h))

parse_from-value_of :
    (scale value : ℕ) (whole fraction : Text)
    → AreDigits whole
    → AreDigits fraction
    → value_of (value_of value whole) (take scale fraction)
        * multiplier (scale - length (take scale fraction))
      < 2 ^ 64
    → parse_from scale value (whole ++ 46 ∷ fraction)
      ≡ value_of (value_of value whole) (take scale fraction)
        * multiplier (scale - length (take scale fraction))
unfolding parse_from value_of
parse_from-value_of scale value [] fraction w d h = parse_fraction-value_of scale value fraction d h
parse_from-value_of scale value (c ∷ cs) fraction w d h =
    let next = value * 10 + (c - 48) in
    let m = multiplier (scale - length (take scale fraction)) in
    let small : next < 2 ^ 64 = omega (
      arith,
      value_of_grows next cs,
      value_of_grows (value_of next cs) (take scale fraction),
      scaled_grows (value_of (value_of next cs) (take scale fraction))
          (scale - length (take scale fraction)),
      h,
    ) in
    let step : push_digit value c ≡ next = rw (digit_value c w.0) (omega (arith, small)) in
    let no_dot : (c == 46) ≡ false = ground (arith, w.0.0) in
    rw (no_dot, step) (parse_from-value_of scale next cs fraction w.1 d h)

-- Digits, a dot and digits, whose scaled number is a uint64_t: the parser returns the digits before the
-- dot and the first `scale` ones behind it as one number, times ten for each digit that is missing
-- there. Further digits do not count.
pub parse_scaled_decimal-scaled :
    (scale : ℕ) (whole fraction : Text)
    → AreDigits whole
    → AreDigits fraction
    → scaled scale whole fraction < 2 ^ 64
    → parse_scaled_decimal scale (whole ++ 46 ∷ fraction) ≡ scaled scale whole fraction
unfolding parse_scaled_decimal
parse_scaled_decimal-scaled scale whole fraction w d h =
    let split = value_of-append 0 whole (take scale fraction) in
    let m = multiplier (scale - length (take scale fraction)) in
    parse_from-value_of scale 0 whole fraction w d (subst (λ v. v * m < 2 ^ 64) split h)
    ∙ ap (λ v. v * m) (sym split)
