-- ===== src/Decimal.antt =====
-- md_provider/decimal.h: a venue's decimal text as a scaled uint64_t. Every sum and product wraps
-- modulo 2^64, and no character is tested.
pub mod Value
mod Tests
use aggregated_order_book.Base.{
  ℕ, zero, suc, ◌+◌, ◌-◌, ◌*◌, ◌%◌, ◌^◌, [], ◌∷◌, ltb, ◌==◌, if◌then◌else◌, length, take,
}
use aggregated_order_book.Base.Text.{Text}

-- `kMultipliers`: powers of ten.
unfoldable pub multiplier : ℕ → ℕ
multiplier zero = 1
multiplier (suc n) = 10 * multiplier n

-- static_cast<uint64_t>(c - '0') of a signed char.
abbrev pub digit : ℕ → ℕ
digit c = ((if ltb c 128 then c else c + 2 ^ 64 - 256) + 2 ^ 64 - 48) % 2 ^ 64

-- `value * 10 + digit`
abbrev pub push_digit : ℕ → ℕ → ℕ
push_digit value c = (value * 10 + digit c) % 2 ^ 64

-- The loop over the fractional digits.
unfoldable pub push_digits : ℕ → Text → ℕ
push_digits value [] = value
push_digits value (c ∷ cs) = push_digits (push_digit value c) cs

-- The part of `ParseScaledDecimal` after the dot.
unfoldable pub parse_fraction : ℕ → ℕ → Text → ℕ
parse_fraction scale value fraction =
    let kept = take scale fraction in
    (push_digits value kept * multiplier (scale - length kept)) % 2 ^ 64

-- `ParseScaledDecimal`: the loop up to the dot, or to the end of a text without one.
unfoldable pub parse_from : ℕ → ℕ → Text → ℕ
parse_from scale value [] = (value * multiplier scale) % 2 ^ 64
parse_from scale value (c ∷ cs) =
    let rest = parse_from scale (push_digit value c) cs in
    if c == 46 then parse_fraction scale value cs else rest

pub parse_scaled_decimal : ℕ → Text → ℕ
parse_scaled_decimal scale text = parse_from scale 0 text
