-- ===== src/Book/Prices.antt =====
-- What a list of levels says of one price, whatever the order of its levels.
use aggregated_order_book.Base.{
  ℕ, ◌+◌, Bool, false, ◌||◌, List, [], ◌∷◌, ◌++◌, ◌==◌, ◌≡◌, refl, ◌≢◌, if◌then◌else◌, arith,
  reverse, reverse-cons, All,
}
use aggregated_order_book.Types.{PriceLevel}

-- The quantity at `p`, 0 where no level has that price.
abbrev pub qty_at : List PriceLevel → ℕ → ℕ
qty_at [] p = 0
qty_at (l ∷ ls) p = (if l.price == p then l.qty else 0) + qty_at ls p

abbrev pub has_price : List PriceLevel → ℕ → Bool
has_price [] p = false
has_price (l ∷ ls) p = l.price == p || has_price ls p

-- No level is empty.
abbrev pub NonZero : List PriceLevel → Type 0
NonZero = All (λ l. l.qty ≢ 0)

-- No price stands twice.
abbrev pub Distinct : List PriceLevel → Type 0
Distinct [] = Unit
Distinct (l ∷ ls) = (has_price ls l.price ≡ false) × Distinct ls

pub qty_at-append :
    (xs ys : List PriceLevel) (p : ℕ) → qty_at (xs ++ ys) p ≡ qty_at xs p + qty_at ys p
qty_at-append [] ys p = omega arith
qty_at-append (x ∷ xs) ys p = omega (arith, qty_at-append xs ys p)

pub has_price-append :
    (xs ys : List PriceLevel) (p : ℕ) → has_price (xs ++ ys) p ≡ (has_price xs p || has_price ys p)
has_price-append [] ys p = refl
has_price-append (x ∷ xs) ys p = ground (arith, has_price-append xs ys p)

pub qty_at-reverse : (xs : List PriceLevel) (p : ℕ) → qty_at (reverse xs) p ≡ qty_at xs p
qty_at-reverse [] p = refl
qty_at-reverse (x ∷ xs) p =
    rw (reverse-cons x xs, qty_at-append (reverse xs) (x ∷ []) p)
      (omega (arith, qty_at-reverse xs p))

pub has_price-reverse : (xs : List PriceLevel) (p : ℕ) → has_price (reverse xs) p ≡ has_price xs p
has_price-reverse [] p = refl
has_price-reverse (x ∷ xs) p =
    rw (reverse-cons x xs, has_price-append (reverse xs) (x ∷ []) p)
      (ground (arith, has_price-reverse xs p))

pub qty_at_absent : (xs : List PriceLevel) (p : ℕ) → has_price xs p ≡ false → qty_at xs p ≡ 0
qty_at_absent [] p h = refl
qty_at_absent (x ∷ xs) p h = ground (arith, qty_at_absent xs p)

-- In a list of filled levels the quantity tells whether the price stands there.
pub qty_at_present :
    (xs : List PriceLevel) (p : ℕ) → NonZero xs → qty_at xs p ≡ 0 → has_price xs p ≡ false
qty_at_present [] p n h = refl
qty_at_present (x ∷ xs) p n h = ground (arith, qty_at_present xs p n.1)
