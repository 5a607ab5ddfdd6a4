-- ===== src/Bbo/Books.antt =====
-- `ComputeBBO` over the depth books against the scan of quotes.
use aggregated_order_book.Base.{
  ℕ, ◌+◌, ◌≡◌, ◌≢◌, refl, List, [], ◌∷◌, map, Option, none, some, arith, All,
}
use aggregated_order_book.Types.{BboQuote, no_quote}
use aggregated_order_book.Book.{FlatOrderBook, best_bid, best_ask}
use aggregated_order_book.Bbo.{
  Side, bid, ask, Level, scan_step, scan_from, fold_best, compute_bbo_from, compute_bbo,
  compute_bbo_from_quotes, empty_level, price_of, qty_of,
}

-- A best level as a price and a quantity, price 0 for none.
abbrev price_or_zero : Option (ℕ × ℕ) → ℕ
price_or_zero none = 0
price_or_zero (some (p, q)) = p

abbrev qty_or_zero : Option (ℕ × ℕ) → ℕ
qty_or_zero none = 0
qty_or_zero (some (p, q)) = q

-- The quote that a book's two best levels make; a slot with no book makes none.
abbrev pub quote_of_book : Option FlatOrderBook → BboQuote
quote_of_book none = no_quote
quote_of_book (some b) = record no_quote {
  bid_price = price_or_zero (best_bid b);
  bid_qty = qty_or_zero (best_bid b);
  ask_price = price_or_zero (best_ask b);
  ask_qty = qty_or_zero (best_ask b);
}

-- No best level stands at price 0, which a quote cannot tell from no level.
abbrev pub Priced : Option (ℕ × ℕ) → Type 0
Priced none = Unit {0}
Priced (some (p, q)) = p ≢ 0

abbrev pub BookPriced : Option FlatOrderBook → Type 0
BookPriced none = Unit {0}
BookPriced (some b) = Priced (best_bid b) × Priced (best_ask b)

fold_best-scan_step :
    (side : Side) (i : ℕ) (o : Option (ℕ × ℕ)) (q : BboQuote) (l : Level)
    → Priced o
    → price_of side q ≡ price_or_zero o
    → qty_of side q ≡ qty_or_zero o
    → fold_best side i o l ≡ scan_step side none i q l
unfolding fold_best scan_step
fold_best-scan_step side i none q l h e f = rw e
fold_best-scan_step side i (some (p, r)) q l h e f = rw (e, f) (ground arith)

compute_bbo_from-scan_from :
    (i : ℕ) (books : List (Option FlatOrderBook)) (b a : Level)
    → All BookPriced books
    → compute_bbo_from i books b a ≡ (
      scan_from bid none i (map quote_of_book books) b,
      scan_from ask none i (map quote_of_book books) a,
    )
unfolding compute_bbo_from scan_from
compute_bbo_from-scan_from i [] b a h = refl
compute_bbo_from-scan_from i (none ∷ books) b a h = compute_bbo_from-scan_from (i + 1) books b a h.1
compute_bbo_from-scan_from i (some k ∷ books) b a h =
    rw
      (
        fold_best-scan_step bid i (best_bid k) (quote_of_book (some k)) b h.0.0 refl refl,
        fold_best-scan_step ask i (best_ask k) (quote_of_book (some k)) a h.0.1 refl refl,
      )
      (compute_bbo_from-scan_from (i + 1) books _ _ h.1)

-- Over books whose best levels have prices, `ComputeBBO` is `ComputeBBOFromQuotes` of the quotes that
-- those levels make, with every venue admitted.
pub compute_bbo-compute_bbo_from_quotes :
    (books : List (Option FlatOrderBook))
    → All BookPriced books
    → compute_bbo books ≡ compute_bbo_from_quotes (map quote_of_book books) none
unfolding compute_bbo compute_bbo_from_quotes
compute_bbo-compute_bbo_from_quotes books h =
    rw (compute_bbo_from-scan_from 0 books empty_level empty_level h)
