-- ===== src/Book/Best.antt =====
-- `BestBid` and `BestAsk`: back() is the best price of a sorted side.
use aggregated_order_book.Base.{ℕ, ◌≤◌, true, false, List, [], ◌∷◌, ◌≡◌, ◌≢◌, arith, some}
use aggregated_order_book.Types.{PriceLevel}
use aggregated_order_book.Book.Prices.{qty_at, has_price}
use aggregated_order_book.Book.Order.{StorageLess, storage_less, less, greater, Before}
use aggregated_order_book.Book.Side.{IsValidSide}
use aggregated_order_book.Book.Update.{IsValidBook}
use aggregated_order_book.Book.{FlatOrderBook, back, best_bid, best_ask}

-- The level at back() of a nonempty sorted side: no price of the side ranks behind it, and it holds
-- the quantity of its price, which is not 0.
record IsBest (s : StorageLess) (side : List PriceLevel) (q r : ℕ) : Type 0 where
  held : has_price side q ≡ true
  quantity : r ≡ qty_at side q
  filled : r ≢ 0
  behind : (p : ℕ) → has_price side p ≡ true → storage_less s q p ≡ false

Before-has_price :
    (s : StorageLess) (x p : ℕ) (ls : List PriceLevel)
    → Before s x ls
    → has_price ls p ≡ true
    → storage_less s x p ≡ true
Before-has_price s x p [] b h = cc
Before-has_price s x p (l ∷ ls) b h = ground (arith, b.0, Before-has_price s x p ls b.1)

back-IsBest :
    (s : StorageLess) (side : List PriceLevel) (q r : ℕ)
    → IsValidSide s side
    → back side ≡ some (q, r)
    → IsBest s side q r
back-IsBest s [] q r v e = absurd (cc)
back-IsBest s (l ∷ []) q r v e = record {
  held = ground arith;
  quantity = ground arith;
  filled = ground (arith, v.filled.0);
  behind = λ p h. ground arith;
}
back-IsBest s (l ∷ m ∷ ls) q r v e =
    let rest = back-IsBest s (m ∷ ls) q r (record { sorted = v.sorted.1; filled = v.filled.1 }) e in
    let above = Before-has_price s l.price q (m ∷ ls) v.sorted.0 rest.held in
    record {
      held = ground (arith, rest.held);
      quantity = ground (arith, rest.quantity, above);
      filled = rest.filled;
      behind = λ p h. ground (arith, rest.behind p, above);
    }

-- On a valid book `BestBid` is the highest bid with its quantity, which is not 0.
best_bid_lem :
    (b : FlatOrderBook) (q r : ℕ)
    → IsValidBook b
    → best_bid b ≡ some (q, r)
    → (r ≡ qty_at b.bids q) × (r ≢ 0) × ((p : ℕ) → has_price b.bids p ≡ true → p ≤ q)
unfolding best_bid
best_bid_lem b q r v e =
    let best = back-IsBest less b.bids q r v.bids e in
    (best.quantity, best.filled, λ p h. ground (arith, best.behind p h))

-- On a valid book `BestAsk` is the lowest ask with its quantity, which is not 0.
pub best_ask_lem :
    (b : FlatOrderBook) (q r : ℕ)
    → IsValidBook b
    → best_ask b ≡ some (q, r)
    → (r ≡ qty_at b.asks q) × (r ≢ 0) × ((p : ℕ) → has_price b.asks p ≡ true → q ≤ p)
unfolding best_ask
best_ask_lem b q r v e =
    let best = back-IsBest greater b.asks q r v.asks e in
    (best.quantity, best.filled, λ p h. ground (arith, best.behind p h))
